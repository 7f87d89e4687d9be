-- ===== src/TaskCleanup.antt =====
-- src/task-cleanup.ts: the deletion of old finished tasks of a store. What the store answers is the argument
-- `load` and `delete`, by task id, and `listed`; a timestamp is the time that `new Date` makes of its text, none
-- where that is not a number. Log lines are left out.
pub mod Counts
pub mod Expiry
mod Tests
use claw_crony.Base.{
  ℕ, ◌+◌, String, Bool, true, false, Option, none, some, List, [], ◌∷◌, leb, if◌then◌else◌, str_eq,
  any,
}

-- `TERMINAL_STATES`
abbrev pub terminal_states : List String
terminal_states = "completed" ∷ "failed" ∷ "canceled" ∷ "rejected" ∷ []

-- `status.timestamp`: absent or empty, or a text and its time.
pub data Timestamp : Type 0 where
  absent : Timestamp
  stamped : Option ℕ → Timestamp

pub data Loaded : Type 0 where
  load_threw missing : Loaded
  task : String → Timestamp → Loaded

pub data Deletion : Type 0 where
  delete_threw gone deleted : Deletion

-- `CleanupResult`, and the ids that `store.delete` and `recordTaskExpired` were called with, the last first.
pub record Cleanup : Type 0 where
  pub expired : ℕ
  pub skipped : ℕ
  pub errors : ℕ
  pub delete_calls : List String
  pub recorded : List String

abbrev pub no_cleanup : Cleanup
no_cleanup = record { expired = 0; skipped = 0; errors = 0; delete_calls = []; recorded = [] }

abbrev pub skip : Cleanup → Cleanup
skip r = record r { skipped = r.skipped + 1 }

abbrev pub fail : Cleanup → Cleanup
fail r = record r { errors = r.errors + 1 }

abbrev pub is_terminal : String → Bool
is_terminal state = any (λ t. str_eq t state) terminal_states

-- After the call of `store.delete`.
abbrev pub deletion_in : Deletion → String → Cleanup → Cleanup
deletion_in delete_threw id r = fail r
deletion_in gone id r = skip r
deletion_in deleted id r = record r { expired = r.expired + 1; recorded = id ∷ r.recorded }

module _ (load : String → Loaded) (delete : String → Deletion) (ttl now : ℕ) where
  -- `isNaN(age) || age < ttlMs`, and what follows.
  abbrev pub aged_in : Option ℕ → String → Cleanup → Cleanup
  aged_in none id r = skip r
  aged_in (some time) id r =
      if leb (time + ttl) now
      then deletion_in (delete id) id (record r { delete_calls = id ∷ r.delete_calls })
      else skip r

  abbrev pub stamp_in : Timestamp → String → Cleanup → Cleanup
  stamp_in absent id r = skip r
  stamp_in (stamped time) id r = aged_in time id r

  -- The body of the loop.
  abbrev pub clean_in : Loaded → String → Cleanup → Cleanup
  clean_in load_threw id r = fail r
  clean_in missing id r = r
  clean_in (task state stamp) id r = if is_terminal state then stamp_in stamp id r else skip r

  pub clean_all : List String → Cleanup → Cleanup
  clean_all [] r = r
  clean_all (id ∷ ids) r = clean_all ids (clean_in (load id) id r)

  -- `listed` is none where `store.listAll` throws; `running` says that a cleanup of the store runs.
  pub run_task_cleanup : Bool → Option (List String) → Cleanup
  unfolding clean_all
  run_task_cleanup true listed = no_cleanup
  run_task_cleanup false none = no_cleanup
  run_task_cleanup false (some ids) = clean_all ids no_cleanup
