-- ===== src/Queueing/Tests.antt =====
-- Runs of the queueing executor, and its theorems at inputs where they apply.
use claw_crony.Base.{ℕ, ◌≡◌, refl, String, none, List, [], ◌∷◌, arith, map}
use claw_crony.Queueing.{
  Request, Entry, Executor, Running, returned, Call, executes, cancels, settles, init, started,
  queue_delete, remove_run, settle, step, run, execute, cancel, drain, run_entry, reject_overload,
  enqueue, cancel_queued, close_run,
}
use claw_crony.Queueing.Bounds.{IsBusy, run-init-IsBusy}
use claw_crony.Queueing.Counts.{custody}
use claw_crony.Queueing.Custody.{AllFresh}
use claw_crony.Queueing.History.{custody-run, settle-drops_duplicate}

abbrev request : String → Request
request id = record { task_id = id; context_id = "c"; agent_id = none }

abbrev entry : String → ℕ → Entry
entry id n = record { request = request id; serial = n }

-- One place, two seats in the queue: `d` is turned away, `c` is canceled, then `a` ends.
abbrev history : List (ℕ × Call)
history =
    (1, executes (request "a"))
    ∷ (2, executes (request "b"))
    ∷ (3, executes (request "c"))
    ∷ (4, executes (request "d"))
    ∷ (5, cancels "c")
    ∷ (9, settles 0 returned)
    ∷ []

serials : List Running → List ℕ
serials = map (λ r. r.entry.serial)

after_history :
    (serials (run history (init 1 2)).running ≡ 1 ∷ []) × ((run history (init 1 2)).queue ≡ [])
unfolding serials run step init execute cancel settle run_entry queue_delete enqueue reject_overload
    cancel_queued drain close_run remove_run
after_history = (refl, refl)

run-init-IsBusy_example : IsBusy (run history (init 1 2))
run-init-IsBusy_example = run-init-IsBusy 1 2 history

custody-run_example : custody 3 (run history (init 1 2)) ≡ 1
unfolding run step init execute cancel settle run_entry queue_delete enqueue reject_overload
    cancel_queued drain close_run remove_run
custody-run_example = custody-run 1 2 3 history (refl, (refl, (refl, (refl, (tt, (tt, tt))))))

-- `a` runs; `b` waits twice, with `c` between.
abbrev crowded : Executor
crowded = record {
  max_concurrent = 1;
  max_queued = 3;
  queue = entry "b" 1 ∷ entry "c" 2 ∷ entry "b" 3 ∷ [];
  pending = [];
  active = 1;
  running = started (entry "a" 0) 0 ∷ [];
  next_serial = 4;
  trace = [];
}

crowded-IsBusy : IsBusy crowded
crowded-IsBusy = omega arith

-- `b` comes again once the first `b` runs.
abbrev later : List (ℕ × Call)
later = (6, executes (request "b")) ∷ (7, cancels "c") ∷ (8, settles 1 returned) ∷ []

later-AllFresh : AllFresh later (settle 0 returned 5 crowded)
unfolding step settle drain run_entry close_run remove_run queue_delete execute enqueue
later-AllFresh = (refl, (tt, (tt, tt)))

settle-drops_duplicate_example :
    ((settle 0 returned 5 crowded).queue ≡ queue_delete "b" (entry "c" 2 ∷ entry "b" 3 ∷ []))
    × (custody 3 (run later (settle 0 returned 5 crowded)) ≡ 0)
unfolding queue_delete
settle-drops_duplicate_example =
    settle-drops_duplicate 0 returned 5 crowded (started (entry "a" 0) 0) (entry "b" 1)
      (entry "b" 3) (entry "c" 2 ∷ entry "b" 3 ∷ []) later crowded-IsBusy refl refl refl refl
      (omega arith) (omega arith) (refl, tt) later-AllFresh
