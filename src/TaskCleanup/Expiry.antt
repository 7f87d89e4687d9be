-- ===== src/TaskCleanup/Expiry.antt =====
-- src/task-cleanup.ts: which tasks it deletes.
use claw_crony.Base.{
  ℕ, ◌+◌, ◌≤◌, ◌≡◌, refl, String, Bool, true, false, Option, none, some, List, [], ◌∷◌, leb, arith,
  length, All, leb→le, Bool-cases, inl, inr,
}
use claw_crony.TaskCleanup.{
  Timestamp, absent, stamped, Loaded, load_threw, missing, task, Deletion, delete_threw, gone,
  deleted, Cleanup, no_cleanup, is_terminal, deletion_in, aged_in, stamp_in, clean_in, clean_all,
  run_task_cleanup,
}

module _ (load : String → Loaded) (delete : String → Deletion) (ttl now : ℕ) where
  -- The task is finished, and its timestamp is at least the time to live ago.
  abbrev pub IsExpired : String → Type 0
  IsExpired id =
      (state : String) × (time : ℕ) × (load id ≡ task state (stamped (some time)))
      × (is_terminal state ≡ true)
      × (time + ttl ≤ now)

  -- The store has deleted the task.
  abbrev pub WasDeleted : String → Type 0
  WasDeleted id = IsExpired id × (delete id ≡ deleted)

  abbrev pub IsSound : Cleanup → Type 0
  IsSound r =
      All IsExpired r.delete_calls × All WasDeleted r.recorded × (length r.recorded ≡ r.expired)

  deletion-IsSound :
      (d : Deletion) (id : String) (r : Cleanup)
      → delete id ≡ d
      → IsExpired id
      → IsSound r
      → IsSound (deletion_in d id (record r { delete_calls = id ∷ r.delete_calls }))
  deletion-IsSound delete_threw id r e x (calls, recorded, n) = ((x, calls), recorded, n)
  deletion-IsSound gone id r e x (calls, recorded, n) = ((x, calls), recorded, n)
  deletion-IsSound deleted id r e x (calls, recorded, n) =
      ((x, calls), ((x, e), recorded), omega (arith, n))

  aged-IsSound :
      (state : String) (time : Option ℕ) (id : String) (r : Cleanup)
      → load id ≡ task state (stamped time)
      → is_terminal state ≡ true
      → IsSound r
      → IsSound (aged_in load delete ttl now time id r)
  aged-IsSound state none id r e t s = s
  aged-IsSound state (some time) id r e t s = elim (Bool-cases (leb (time + ttl) now)) [
    | inl old ↦
        rw old (
          deletion-IsSound (delete id) id r refl (state, time, e, t, leb→le (time + ttl) now old) s)
    | inr young ↦ rw young s
  ]

  clean-IsSound :
      (loaded : Loaded) (id : String) (r : Cleanup)
      → load id ≡ loaded
      → IsSound r
      → IsSound (clean_in load delete ttl now loaded id r)
  clean-IsSound load_threw id r e s = s
  clean-IsSound missing id r e s = s
  clean-IsSound (task state stamp) id r e s = elim (Bool-cases (is_terminal state)) [
    | inl t ↦ rw t (stamped-case stamp e t)
    | inr t ↦ rw t s
  ]
    where
      stamped-case :
          (stamp : Timestamp)
          → load id ≡ task state stamp
          → is_terminal state ≡ true
          → IsSound (stamp_in load delete ttl now stamp id r)
      stamped-case absent e t = s
      stamped-case (stamped time) e t = aged-IsSound state time id r e t s

  clean_all-IsSound :
      (ids : List String) (r : Cleanup) → IsSound r → IsSound (clean_all load delete ttl now ids r)
  unfolding clean_all
  clean_all-IsSound [] r s = s
  clean_all-IsSound (id ∷ ids) r s = clean_all-IsSound ids _ (clean-IsSound (load id) id r refl s)

  -- Deleted are only tasks that are finished and at least the time to live old; and the telemetry is told of a
  -- task only when the store has deleted it, as often as tasks are counted as expired.
  pub run_task_cleanup-IsSound :
      (running : Bool) (listed : Option (List String))
      → IsSound (run_task_cleanup load delete ttl now running listed)
  unfolding run_task_cleanup
  run_task_cleanup-IsSound true listed = (tt, tt, refl)
  run_task_cleanup-IsSound false none = (tt, tt, refl)
  run_task_cleanup-IsSound false (some ids) = clean_all-IsSound ids no_cleanup (tt, tt, refl)
