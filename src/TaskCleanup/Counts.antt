-- ===== src/TaskCleanup/Counts.antt =====
-- src/task-cleanup.ts: every listed task is counted once.
use claw_crony.Base.{
  ℕ, ◌+◌, ◌≡◌, String, Bool, true, false, Option, none, some, List, [], ◌∷◌, leb, arith, length,
  count, bit, Bool-cases, inl, inr,
}
use claw_crony.TaskCleanup.{
  absent, stamped, Loaded, load_threw, missing, task, Deletion, delete_threw, gone, deleted,
  Cleanup, no_cleanup, deletion_in, aged_in, clean_in, clean_all, run_task_cleanup,
}

abbrev pub is_missing : Loaded → Bool
is_missing missing = true
is_missing _ = false

abbrev total : Cleanup → ℕ
total r = r.expired + r.skipped + r.errors

module _ (load : String → Loaded) (delete : String → Deletion) (ttl now : ℕ) where
  deletion-total :
      (d : Deletion) (id : String) (r : Cleanup) → total (deletion_in d id r) ≡ total r + 1
  deletion-total delete_threw id r = omega arith
  deletion-total gone id r = omega arith
  deletion-total deleted id r = omega arith

  aged-total :
      (time : Option ℕ) (id : String) (r : Cleanup)
      → total (aged_in load delete ttl now time id r) ≡ total r + 1
  aged-total none id r = omega arith
  aged-total (some time) id r = elim (Bool-cases (leb (time + ttl) now)) [
    | inl e ↦ rw e (deletion-total (delete id) id (record r { delete_calls = id ∷ r.delete_calls }))
    | inr e ↦ rw e (omega arith)
  ]

  clean-total :
      (loaded : Loaded) (id : String) (r : Cleanup)
      → total (clean_in load delete ttl now loaded id r) + bit (is_missing loaded) ≡ total r + 1
  clean-total load_threw id r = omega arith
  clean-total missing id r = omega arith
  clean-total (task state absent) id r = ground arith
  clean-total (task state (stamped time)) id r = ground (arith, aged-total time id r)

  clean_all-total :
      (ids : List String) (r : Cleanup)
      → total (clean_all load delete ttl now ids r) + count (λ id. is_missing (load id)) ids
        ≡ total r + length ids
  unfolding clean_all
  clean_all-total [] r = omega arith
  clean_all-total (id ∷ ids) r = omega (
    arith,
    clean_all-total ids (clean_in load delete ttl now (load id) id r),
    clean-total (load id) id r,
  )

  -- The expired, the skipped and the failed tasks are together the listed ones, but for those that were gone
  -- when they were loaded.
  pub run_task_cleanup-total :
      (ids : List String)
      → (let r = run_task_cleanup load delete ttl now false (some ids) in
            r.expired + r.skipped + r.errors)
          + count (λ id. is_missing (load id)) ids
        ≡ length ids
  unfolding run_task_cleanup
  run_task_cleanup-total ids = omega (arith, clean_all-total ids no_cleanup)
