-- ===== src/TaskCleanup/Tests.antt =====
-- Runs of src/task-cleanup.ts.
use claw_crony.Base.{◌≡◌, refl, String, false, some, List, [], ◌∷◌, if◌then◌else◌, str_eq}
use claw_crony.TaskCleanup.{
  Loaded, missing, task, absent, stamped, Deletion, deleted, clean_all, run_task_cleanup,
}
use claw_crony.TaskCleanup.Expiry.{IsSound, run_task_cleanup-IsSound}

abbrev load : String → Loaded
load id =
    if str_eq id "a"
    then task "completed" (stamped (some 10))
    else if str_eq id "b"
    then task "working" (stamped (some 10))
    else if str_eq id "c"
    then task "failed" absent
    else missing

abbrev delete : String → Deletion
delete id = deleted

abbrev ids : List String
ids = "a" ∷ "b" ∷ "c" ∷ "d" ∷ []

run-ids :
    run_task_cleanup load delete 50 60 false (some ids)
    ≡ record { expired = 1; skipped = 2; errors = 0; delete_calls = "a" ∷ []; recorded = "a" ∷ [] }
unfolding run_task_cleanup clean_all
run-ids = refl

run_task_cleanup-IsSound_example :
    IsSound load delete 50 60 (run_task_cleanup load delete 50 60 false (some ids))
run_task_cleanup-IsSound_example = run_task_cleanup-IsSound load delete 50 60 false (some ids)
