-- ===== src/Telemetry/Tests.antt =====
-- Runs of src/telemetry.ts.
use claw_crony.Base.{◌≡◌, refl, String, Bool, true, none, some, List, [], ◌∷◌, str_eq}
use claw_crony.Telemetry.{Tasks, jsonrpc, failed, completed, average_hundredths}
use claw_crony.Telemetry.Events.{
  Event, inbound, outbound, peer_retry, task_start, task_finish, queue_rejected, run,
}
use claw_crony.Telemetry.Balance.{IsBalanced, run-IsBalanced}
use claw_crony.Base.Dict.{Dict}
use claw_crony.PeerHealth.{PeerState, fresh_state}

abbrev is_timeout : String → Bool
is_timeout = str_eq "timed out"

abbrev events : List Event
events =
    task_finish 30 failed 7 0 0 (some "timed out")
    ∷ peer_retry "b"
    ∷ queue_rejected 1
    ∷ task_finish 20 completed 3 1 1 none
    ∷ task_start 10 2 1
    ∷ outbound 5 true
    ∷ inbound 1 jsonrpc
    ∷ []

abbrev tasks : Tasks
tasks = record {
  queued = 3;
  started = 3;
  completed = 3;
  failed = 0;
  canceled = 0;
  rejected = 0;
  timed_out = 0;
  queue_rejections = 0;
  active = 0;
  queue_depth = 0;
  max_active_observed = 1;
  max_queue_depth_observed = 1;
  total_duration_ms = 8;
  finished = 3;
  expired = 0;
  last_started_at = none;
  last_finished_at = none;
  last_cleanup_at = none;
}

run-average : average_hundredths tasks ≡ 267
unfolding average_hundredths
run-average = refl

run-IsBalanced_example : IsBalanced (run is_timeout events)
run-IsBalanced_example = run-IsBalanced is_timeout events

abbrev states : Dict PeerState
states = ("b", fresh_state) ∷ []
