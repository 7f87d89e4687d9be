-- ===== src/Telemetry/Balance.antt =====
-- The counters of src/telemetry.ts agree with each other.
use claw_crony.Base.{◌+◌, ◌≤◌, ◌≡◌, String, Bool, true, false, List, [], ◌∷◌, arith}
use claw_crony.Telemetry.{
  Telemetry, Tasks, jsonrpc, rest, metrics, shared_context, completed, failed, canceled, rejected,
  init, set_queue_state, record_inbound_http, record_outbound_request, record_peer_retry,
  record_security_rejection, record_task_queued, record_task_start, record_task_finish,
  record_queue_rejected, record_task_expired,
}
use claw_crony.Telemetry.Events.{
  Event, inbound, outbound, peer_retry, security_rejection, task_queued, task_start, task_finish,
  queue_rejected, task_expired, step, run,
}

abbrev pub IsBalancedHttp : Telemetry → Type 0
IsBalancedHttp t =
    (t.http.requests_total
      ≡ t.http.jsonrpc_requests + t.http.rest_requests + t.http.metrics_requests
        + t.http.shared_context_requests)
    × (t.collector.messages_received ≡ t.http.requests_total)
    × (t.collector.messages_sent + t.collector.errors ≡ t.http.outbound_requests + t.tasks.failed)
    × (t.collector.security_rejections ≡ t.http.security_rejections)

abbrev pub IsBalancedTasks : Tasks → Type 0
IsBalancedTasks s =
    (s.finished + s.queue_rejections ≡ s.completed + s.failed + s.canceled + s.rejected)
    × (s.timed_out ≤ s.failed)
    × (s.active ≤ s.max_active_observed)
    × (s.queue_depth ≤ s.max_queue_depth_observed)

abbrev pub IsBalanced : Telemetry → Type 0
IsBalanced t = IsBalancedHttp t × IsBalancedTasks t.tasks

step-IsBalanced :
    (is_timeout : String → Bool) (event : Event) (t : Telemetry)
    → IsBalanced t
    → IsBalanced (step is_timeout event t)
unfolding step record_inbound_http record_outbound_request record_peer_retry
    record_security_rejection record_task_queued record_task_start record_task_finish
    record_queue_rejected record_task_expired set_queue_state
step-IsBalanced f (inbound now jsonrpc) t h = ground arith
step-IsBalanced f (inbound now rest) t h = ground arith
step-IsBalanced f (inbound now metrics) t h = ground arith
step-IsBalanced f (inbound now shared_context) t h = ground arith
step-IsBalanced f (outbound now true) t h = ground arith
step-IsBalanced f (outbound now false) t h = ground arith
step-IsBalanced f (peer_retry peer) t h = h
step-IsBalanced f security_rejection t h = ground arith
step-IsBalanced f (task_queued depth) t h = ground arith
step-IsBalanced f (task_start now active depth) t h = ground arith
step-IsBalanced f (task_finish now completed d active depth error) t h = ground arith
step-IsBalanced f (task_finish now failed d active depth error) t h = ground arith
step-IsBalanced f (task_finish now canceled d active depth error) t h = ground arith
step-IsBalanced f (task_finish now rejected d active depth error) t h = ground arith
step-IsBalanced f (queue_rejected depth) t h = ground arith
step-IsBalanced f (task_expired now) t h = h

-- After any calls the requests are the sum of the four routes and the received messages; the sent messages
-- and the errors are the outbound requests and the failed tasks; both counts of security rejections are
-- equal; the finished tasks and the queue rejections are the sum of the four outcomes; the tasks that timed
-- out are at most the failed ones; and no active count or depth is above its observed maximum.
pub run-IsBalanced :
    (is_timeout : String → Bool) (events : List Event) → IsBalanced (run is_timeout events)
unfolding run init
run-IsBalanced f [] = ground arith
run-IsBalanced f (event ∷ events) = step-IsBalanced f event (run f events) (run-IsBalanced f events)
