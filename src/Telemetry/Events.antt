-- ===== src/Telemetry/Events.antt =====
-- Histories of the calls of src/telemetry.ts.
use claw_crony.Base.{ℕ, String, Bool, Option, List, [], ◌∷◌}
use claw_crony.Telemetry.{
  Telemetry, Route, Outcome, init, record_inbound_http, record_outbound_request, record_peer_retry,
  record_security_rejection, record_task_queued, record_task_start, record_task_finish,
  record_queue_rejected, record_task_expired,
}

pub data Event : Type 0 where
  inbound : ℕ → Route → Event
  outbound : ℕ → Bool → Event
  peer_retry : String → Event
  security_rejection : Event
  task_queued : ℕ → Event
  task_start : ℕ → ℕ → ℕ → Event
  task_finish : ℕ → Outcome → ℕ → ℕ → ℕ → Option String → Event
  queue_rejected : ℕ → Event
  task_expired : ℕ → Event

module _ (is_timeout : String → Bool) where
  unfoldable pub step : Event → Telemetry → Telemetry
  unfolding record_inbound_http record_outbound_request record_peer_retry record_security_rejection
      record_task_queued record_task_start record_task_finish record_queue_rejected
      record_task_expired
  step (inbound now route) = record_inbound_http now route
  step (outbound now ok) = record_outbound_request now ok
  step (peer_retry peer) = record_peer_retry peer
  step security_rejection = record_security_rejection
  step (task_queued depth) = record_task_queued depth
  step (task_start now active depth) = record_task_start now active depth
  step (task_finish now outcome duration active depth error) =
      record_task_finish is_timeout now outcome duration active depth error
  step (queue_rejected depth) = record_queue_rejected depth
  step (task_expired now) = record_task_expired now

  -- The last event first.
  unfoldable pub run : List Event → Telemetry
  unfolding step init
  run [] = init
  run (event ∷ events) = step event (run events)
