-- ===== src/Telemetry/Tally.antt =====
-- The counters of src/telemetry.ts count the calls of a history.
use claw_crony.Base.{
  ℕ, ◌+◌, ◌≤◌, ◌≡◌, refl, max, String, Bool, true, false, List, [], ◌∷◌, arith, count, bit, str_eq,
  eq_iff,
}
use claw_crony.Base.Dict.{lookup, lookup-insert, lookup-nil}
use claw_crony.Telemetry.{
  Telemetry, Tasks, completed, failed, canceled, rejected, init, or_zero, set_queue_state,
  is_timeout_error, record_inbound_http, record_outbound_request, record_peer_retry,
  record_security_rejection, record_task_queued, record_task_start, record_task_finish,
  record_queue_rejected, record_task_expired,
}
use claw_crony.Telemetry.Events.{
  Event, inbound, outbound, peer_retry, security_rejection, task_queued, task_start, task_finish,
  queue_rejected, task_expired, step, run,
}

abbrev pub retries_of : String → Event → Bool
retries_of p (peer_retry q) = str_eq q p
retries_of p _ = false

abbrev pub is_finish : Event → Bool
is_finish (task_finish _ _ _ _ _ _) = true
is_finish _ = false

abbrev pub is_start : Event → Bool
is_start (task_start _ _ _) = true
is_start _ = false

abbrev pub is_refusal : Event → Bool
is_refusal (queue_rejected _) = true
is_refusal (task_finish _ rejected _ _ _ _) = true
is_refusal _ = false

module _ (is_timeout : String → Bool) where
  -- A failure whose message says that it timed out.
  abbrev pub is_late : Event → Bool
  is_late (task_finish _ failed _ _ _ error) = is_timeout_error is_timeout error
  is_late _ = false

  -- Whether an event sets the active count, and to what.
  abbrev pub peak : List Event → ℕ
  peak [] = 0
  peak (task_start _ active _ ∷ events) = max active (peak events)
  peak (task_finish _ _ _ active _ _ ∷ events) = max active (peak events)
  peak (_ ∷ events) = peak events

  abbrev pub Tallies : List Event → Tasks → Type 0
  Tallies events s =
      (s.started ≡ count is_start events)
      × (s.finished ≡ count is_finish events)
      × (s.rejected ≡ count is_refusal events)
      × (s.timed_out ≡ count is_late events)
      × (s.max_active_observed ≡ peak events)
      × (s.active ≤ s.max_active_observed)

  step-Tallies :
      (event : Event) (events : List Event) (t : Telemetry)
      → Tallies events t.tasks
      → Tallies (event ∷ events) (step is_timeout event t).tasks
  unfolding step record_inbound_http record_outbound_request record_peer_retry
      record_security_rejection record_task_queued record_task_start record_task_finish
      record_queue_rejected record_task_expired set_queue_state
  step-Tallies (inbound now route) events t h = ground arith
  step-Tallies (outbound now ok) events t h = ground arith
  step-Tallies (peer_retry peer) events t h = ground arith
  step-Tallies security_rejection events t h = ground arith
  step-Tallies (task_queued depth) events t h = ground arith
  step-Tallies (task_start now active depth) events t h = ground arith
  step-Tallies (task_finish now completed d active depth error) events t h = ground arith
  step-Tallies (task_finish now failed d active depth error) events t h = ground arith
  step-Tallies (task_finish now canceled d active depth error) events t h = ground arith
  step-Tallies (task_finish now rejected d active depth error) events t h = ground arith
  step-Tallies (queue_rejected depth) events t h = ground arith
  step-Tallies (task_expired now) events t h = ground arith

  -- After any calls the tasks started, finished, rejected and timed out are the numbers of the calls that say
  -- so, and the observed maximum of active tasks is the largest active count of a call.
  pub run-Tallies : (events : List Event) → Tallies events (run is_timeout events).tasks
  unfolding run init
  run-Tallies [] = ground arith
  run-Tallies (event ∷ events) =
      step-Tallies event events (run is_timeout events) (run-Tallies events)

  step-retries :
      (p : String) (event : Event) (t : Telemetry)
      → or_zero (lookup p (step is_timeout event t).peer_retries)
        ≡ bit (retries_of p event) + or_zero (lookup p t.peer_retries)
  unfolding step record_inbound_http record_outbound_request record_peer_retry
      record_security_rejection record_task_queued record_task_start record_task_finish
      record_queue_rejected record_task_expired
  step-retries p (peer_retry q) t =
      ground (
        arith,
        lookup-insert q p (or_zero (lookup q t.peer_retries) + 1) t.peer_retries,
        eq_iff q p,
      )
  step-retries p (inbound now route) t = omega arith
  step-retries p (outbound now ok) t = omega arith
  step-retries p security_rejection t = omega arith
  step-retries p (task_queued depth) t = omega arith
  step-retries p (task_start now active depth) t = omega arith
  step-retries p (task_finish now completed d active depth error) t = omega arith
  step-retries p (task_finish now failed d active depth error) t = omega arith
  step-retries p (task_finish now canceled d active depth error) t = omega arith
  step-retries p (task_finish now rejected d active depth error) t = omega arith
  step-retries p (queue_rejected depth) t = omega arith
  step-retries p (task_expired now) t = omega arith

  -- A peer's retries are the calls of `recordPeerRetry` for its name.
  pub run-retries :
      (p : String) (events : List Event)
      → or_zero (lookup p (run is_timeout events).peer_retries) ≡ count (retries_of p) events
  unfolding run init
  run-retries p [] = rw (lookup-nil p) refl
  run-retries p (event ∷ events) =
      omega (arith, step-retries p event (run is_timeout events), run-retries p events)
