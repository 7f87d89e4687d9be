-- ===== src/Executor/States.antt =====
-- src/executor.ts: the course of a task.
use claw_crony.Base.{
  length-drop, ℕ, zero, suc, ◌-◌, ◌≤◌, ◌≡◌, refl, ◌⊎◌, inl, inr, Option, none, some, List, [], ◌∷◌,
  ◌++◌, arith, Option-cases, length, All,
}
use claw_crony.Base.Json.{Json}
use claw_crony.Executor.Response.{AgentResponse}
use claw_crony.Executor.Files.{Rejection, validate_inbound_file_parts}
use claw_crony.Executor.Bridge.{
  Reply, Gateway, Call, dispatch_via_gateway_rpc, TaskState, BusEvent, recent_history, ticks, Setup,
  Request, pick_agent_id, state_of, execute, answered, threw, working, failed_files, published,
  finished,
}

abbrev IsWorking : List Json → BusEvent → Type 0
IsWorking history (published working h) = h ≡ history
IsWorking history _ = ⊥

abbrev IsTerminal : TaskState → Type 0
IsTerminal working = ⊥
IsTerminal _ = Unit

-- The course: the state `working` first, and only that until the one last state, the end behind it;
-- with the same history throughout.
pub record IsCourse (history : List Json) (last : TaskState) (events : List BusEvent) : Type 0 where
  pub before : List BusEvent
  pub shape :
      events ≡ published working history ∷ (before ++ (published last history ∷ finished ∷ []))
  pub quiet : All (IsWorking history) before
  pub terminal : IsTerminal last

ticks-working : (n : ℕ) (h : List Json) → All (IsWorking h) (ticks n (published working h))
ticks-working zero h = tt
ticks-working (suc n) h = (refl, ticks-working n h)

state_of-IsTerminal : (r : Reply AgentResponse) → IsTerminal (state_of r)
state_of-IsTerminal (threw message) = tt
state_of-IsTerminal (answered response) = tt

length-recent_history_le : (n : ℕ) (h : List Json) → length (recent_history n h) ≤ n
unfolding recent_history
length-recent_history_le n h = ground (arith, length-drop (length h - n) h)

rejected-IsCourse :
    (h : List Json) (last : TaskState)
    → IsTerminal last
    → IsCourse h last (published working h ∷ published last h ∷ finished ∷ [])
rejected-IsCourse h last t = record { before = []; shape = refl; quiet = tt; terminal = t }

dispatched-IsCourse :
    (h : List Json) (beats : ℕ) (r : Reply AgentResponse)
    → IsCourse h (state_of r) (
        published working h
        ∷ (ticks beats (published working h) ++ (published (state_of r) h ∷ finished ∷ [])))
dispatched-IsCourse h beats r = record {
  before = ticks beats (published working h);
  shape = refl;
  quiet = ticks-working beats h;
  terminal = state_of-IsTerminal r;
}

-- Whatever the gateway answers and however long it takes, a task that is executed comes to one last state,
-- with the end behind it and only the state `working` before it, each with the same history of
-- at most 200 messages. A message whose file parts are rejected makes no call of the gateway.
pub execute-IsCourse :
    (setup : Setup) (gateway : Gateway) (beats : ℕ) (request : Request)
    → ((last : TaskState) × IsCourse
          (recent_history 200 request.history)
          last
          ((execute setup gateway beats request).0))
      × (length (recent_history 200 request.history) ≤ 200)
      × ((validate_inbound_file_parts setup.platform setup.security request.message ≡ none)
          ⊎ ((execute setup gateway beats request).1 ≡ []))
unfolding execute
execute-IsCourse setup gateway beats request = (
  course (Option-cases verdict),
  length-recent_history_le 200 request.history,
  calls (Option-cases verdict),
)
  where
    h : List Json
    h = recent_history 200 request.history

    verdict : Option Rejection
    verdict = validate_inbound_file_parts setup.platform setup.security request.message

    outcome : Reply AgentResponse × List Call
    outcome =
        dispatch_via_gateway_rpc setup.stringify gateway
          (pick_agent_id request.agent_id setup.default_agent_id) request.message request.context_id

    course :
        ((verdict ≡ none) ⊎ ((r : Rejection) × (verdict ≡ some r)))
        → (last : TaskState) × IsCourse h last ((execute setup gateway beats request).0)
    course (inl e) =
        (state_of (outcome.0), rw (execute, e) (dispatched-IsCourse h beats (outcome.0)))
    course (inr (r, e)) =
        (failed_files r, rw (execute, e) (rejected-IsCourse h (failed_files r) tt))

    calls :
        ((verdict ≡ none) ⊎ ((r : Rejection) × (verdict ≡ some r)))
        → (verdict ≡ none) ⊎ ((execute setup gateway beats request).1 ≡ [])
    calls (inl e) = inl e
    calls (inr (r, e)) = inr (rw (execute, e) refl)
