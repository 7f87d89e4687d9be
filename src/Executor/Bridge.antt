-- ===== src/Executor/Bridge.antt =====
-- src/executor.ts: `dispatchViaGatewayRpc` and `execute`. What the gateway answers is an argument; the
-- heartbeats are the ticks of the timer while the agent works.
use claw_crony.Base.{
  ℕ, zero, suc, ◌-◌, Bool, true, Option, none, some, List, [], ◌∷◌, ◌++◌, ltb, if◌then◌else◌,
  length, drop,
}
use claw_crony.Base.Text.{Text, codes, same}
use claw_crony.Base.Json.{Json}
use claw_crony.FileSecurity.Uri.{Platform}
use claw_crony.Executor.Fragments.{as_string, extract_inbound_message_text}
use claw_crony.Executor.Response.{
  AgentResponse, get_in, extract_agent_response, extract_latest_assistant_reply, Part,
  build_response_parts,
}
use claw_crony.Executor.Files.{Security, Rejection, validate_inbound_file_parts}

-- A value, or the message of what is thrown.
pub data Reply {ℓ} (A : Type ℓ) : Type ℓ where
  answered : A → Reply A
  threw : Text → Reply A

-- The gateway: whether the connection is made, what the run of the agent gives for a session key and
-- a text, and what the history of a session is.
pub record Gateway : Type 0 where
  pub connects : Reply (Unit {0})
  pub agent : Text → Text → Reply Json
  pub history : Text → Reply Json

-- `agent:${agentId}:a2a:${contextId}`
unfoldable pub session_key : Text → Text → Text
session_key agent_id context_id = codes "agent:" ++ (agent_id ++ (codes ":a2a:" ++ context_id))

-- The calls that are made of the gateway, in order.
pub data Call : Type 0 where
  connects agent_run chat_history closes : Call

abbrev pub is_ok : Option Text → Bool
is_ok none = true
is_ok (some status) = same status (codes "ok")

module _ (stringify : Json → Text) where
  abbrev pub from_history : Reply Json → Reply AgentResponse
  from_history (threw message) = threw message
  from_history (answered payload) = elim (extract_latest_assistant_reply stringify payload) [
    | none ↦ threw (codes "No assistant response text returned by gateway")
    | some text ↦ answered (record { text = text; media_urls = [] })
  ]

  -- What is made of the final payload, and whether the history is asked for.
  unfoldable pub from_final : Gateway → Text → Json → Reply AgentResponse × List Call
  unfolding as_string extract_agent_response extract_latest_assistant_reply
  from_final gateway key payload =
      if is_ok (as_string (get_in (codes "status") (some payload)))
      then elim (extract_agent_response stringify payload) [
        | some response ↦ (answered response, [])
        | none ↦ (from_history (gateway.history key), chat_history ∷ [])
      ]
      else (
        elim (as_string (get_in (codes "summary") (some payload))) [
          | none ↦ threw (codes "Agent run did not complete")
          | some summary ↦ threw summary
        ],
        [],
      )

  abbrev pub after_agent : Gateway → Text → Reply Json → Reply AgentResponse × List Call
  after_agent gateway key (threw message) = (threw message, [])
  after_agent gateway key (answered payload) = from_final gateway key payload

  -- The connection is closed in the end, but not where it could not be made.
  unfoldable pub dispatch_via_gateway_rpc :
      Gateway → Text → Json → Text → Reply AgentResponse × List Call
  unfolding from_final session_key extract_inbound_message_text
  dispatch_via_gateway_rpc gateway agent_id message context_id = elim gateway.connects [
    | threw text ↦ (threw text, connects ∷ [])
    | answered u ↦
        let key = session_key agent_id context_id in
        let outcome =
          after_agent gateway key
            (gateway.agent key (extract_inbound_message_text stringify message)) in
        (outcome.0, connects ∷ agent_run ∷ (outcome.1 ++ (closes ∷ [])))
  ]

-- The state of a task that is published.
pub data TaskState : Type 0 where
  working : TaskState
  completed : List Part → TaskState
  failed_files : Rejection → TaskState
  failed_dispatch : Text → TaskState

-- What is told to the event bus: the state of the task with the history, and the end.
pub data BusEvent : Type 0 where
  published : TaskState → List Json → BusEvent
  finished : BusEvent

-- `rawHistory.slice(-MAX_HISTORY_MESSAGES)` where there are more
unfoldable pub recent_history : ℕ → List Json → List Json
recent_history limit history =
    if ltb limit (length history) then drop (length history - limit) history else history

abbrev pub ticks : ℕ → BusEvent → List BusEvent
ticks zero e = []
ticks (suc n) e = e ∷ ticks n e

-- What the executor is made with.
pub record Setup : Type 0 where
  pub platform : Platform
  pub security : Security
  pub stringify : Json → Text
  pub default_agent_id : Text

-- `requestContext`, with the agent id of the message.
pub record Request : Type 0 where
  pub agent_id : Text
  pub context_id : Text
  pub message : Json
  pub history : List Json

-- `explicit || fallbackAgentId`
unfoldable pub pick_agent_id : Text → Text → Text
pick_agent_id [] fallback = fallback
pick_agent_id (c ∷ explicit) fallback = c ∷ explicit

abbrev pub state_of : Reply AgentResponse → TaskState
state_of (threw message) = failed_dispatch message
state_of (answered response) = completed (build_response_parts response)

-- `execute`: the events of the bus, and the calls of the gateway. `beats` is the number of ticks
-- of the heartbeat before the dispatch ends.
unfoldable pub execute : Setup → Gateway → ℕ → Request → List BusEvent × List Call
unfolding recent_history validate_inbound_file_parts dispatch_via_gateway_rpc pick_agent_id
    build_response_parts
execute setup gateway beats request =
    let history = recent_history 200 request.history in
    elim (validate_inbound_file_parts setup.platform setup.security request.message) [
      | some rejection ↦ (
        published working history ∷ published (failed_files rejection) history ∷ finished ∷ [],
        [],
      )
      | none ↦
          let outcome =
            dispatch_via_gateway_rpc setup.stringify gateway
              (pick_agent_id request.agent_id setup.default_agent_id) request.message
              request.context_id in
          (
            published working history
                ∷ (ticks beats (published working history)
                    ++ (published (state_of (outcome.0)) history ∷ finished ∷ [])),
            outcome.1,
          )
    ]
