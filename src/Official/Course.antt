-- ===== src/Official/Course.antt =====
-- `truncateOutput`, `readResponse`, `resolveOfficialAgent` and `callOfficialAgentAction` of
-- src/official-agent-call.ts. The hub's client, the request itself and `JSON.parse` are arguments.
use claw_crony.Base.{
  ℕ, ◌*◌, Bool, true, false, ◌&&◌, Option, none, some, List, [], ◌∷◌, ◌++◌, ltb, leb, ◌==◌,
  if◌then◌else◌, length, take,
}
use claw_crony.Base.Text.{Text, codes, includes}
use claw_crony.Base.Json.{Json, str}
use claw_crony.FileSecurity.Numerals.{decimal_of}
use claw_crony.Hub.Agents.{HubAgent, Match}
use claw_crony.Hub.Resolve.{build_generic_match_resolution}
use claw_crony.Official.Findings.{Patterns, Finding, detect_sensitive}
use claw_crony.Official.Action.{forbidden_list}
use claw_crony.Official.Url.{Web}
use claw_crony.Official.Prepare.{
  Input, Prepared, Refusal, Preparation, prepare_official_agent_action_call, ready, refused,
}

-- What a promise comes to: a value, or the message of the error it is rejected with.
pub data Settled (A : Type 0) : Type 0 where
  resolved : A → Settled A
  failed : Text → Settled A

-- `HubMatchClient`
pub record Client : Type 0 where
  pub agent_id : ℕ
  pub get_agent : ℕ → Settled HubAgent
  pub find_agent_by_client_id : Text → Settled (Option HubAgent)
  pub create_match : List Text → Option Text → Bool → Settled Match

-- `OfficialAgentCallInput`
pub record CallInput : Type 0 where
  pub agent_id : Option ℕ
  pub client_id : Option Text
  pub skills : List Text
  pub description : Option Text
  pub prefer_official : Option Bool
  pub input : Input

pub record Target : Type 0 where
  pub agent : HubAgent
  pub match_id : Option ℕ

abbrev pub target_of : Option ℕ → Settled HubAgent → Settled Target
target_of match_id (resolved agent) = resolved (record { agent = agent; match_id = match_id })
target_of match_id (failed message) = failed message

abbrev pub true_unless : Option Bool → Bool
true_unless none = true
true_unless (some b) = b

-- `!peerAgentId` holds for 0 too.
unfoldable pub peer_of_match : Client → Match → Settled Target
unfolding build_generic_match_resolution
peer_of_match client m = elim (build_generic_match_resolution m client.agent_id).peer [
  | none ↦ failed (codes "Hub match did not resolve a peer official agent.")
  | some peer ↦
      if peer.agent_id == 0
      then failed (codes "Hub match did not resolve a peer official agent.")
      else target_of (some m.id) (client.get_agent peer.agent_id)
]

unfoldable pub target_of_match : Client → Settled Match → Settled Target
unfolding peer_of_match
target_of_match client (failed message) = failed message
target_of_match client (resolved m) = peer_of_match client m

unfoldable pub target_of_client : Text → Settled (Option HubAgent) → Settled Target
target_of_client client_id (failed message) = failed message
target_of_client client_id (resolved none) =
    failed (codes "No Hub agent found for clientId=" ++ client_id)
target_of_client client_id (resolved (some agent)) = target_of none (resolved agent)

unfoldable pub resolve_by_skills : Client → CallInput → Settled Target
unfolding target_of_match
resolve_by_skills client call =
    if ltb 0 (length call.skills)
    then target_of_match client
        (client.create_match call.skills call.description (true_unless call.prefer_official))
    else failed (codes "Provide agentId, clientId, or skills to call an official agent.")

unfoldable pub resolve_by_client : Client → CallInput → Option Text → Settled Target
unfolding resolve_by_skills target_of_client
resolve_by_client client call (some (c ∷ t)) =
    target_of_client (c ∷ t) (client.find_agent_by_client_id (c ∷ t))
resolve_by_client client call _ = resolve_by_skills client call

unfoldable pub resolve_official_agent : Client → CallInput → Settled Target
unfolding resolve_by_client
resolve_official_agent client call = elim call.agent_id [
  | some id ↦ target_of none (client.get_agent id)
  | none ↦ resolve_by_client client call call.client_id
]

-- `Response`, with `response.ok` for a status of 200 to 299
pub record Response : Type 0 where
  pub status : ℕ
  pub content_type : Text
  pub text : Text

abbrev pub max_output_chars : ℕ
max_output_chars = 64 * 1024

unfoldable pub truncate_output : Text → Text
truncate_output value =
    if leb (length value) max_output_chars
    then value
    else take max_output_chars value ++ codes "...[truncated]"

abbrev pub json_or_text : Option Json → Text → Json
json_or_text none text = str text
json_or_text (some v) text = v

unfoldable pub read_response : (Text → Option Json) → Response → Json
unfolding truncate_output includes
read_response parse res =
    let text = truncate_output res.text in
    if includes res.content_type (codes "application/json")
    then json_or_text (parse text) text
    else str text

-- The `detail` of the entry in the history.
pub data Detail : Type 0 where
  refused_for : Refusal → Detail
  sensitive_output : List Finding → Text → Detail
  completed : Text → Text → ℕ → Detail
  reason : Text → Detail

pub record Entry : Type 0 where
  pub success : Bool
  pub match_id : Option ℕ
  pub peer : Option Text
  pub detail : Detail

-- What the tool shows.
pub data Answer : Type 0 where
  answer_refused : Refusal → Answer
  answer_blocked : List Finding → Answer
  answer_error : Text → Answer
  answer_response : Json → Answer

-- A call: its answer, the entries of the history, and the requests that it made.
pub record Outcome : Type 0 where
  pub answer : Answer
  pub entries : List Entry
  pub requests : List Prepared

abbrev pub is_ok : Answer → Bool
is_ok (answer_response v) = true
is_ok _ = false

-- The functions that the course of a call takes from elsewhere.
pub record World : Type 0 where
  pub web : Web
  pub patterns : Patterns
  pub parse : Text → Option Json
  pub fetch : Prepared → Settled Response
  pub log_url : Text → Text

-- The message of the error for a status that is not a success.
unfoldable pub http_error : World → ℕ → Json → Text
unfolding decimal_of
http_error world status body =
    codes "Official agent returned HTTP "
    ++ (decimal_of status ++ (codes ": " ++ world.web.stringify body))

module _ (world : World) (call : CallInput) where
  abbrev pub entry : Bool → Option ℕ → Option Text → Detail → List Entry
  entry success match_id peer detail =
      record { success = success; match_id = match_id; peer = peer; detail = detail } ∷ []

  unfoldable pub finish_call : Target → Prepared → ℕ → Json → List Finding → Outcome
  finish_call target request status body (f ∷ fs) = record {
    answer = answer_blocked (f ∷ fs);
    entries =
        entry false target.match_id (some target.agent.name)
          (sensitive_output (f ∷ fs) (world.log_url request.url));
    requests = request ∷ [];
  }
  finish_call target request status body [] = record {
    answer = answer_response body;
    entries =
        entry true target.match_id (some target.agent.name)
          (completed request.method (world.log_url request.url) status);
    requests = request ∷ [];
  }

  -- The `catch` behind a request that was made.
  unfoldable pub caught : Target → Prepared → Text → Outcome
  caught target request message = record {
    answer = answer_error message;
    entries = entry false target.match_id (some target.agent.name) (reason message);
    requests = request ∷ [];
  }

  unfoldable pub receive : Target → Prepared → Settled Response → Outcome
  unfolding caught finish_call read_response http_error detect_sensitive forbidden_list
  receive target request (failed message) = caught target request message
  receive target request (resolved res) =
      let body = read_response world.parse res in
      if leb 200 res.status && leb res.status 299
      then finish_call target request res.status body
          (detect_sensitive world.patterns (forbidden_list target.agent "outputPolicy") body)
      else caught target request (http_error world res.status body)

  unfoldable pub carry_out : Target → Preparation → Outcome
  unfolding receive
  carry_out target (refused why) = record {
    answer = answer_refused why;
    entries = entry false target.match_id (some target.agent.name) (refused_for why);
    requests = [];
  }
  carry_out target (ready request) = receive target request (world.fetch request)

  unfoldable pub on_target : Settled Target → Outcome
  unfolding carry_out prepare_official_agent_action_call
  on_target (failed message) = record {
    answer = answer_error message;
    entries = entry false none none (reason message);
    requests = [];
  }
  on_target (resolved target) =
      carry_out target
        (prepare_official_agent_action_call world.web world.patterns target.agent call.input)

  unfoldable pub call_official_agent_action : Settled Client → Outcome
  unfolding on_target resolve_official_agent
  call_official_agent_action (failed message) = on_target (failed message)
  call_official_agent_action (resolved client) = on_target (resolve_official_agent client call)
