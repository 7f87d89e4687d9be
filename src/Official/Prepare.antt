-- ===== src/Official/Prepare.antt =====
-- `serializeBody` and `prepareOfficialAgentActionCall` of src/official-agent-call.ts.
use claw_crony.Base.{
  ℕ, ◌*◌, Bool, false, not, ◌&&◌, ◌||◌, Option, none, some, List, [], ◌∷◌, ltb, ◌==◌, if◌then◌else◌,
  length,
}
use claw_crony.Base.Text.{Text, codes, same, lower, trim}
use claw_crony.Base.Json.{Json, Fields, null, obj, end, field}
use claw_crony.Hub.Agents.{Endpoint, HubAgent}
use claw_crony.Hub.Resolve.{ResolvedAgent, summarize}
use claw_crony.Official.Findings.{Patterns, Finding, detect_sensitive}
use claw_crony.Official.Action.{Action, find_action, forbidden_list, select_http_endpoint}
use claw_crony.Official.Url.{Web, UrlError, Built, build_action_url, built, thrown}

module _ (web : Web) where
  unfoldable pub serialize_body : Text → Option Json → Option Text
  unfolding same
  serialize_body method body =
      if same method (codes "GET") then none else some (web.stringify (body_or_empty body))
    where
      body_or_empty : Option Json → Json
      body_or_empty none = obj end
      body_or_empty (some null) = obj end
      body_or_empty (some v) = v

-- The fields of `OfficialAgentCallInput` that the preparation reads.
pub record Input : Type 0 where
  pub action_name : Text
  pub body : Option Json
  pub query : Option Fields

-- `PreparedOfficialAgentCall`
pub record Prepared : Type 0 where
  pub agent : ResolvedAgent
  pub action_name : Text
  pub method : Text
  pub url : Text
  pub body_text : Option Text
  pub headers : List (Text × Text)

-- The `error` of a refusal.
pub data Refusal : Type 0 where
  agent_not_official_verified : Refusal
  action_name_required : Refusal
  action_not_declared : Text → Refusal
  action_not_low_risk : Text → Refusal
  official_http_endpoint_missing : Refusal
  official_endpoint_auth_unsupported : Refusal
  sensitive_input_blocked : List Finding → Refusal
  input_too_large : Refusal
  official_endpoint_invalid : UrlError → Refusal

pub data Preparation : Type 0 where
  ready : Prepared → Preparation
  refused : Refusal → Preparation

abbrev pub max_input_bytes : ℕ
max_input_bytes = 32 * 1024

abbrev pub json_or_null : Option Json → Json
json_or_null none = null
json_or_null (some v) = v

abbrev pub query_or_null : Option Fields → Json
query_or_null none = null
query_or_null (some fs) = obj fs

-- `{ body, query }`
abbrev pub input_value : Input → Json
input_value input = obj (
    field (codes "body") (json_or_null input.body)
      (field (codes "query") (query_or_null input.query) end))

-- `endpoint.auth && endpoint.auth.trim().toLowerCase() !== "none"`
unfoldable pub needs_auth : Option Text → Bool
unfolding same lower trim
needs_auth none = false
needs_auth (some auth) = ltb 0 (length auth) && not (same (lower (trim auth)) (codes "none"))

module _ (web : Web) (patterns : Patterns) (agent : HubAgent) (input : Input) where
  abbrev pub query_for : Action → Option Fields
  query_for action = if same action.method (codes "GET") then input.query else none

  unfoldable pub request_for : Action → Text → Prepared
  unfolding same serialize_body summarize
  request_for action url = record {
    agent = summarize agent;
    action_name = action.name;
    method = action.method;
    url = url;
    body_text = serialize_body web action.method input.body;
    headers =
        if same action.method (codes "POST")
        then (codes "Content-Type", codes "application/json") ∷ []
        else [];
  }

  unfoldable pub finish : Action → Built → Preparation
  unfolding request_for
  finish action (thrown error) = refused (official_endpoint_invalid error)
  finish action (built url) = ready (request_for action url)

  unfoldable pub prepare_checked : Action → Endpoint → List Finding → Preparation
  unfolding same finish build_action_url
  prepare_checked action endpoint (f ∷ fs) = refused (sensitive_input_blocked (f ∷ fs))
  prepare_checked action endpoint [] =
      if ltb max_input_bytes (web.byte_length (web.stringify (input_value input)))
      then refused input_too_large
      else finish action (build_action_url web endpoint.url action.path (query_for action))

  unfoldable pub prepare_on : Action → Option Endpoint → Preparation
  unfolding needs_auth prepare_checked detect_sensitive forbidden_list
  prepare_on action none = refused official_http_endpoint_missing
  prepare_on action (some endpoint) =
      if needs_auth endpoint.auth
      then refused official_endpoint_auth_unsupported
      else prepare_checked action endpoint
          (detect_sensitive patterns (forbidden_list agent "inputPolicy") (input_value input))

  unfoldable pub prepare_action : Option Action → Preparation
  unfolding same prepare_on select_http_endpoint trim
  prepare_action none = refused (action_not_declared (trim input.action_name))
  prepare_action (some action) =
      if not (same action.risk_level (codes "low"))
      then refused (action_not_low_risk (trim input.action_name))
      else prepare_on action (select_http_endpoint agent)

  unfoldable pub prepare_official_agent_action_call : Preparation
  unfolding trim prepare_action find_action
  prepare_official_agent_action_call =
      if not agent.official || not agent.verified
      then refused agent_not_official_verified
      else if length (trim input.action_name) == 0
      then refused action_name_required
      else prepare_action (find_action agent (trim input.action_name))
