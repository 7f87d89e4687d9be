-- ===== src/Official/Ready.antt =====
-- src/official-agent-call.ts: what is checked before a call of an official agent goes out.
use claw_crony.Base.{
  ◌≤◌, ◌≡◌, refl, sym, ap, ◌∙◌, ◌↔◌, Bool, true, false, not, ◌||◌, Option, none, some, List, [],
  ◌∷◌, arith, ltb, ◌==◌, if◌then◌else◌, length,
}
use claw_crony.Base.Text.{Text, codes, same, same_iff, trim}
use claw_crony.Hub.Agents.{Endpoint, HubAgent}
use claw_crony.Official.Findings.{Patterns, Finding, normal_entries, detect_sensitive}
use claw_crony.Official.Clean.{IsClean, detect_sensitive_iff}
use claw_crony.Official.Action.{
  Action, find_action, forbidden_list, select_http_endpoint, endpoints_of,
}
use claw_crony.Official.Named.{IsDeclared, find_action_iff}
use claw_crony.Official.Selected.{IsChosen, select_http_endpoint_iff}
use claw_crony.Official.Url.{Web, Built, build_action_url, built, thrown}
use claw_crony.Official.Prepare.{
  Input, Prepared, Refusal, Preparation, max_input_bytes, input_value, needs_auth, query_for,
  request_for, finish, prepare_checked, prepare_on, prepare_action,
  prepare_official_agent_action_call, agent_not_official_verified, action_name_required,
  action_not_low_risk, official_endpoint_auth_unsupported, input_too_large, ready, refused,
}

-- All that has to hold for a call of the action at the endpoint, with the URL that results.
pub record IsAllowed (web : Web) (patterns : Patterns) (agent : HubAgent) (input : Input)
    (action : Action) (endpoint : Endpoint) (url : Text) : Type 0 where
  pub is_official : agent.official ≡ true
  pub is_verified : agent.verified ≡ true
  pub is_named : 1 ≤ length (trim input.action_name)
  pub is_declared : IsDeclared agent (trim input.action_name) action
  pub is_low_risk : action.risk_level ≡ codes "low"
  pub is_selected : IsChosen (endpoints_of agent) endpoint
  pub is_public : needs_auth endpoint.auth ≡ false
  pub is_clean :
      IsClean patterns (normal_entries (forbidden_list agent "inputPolicy")) (input_value input)
  pub is_small : web.byte_length (web.stringify (input_value input)) ≤ 32768
  pub is_built :
      build_action_url web endpoint.url action.path (query_for web patterns agent input action)
      ≡ built url

guard-ready :
    (b : Bool) (r : Refusal) (p : Preparation) (request : Prepared)
    → (if b then refused r else p) ≡ ready request
    → (b ≡ false) × (p ≡ ready request)
guard-ready true r p request h = absurd (cc)
guard-ready false r p request h = (refl, h)

module _ (web : Web) (patterns : Patterns) (agent : HubAgent) (input : Input) where
  finish-ready :
      (action : Action) (b : Built) (request : Prepared)
      → finish web patterns agent input action b ≡ ready request
      → (url : Text) × (b ≡ built url) × (request ≡ request_for web patterns agent input action url)
  unfolding finish
  finish-ready action (built url) request h = (url, refl, cc)
  finish-ready action (thrown e) request h = absurd (cc)

  prepare_checked-ready :
      (action : Action) (endpoint : Endpoint) (fs : List Finding) (request : Prepared)
      → prepare_checked web patterns agent input action endpoint fs ≡ ready request
      → (fs ≡ [])
        × (ltb max_input_bytes (web.byte_length (web.stringify (input_value input))) ≡ false)
        × (finish web patterns agent input action (
              build_action_url web endpoint.url action.path
                (query_for web patterns agent input action))
            ≡ ready request)
  unfolding prepare_checked
  prepare_checked-ready action endpoint (f ∷ fs) request h = absurd (cc)
  prepare_checked-ready action endpoint [] request h =
      let (small, e) = guard-ready _ input_too_large _ request h in (refl, small, e)

  prepare_on-ready :
      (action : Action) (o : Option Endpoint) (request : Prepared)
      → prepare_on web patterns agent input action o ≡ ready request
      → (endpoint : Endpoint) × (o ≡ some endpoint)
        × (needs_auth endpoint.auth ≡ false)
        × (prepare_checked web patterns agent input action endpoint
              (detect_sensitive patterns (forbidden_list agent "inputPolicy") (input_value input))
            ≡ ready request)
  unfolding prepare_on
  prepare_on-ready action none request h = absurd (cc)
  prepare_on-ready action (some endpoint) request h =
      let (a, e) = guard-ready _ official_endpoint_auth_unsupported _ request h in
      (endpoint, refl, a, e)

  prepare_action-ready :
      (o : Option Action) (request : Prepared)
      → prepare_action web patterns agent input o ≡ ready request
      → (action : Action) × (o ≡ some action)
        × (same action.risk_level (codes "low") ≡ true)
        × (prepare_on web patterns agent input action (select_http_endpoint agent) ≡ ready request)
  unfolding prepare_action
  prepare_action-ready none request h = absurd (cc)
  prepare_action-ready (some action) request h =
      let (a, e) =
        guard-ready (not (same action.risk_level (codes "low")))
          (action_not_low_risk (trim input.action_name)) _ request h in
      (action, refl, ground arith, e)

  prepare-ready :
      (request : Prepared)
      → prepare_official_agent_action_call web patterns agent input ≡ ready request
      → (agent.official ≡ true)
        × (agent.verified ≡ true)
        × (1 ≤ length (trim input.action_name))
        × (prepare_action web patterns agent input (find_action agent (trim input.action_name))
            ≡ ready request)
  unfolding prepare_official_agent_action_call
  prepare-ready request h =
      let (a, e) =
        guard-ready (not agent.official || not agent.verified) agent_not_official_verified _ request
          h in
      let (b, f) =
        guard-ready (length (trim input.action_name) == 0) action_name_required _ request e in
      (ground arith, ground arith, ground arith, f)

  ready-IsAllowed :
      (request : Prepared)
      → prepare_official_agent_action_call web patterns agent input ≡ ready request
      → (action : Action) × (endpoint : Endpoint) × (url : Text) × IsAllowed web patterns agent
          input action endpoint url
        × (request ≡ request_for web patterns agent input action url)
  ready-IsAllowed request h =
      let (o, v, n, e0) = prepare-ready request h in
      let (action, d, low, e1) = prepare_action-ready _ request e0 in
      let (endpoint, s, a, e2) = prepare_on-ready action _ request e1 in
      let (clean, small, e3) = prepare_checked-ready action endpoint _ request e2 in
      let (url, b, r) = finish-ready action _ request e3 in
      (
        action,
        endpoint,
        url,
        record {
          is_official = o;
          is_verified = v;
          is_named = n;
          is_declared = (find_action_iff agent (trim input.action_name) action).0 d;
          is_low_risk = (same_iff action.risk_level (codes "low")).0 low;
          is_selected = (select_http_endpoint_iff agent endpoint).0 s;
          is_public = a;
          is_clean =
              (detect_sensitive_iff patterns (forbidden_list agent "inputPolicy")
                  (input_value input)).0
                clean;
          is_small = ground arith;
          is_built = b;
        },
        r,
      )

  IsAllowed-ready :
      (action : Action) (endpoint : Endpoint) (url : Text)
      → IsAllowed web patterns agent input action endpoint url
      → prepare_official_agent_action_call web patterns agent input
        ≡ ready (request_for web patterns agent input action url)
  unfolding prepare_official_agent_action_call prepare_action prepare_on prepare_checked finish
  IsAllowed-ready action endpoint url ok =
      let named : (length (trim input.action_name) == 0) ≡ false =
        (let n = ok.is_named in ground arith) in
      let declared = (find_action_iff agent (trim input.action_name) action).1 ok.is_declared in
      let selected = (select_http_endpoint_iff agent endpoint).1 ok.is_selected in
      let low = (same_iff action.risk_level (codes "low")).1 ok.is_low_risk in
      let clean =
        (detect_sensitive_iff patterns (forbidden_list agent "inputPolicy") (input_value input)).1
          ok.is_clean in
      let small : ltb max_input_bytes (web.byte_length (web.stringify (input_value input)))
          ≡ false =
        (let n = ok.is_small in ground arith) in
      rw
        (
          ok.is_official, ok.is_verified, named, declared, low, selected, ok.is_public, clean,
          small, ok.is_built,
        )
        refl

  -- A call of an official agent is ready exactly when the agent is official and verified, the action is the first in its manifest that is
  -- declared by the given name, in letters of any case, and it is declared with the risk level `low`, the endpoint is the first of the lowest priority number among the
  -- agent's HTTP endpoints and asks for no authentication, the input is clean, at every depth, for the agent's forbidden list, its text has 32 KiB at most, and the
  -- URL can be built from that endpoint and that action's path. The request is the one of that action and that URL.
  pub prepare_official_agent_action_call-IsAllowed :
      (request : Prepared)
      → (prepare_official_agent_action_call web patterns agent input ≡ ready request) ↔ (
          (action : Action) × (endpoint : Endpoint) × (url : Text) × IsAllowed web patterns agent
            input action endpoint url
          × (request ≡ request_for web patterns agent input action url))
  prepare_official_agent_action_call-IsAllowed request = (
    ready-IsAllowed request,
    λ (action, endpoint, url, ok, r). IsAllowed-ready action endpoint url ok ∙ ap ready (sym r),
  )
