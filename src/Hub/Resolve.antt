-- ===== src/Hub/Resolve.antt =====
-- `summarizeHubAgent`, `selectLocalAndPeerAgents` and `buildGenericMatchResolution` of src/hub-resolve.ts.
use claw_crony.Base.{ℕ, Bool, false, Option, none, some, List, [], ◌++◌, ◌==◌, if◌then◌else◌}
use claw_crony.Base.Text.{Text}
use claw_crony.Base.Json.{Fields}
use claw_crony.Hub.Agents.{
  Endpoint, KeyRef, Descriptor, HubAgent, Match, requester_role, provider_role, observer_role,
}
use claw_crony.Hub.Values.{
  dedupe_strings, descriptor_protocols, text_value, capability_value, metadata_value, or_else,
  model_display_name, fallback_encryption_key, fallback_signing_key,
}

-- `ResolvedHubAgent`
pub record ResolvedAgent : Type 0 where
  pub agent_id : ℕ
  pub name : Text
  pub description : Option Text
  pub skills : List Text
  pub status : Option Text
  pub presence_status : Option Text
  pub client_id : Option Text
  pub client_version : Option Text
  pub official : Bool
  pub verified : Bool
  pub operator_name : Option Text
  pub source_repo_url : Option Text
  pub documentation_url : Option Text
  pub privacy_policy_url : Option Text
  pub risk_boundary : Option Text
  pub agent_type : Option Text
  pub domain : Option Text
  pub model_provider : Option Text
  pub model_name : Option Text
  pub model_display_name : Option Text
  pub model_usage : Option Text
  pub data_retention : Option Text
  pub capability_manifest : Option Fields
  pub encryption : Option KeyRef
  pub signing : Option KeyRef
  pub connection_protocols : List Text
  pub endpoints : List Endpoint
  pub connection_descriptor : Option Descriptor
  pub last_seen_at : Option Text

abbrev pub endpoints_of : Option Descriptor → List Endpoint
endpoints_of none = []
endpoints_of (some d) = d.endpoints

abbrev pub encryption_of : Option Descriptor → Option KeyRef
encryption_of none = none
encryption_of (some d) = d.encryption

abbrev pub signing_of : Option Descriptor → Option KeyRef
signing_of none = none
signing_of (some d) = d.signing

unfoldable pub summarize : HubAgent → ResolvedAgent
unfolding dedupe_strings descriptor_protocols text_value capability_value metadata_value
    model_display_name fallback_encryption_key fallback_signing_key
summarize agent =
    let manifest = agent.capability_manifest in
    let provider =
      or_else (text_value agent.model_provider) (metadata_value manifest "modelProvider") in
    let model = or_else (text_value agent.model_name) (metadata_value manifest "modelName") in
    record {
      agent_id = agent.id;
      name = agent.name;
      description = agent.description;
      skills = agent.skills;
      status = agent.status;
      presence_status = agent.presence_status;
      client_id = agent.client_id;
      client_version = agent.client_version;
      official = agent.official;
      verified = agent.verified;
      operator_name = agent.operator_name;
      source_repo_url = agent.source_repo_url;
      documentation_url = agent.documentation_url;
      privacy_policy_url = agent.privacy_policy_url;
      risk_boundary =
          or_else (text_value agent.risk_boundary) (capability_value manifest "riskBoundary");
      agent_type = or_else (text_value agent.agent_type) (metadata_value manifest "agentType");
      domain = or_else (text_value agent.domain) (metadata_value manifest "domain");
      model_provider = provider;
      model_name = model;
      model_display_name =
          or_else (text_value agent.model_display_name) (model_display_name provider model);
      model_usage = or_else (text_value agent.model_usage) (metadata_value manifest "modelUsage");
      data_retention =
          or_else (text_value agent.data_retention) (metadata_value manifest "dataRetention");
      capability_manifest = manifest;
      encryption =
          or_else (encryption_of agent.connection_descriptor) (fallback_encryption_key agent);
      signing = or_else (signing_of agent.connection_descriptor) (fallback_signing_key agent);
      connection_protocols =
          dedupe_strings
            (agent.connection_protocols ++ descriptor_protocols agent.connection_descriptor);
      endpoints = endpoints_of agent.connection_descriptor;
      connection_descriptor = agent.connection_descriptor;
      last_seen_at = agent.last_seen_at;
    }

unfoldable pub summarize_hub_agent : Option HubAgent → Option ResolvedAgent
unfolding summarize
summarize_hub_agent none = none
summarize_hub_agent (some agent) = some (summarize agent)

pub record Selected : Type 0 where
  pub local : Option HubAgent
  pub peer : Option HubAgent

-- `agent?.id === localAgentId`
abbrev pub is_agent : Option HubAgent → ℕ → Bool
is_agent none i = false
is_agent (some agent) i = agent.id == i

unfoldable pub select_by_role : Match → Selected
select_by_role m = elim m.caller_role [
  | some requester_role ↦ record { local = m.requester; peer = m.provider }
  | some provider_role ↦ record { local = m.provider; peer = m.requester }
  | some observer_role ↦ record { local = none; peer = or_else m.provider m.requester }
  | none ↦ record { local = none; peer = or_else m.provider m.requester }
]

unfoldable pub select_local_and_peer_agents : Match → ℕ → Selected
unfolding select_by_role
select_local_and_peer_agents m local_agent_id =
    if is_agent m.requester local_agent_id
    then record { local = m.requester; peer = m.provider }
    else if is_agent m.provider local_agent_id
    then record { local = m.provider; peer = m.requester }
    else select_by_role m

-- `GenericMatchResolution`; a resolution of one agent has no match and no local agent.
pub record Resolution : Type 0 where
  pub local_agent_id : ℕ
  pub local : Option ResolvedAgent
  pub peer : Option ResolvedAgent
  pub found : Option Match

unfoldable pub build_generic_match_resolution : Match → ℕ → Resolution
unfolding select_local_and_peer_agents summarize_hub_agent
build_generic_match_resolution m local_agent_id =
    let selected = select_local_and_peer_agents m local_agent_id in
    record {
      local_agent_id = local_agent_id;
      local = summarize_hub_agent selected.local;
      peer = summarize_hub_agent selected.peer;
      found = some m;
    }

unfoldable pub build_agent_resolution : HubAgent → ℕ → Resolution
unfolding summarize_hub_agent
build_agent_resolution agent local_agent_id = record {
  local_agent_id = local_agent_id;
  local = none;
  peer = summarize_hub_agent (some agent);
  found = none;
}
