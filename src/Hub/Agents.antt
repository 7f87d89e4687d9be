-- ===== src/Hub/Agents.antt =====
-- The records of src/hub-match.ts and src/types.ts that src/hub-resolve.ts reads; `none` is an absent field.
use claw_crony.Base.{ℕ, Bool, Option, List}
use claw_crony.Base.Text.{Text}
use claw_crony.Base.Json.{Fields}

-- `ConnectionEndpoint`
pub record Endpoint : Type 0 where
  pub protocol : Text
  pub transport : Text
  pub url : Text
  pub auth : Option Text
  pub metadata : Option Fields

-- `ConnectionKeyRef`
pub record KeyRef : Type 0 where
  pub kind : Text
  pub public_key : Text
  pub key_version : Option ℕ
  pub algorithm : Option Text
  pub status : Option Text

-- The fields of `ConnectionDescriptor` that are read.
pub record Descriptor : Type 0 where
  pub signing : Option KeyRef
  pub encryption : Option KeyRef
  pub endpoints : List Endpoint
  pub protocols : List Text

-- `HubAgentDto`, without the fields that nothing of the file reads
pub record HubAgent : Type 0 where
  pub id : ℕ
  pub name : Text
  pub description : Option Text
  pub skills : List Text
  pub status : Option Text
  pub client_id : Option Text
  pub public_key : Option Text
  pub key_version : Option ℕ
  pub signing_public_key : Option Text
  pub signing_key_version : Option ℕ
  pub signing_algorithm : Option Text
  pub signing_key_status : Option Text
  pub connection_descriptor : Option Descriptor
  pub connection_protocols : List Text
  pub official : Bool
  pub verified : Bool
  pub operator_name : Option Text
  pub source_repo_url : Option Text
  pub documentation_url : Option Text
  pub privacy_policy_url : Option Text
  pub risk_boundary : Option Text
  pub agent_type : Option Text
  pub domain : Option Text
  pub model_provider : Option Text
  pub model_name : Option Text
  pub model_display_name : Option Text
  pub model_usage : Option Text
  pub data_retention : Option Text
  pub capability_manifest : Option Fields
  pub presence_status : Option Text
  pub last_seen_at : Option Text
  pub client_version : Option Text

pub data Role : Type 0 where
  requester_role : Role
  provider_role : Role
  observer_role : Role

-- `HubMatchResult`, without the flags of the handshake
pub record Match : Type 0 where
  pub id : ℕ
  pub request_id : Option ℕ
  pub status : Text
  pub requester : Option HubAgent
  pub provider : Option HubAgent
  pub caller_role : Option Role
