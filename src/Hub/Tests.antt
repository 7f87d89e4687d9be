-- ===== src/Hub/Tests.antt =====
-- Runs of src/hub-resolve.ts.
use claw_crony.Base.{
  ◌++◌, if◌then◌else◌, ◌==◌, ℕ, ◌≡◌, refl, true, Option, none, some, List, [], ◌∷◌,
}
use claw_crony.Base.Text.{Text, codes, same, lower, trim}
use claw_crony.Base.Json.{Fields, get, str, obj, end, field}
use claw_crony.Executor.Fragments.{non_empty}
use claw_crony.Hub.Agents.{Descriptor, HubAgent, Match}
use claw_crony.Hub.Values.{
  dedupe_strings, string_of, string_value, text_value, value_in, metadata_value, model_display_name,
  fallback_encryption_key,
}
use claw_crony.Hub.Resolve.{summarize, build_generic_match_resolution}
use claw_crony.Hub.Registration.{
  Registration, registration_of, attempts_from, retry_with_backoff, normalize_transport,
  normalize_endpoint, endpoint_key, endpoints_after, dedupe_endpoints, Local, Remote,
  register_hub_user, finish_with, after_register, register, run_hub_registration, done, failed,
}
use claw_crony.Hub.Bound.{IsBound, run_hub_registration-IsBound}
use claw_crony.Official.Course.{resolved, failed}
use claw_crony.Hub.Discovery.{
  Target, resolve_hub_peer, unrecorded, by_target, by_match, by_agent, by_client, of_client,
}
use claw_crony.Hub.Discovery
use claw_crony.Hub.Entered.{IsEntered, Missed, resolve_hub_peer-IsEntered}
use claw_crony.Hub.Auth
use claw_crony.Hub.Auth.{get_hub_bearer_token}
use claw_crony.Hub.Peers.{IsAgent, IsNotAgent, build_generic_match_resolution-IsNotAgent}

abbrev pub agent_with : ℕ → Option Fields → Option Descriptor → HubAgent
agent_with id manifest descriptor = record {
  id = id;
  name = codes "Agent";
  description = none;
  skills = [];
  status = none;
  client_id = none;
  public_key = some (codes "k");
  key_version = none;
  signing_public_key = none;
  signing_key_version = none;
  signing_algorithm = none;
  signing_key_status = none;
  connection_descriptor = descriptor;
  connection_protocols = codes "A2A" ∷ [];
  official = true;
  verified = true;
  operator_name = none;
  source_repo_url = none;
  documentation_url = none;
  privacy_policy_url = none;
  risk_boundary = none;
  agent_type = none;
  domain = none;
  model_provider = some (codes " p ");
  model_name = none;
  model_display_name = none;
  model_usage = none;
  data_retention = none;
  capability_manifest = manifest;
  presence_status = none;
  last_seen_at = none;
  client_version = none;
}

abbrev metadata : Fields
metadata = field (codes "metadata") (obj (field (codes "modelName") (str (codes "m")) end)) end

abbrev one : HubAgent
one = agent_with 1 (some metadata) none

abbrev two : HubAgent
two = agent_with 2 none none

abbrev between : Match
between = record {
  id = 7;
  request_id = none;
  status = codes "accepted";
  requester = some one;
  provider = some two;
  caller_role = none;
}

model_shown : (summarize one).model_display_name ≡ some (codes "p / m")
unfolding summarize text_value metadata_value value_in string_value string_of model_display_name get
    same trim non_empty
model_shown = refl

default_version :
    fallback_encryption_key one
    ≡ some (record {
      kind = codes "X25519";
      public_key = codes "k";
      key_version = some 1;
      algorithm = none;
      status = none;
    })
unfolding fallback_encryption_key
default_version = refl

build_generic_match_resolution-IsNotAgent_example :
    IsNotAgent 1 ((build_generic_match_resolution between 1).peer)
    × (true ≡ true → IsAgent 1 ((build_generic_match_resolution between 1).local))
build_generic_match_resolution-IsNotAgent_example =
    build_generic_match_resolution-IsNotAgent between 1 refl

abbrev names : List Text
names = codes " A2A " ∷ codes "http" ∷ codes "a2a" ∷ codes " " ∷ []

dedupe_names : dedupe_strings names ≡ codes "a2a" ∷ codes "http" ∷ []
unfolding dedupe_strings same lower trim
dedupe_names = refl

abbrev local : Local
local = record {
  hub_url = codes "https://hub";
  client_id = codes "c";
  public_key = codes "k";
  signing_public_key = some (codes "s");
  descriptor = codes "{}";
  name = codes "me";
  has_password = true;
}

-- The second attempt to register succeeds.
abbrev remote : Remote
remote = record {
  confirm = failed none;
  register = λ i.
      if i == 1
      then done (record {
        id = 5;
        signing_public_key = some (codes "s");
        signing_algorithm = none;
        signing_key_status = some (codes "active");
      })
      else failed (some 503);
  lookup = done none;
  register_user = λ id i. done 409;
  can_write = true;
}

user_exists : (run_hub_registration local remote none).user ≡ some (done tt, [])
unfolding run_hub_registration after_register register finish_with retry_with_backoff attempts_from
    register_hub_user
user_exists = refl

waited_once : (retry_with_backoff remote.register 1000 10000 3).1 ≡ 1000 ∷ []
unfolding retry_with_backoff attempts_from
waited_once = refl

one_endpoint :
    dedupe_endpoints (
      record {
        protocol = codes " A2A";
        transport = codes "JSONRPC";
        url = codes "u ";
        auth = some (codes " ");
        metadata = some end;
      }
      ∷ record {
        protocol = codes "a2a";
        transport = codes "jsonrpc";
        url = codes "u";
        auth = none;
        metadata = none;
      }
      ∷ record {
        protocol = codes "";
        transport = codes "GRPC";
        url = codes "u";
        auth = none;
        metadata = none;
      }
      ∷ [])
    ≡ record {
      protocol = codes "a2a";
      transport = codes "jsonrpc";
      url = codes "u";
      auth = none;
      metadata = none;
    }
      ∷ []
unfolding dedupe_endpoints endpoints_after normalize_endpoint endpoint_key same lower trim
    normalize_transport
one_endpoint = refl

bound_to_five : (run_hub_registration local remote none).bound ≡ some (5, codes "me")
unfolding run_hub_registration register after_register finish_with retry_with_backoff attempts_from
bound_to_five = refl

run_hub_registration-IsBound_example :
    IsBound local remote none 5 ((run_hub_registration local remote none).saved)
run_hub_registration-IsBound_example =
    run_hub_registration-IsBound local remote none 5 (codes "me") bound_to_five

abbrev hub : Discovery.Client
hub = record {
  agent_id = 1;
  get_match = λ id. resolved between;
  get_agent = λ id. resolved two;
  find_agent_by_client_id = λ id. resolved none;
  create_match = λ skills. failed (codes "no match");
}

abbrev sought : Target
sought = record { agent_id = none; client_id = some (codes "x"); match_id = none; skills = [] }

not_entered : resolve_hub_peer (resolved hub) sought ≡ unrecorded "agent_not_found"
unfolding resolve_hub_peer by_target by_match by_agent by_client of_client
not_entered = refl

resolve_hub_peer-IsEntered_example :
    IsEntered
      (resolved hub)
      (Missed (resolved hub) sought (resolve_hub_peer (resolved hub) sought))
      (resolve_hub_peer (resolved hub) sought)
resolve_hub_peer-IsEntered_example = resolve_hub_peer-IsEntered (resolved hub) sought

abbrev identity : Auth.Identity
identity = record {
  signing_private_key = some (codes "p");
  signing_algorithm = some (codes "ed25519");
}

abbrev challenge : Auth.Challenge
challenge = record {
  challenge_id = codes "1";
  client_id = codes "c";
  agent_id = 5;
  algorithm = codes "ed25519";
  message = codes "m";
  supported = true;
}

-- The signature is the message behind the key.
abbrev authority : Auth.Hub
authority = record {
  challenge = λ id. resolved challenge;
  verify = λ proof. resolved (record {
    ok = true;
    agent_id = 5;
    client_id = codes "c";
    token = codes "t";
    token_type = codes "Bearer";
  });
  sign = λ key m. key ++ m;
}

abbrev proof_sent : Auth.Proof
proof_sent = record { client_id = codes "c"; challenge_id = codes "1"; signature = codes "pm" }

abbrev five : Registration
five = registration_of local 5

given_token :
    get_hub_bearer_token authority identity five
    ≡ record { answer = Auth.token (codes "t"); proofs = proof_sent ∷ [] }
unfolding get_hub_bearer_token Auth.answer_challenge Auth.sign_challenge Auth.prove
    Auth.check_verified same
given_token = refl
