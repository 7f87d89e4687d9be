-- ===== src/Hub/Registration.antt =====
-- `retryWithBackoff`, `normalizeTransport`, `normalizeEndpoint`, `dedupeEndpoints`,
-- `hasMatchingSigningKey` and `runHubRegistration` of src/hub-registration.ts. The answers of the hub are
-- arguments; a descriptor is kept as its JSON text.
use claw_crony.Base.{
  ℕ, zero, suc, ◌*◌, ◌^◌, min, String, Bool, true, false, ◌&&◌, ◌||◌, Option, none, some, List, [],
  ◌∷◌, ◌++◌, leb, ◌==◌, if◌then◌else◌, length, any,
}
use claw_crony.Base.Text.{Text, codes, same, lower, trim}
use claw_crony.Base.Json.{Fields, field}
use claw_crony.Hub.Agents.{Endpoint}

-- The value of a promise, or the error that it is rejected with: its `status`, where it has one.
pub data Outcome (A : Type 0) : Type 0 where
  done : A → Outcome A
  failed : Option ℕ → Outcome A

module _ {A : Type 0} (fn : ℕ → Outcome A) (base_delay_ms max_delay_ms : ℕ) where
  -- The attempts from the one with the number `attempt`, when `left` more are allowed, and the waits between them.
  unfoldable pub attempts_from : ℕ → ℕ → Outcome A × List ℕ
  attempts_from zero attempt = (fn attempt, [])
  attempts_from (suc left) attempt =
      let rest = attempts_from left (suc attempt) in
      elim (fn attempt) [
        | done a ↦ (done a, [])
        | failed status ↦ (rest.0, min (base_delay_ms * 2 ^ attempt) max_delay_ms ∷ rest.1)
      ]

  unfoldable pub retry_with_backoff : ℕ → Outcome A × List ℕ
  unfolding attempts_from
  retry_with_backoff max_retries = attempts_from max_retries 0

unfoldable pub normalize_transport : Text → Text
unfolding same lower
normalize_transport t =
    if same t (codes "JSONRPC")
    then codes "jsonrpc"
    else if same t (codes "HTTP+JSON")
    then codes "http-json"
    else if same t (codes "GRPC")
    then codes "grpc"
    else lower t

abbrev non_blank : Option Text → Option Text
non_blank (some (c ∷ t)) = some (c ∷ t)
non_blank _ = none

abbrev trimmed : Option Text → Option Text
trimmed none = none
trimmed (some t) = some (trim t)

-- Metadata without a key counts as absent.
abbrev given_fields : Option Fields → Option Fields
given_fields (some (field k v fs)) = some (field k v fs)
given_fields _ = none

unfoldable pub normalize_endpoint : Endpoint → Option Endpoint
unfolding lower trim normalize_transport
normalize_endpoint e =
    let protocol = lower (trim e.protocol) in
    let transport = normalize_transport e.transport in
    let url = trim e.url in
    if length protocol == 0 || length transport == 0 || length url == 0
    then none
    else some (record {
      protocol = protocol;
      transport = transport;
      url = url;
      auth = non_blank (trimmed e.auth);
      metadata = given_fields e.metadata;
    })

unfoldable pub endpoint_key : Endpoint → Text
endpoint_key e = e.protocol ++ (b':' ∷ (e.transport ++ (b':' ∷ e.url)))

abbrev pub keep_new :
    List Text → Option Endpoint → List Endpoint → (Endpoint → List Endpoint) → List Endpoint
keep_new seen none others kept = others
keep_new seen (some e) others kept =
    if any (λ k. same k (endpoint_key e)) seen then others else kept e

unfoldable pub endpoints_after : List Text → List Endpoint → List Endpoint
unfolding normalize_endpoint endpoint_key same
endpoints_after seen [] = []
endpoints_after seen (e ∷ es) =
    let others = endpoints_after seen es in
    keep_new seen (normalize_endpoint e) others
      (λ n. n ∷ endpoints_after (endpoint_key n ∷ seen) es)

unfoldable pub dedupe_endpoints : List Endpoint → List Endpoint
unfolding endpoints_after
dedupe_endpoints es = endpoints_after [] es

-- The fields of the file's own `HubAgentDto` that are read.
pub record RemoteAgent : Type 0 where
  pub id : ℕ
  pub signing_public_key : Option Text
  pub signing_algorithm : Option Text
  pub signing_key_status : Option Text

-- `a === b` on texts that may be absent
abbrev pub same_option : Option Text → Option Text → Bool
same_option none none = true
same_option (some a) (some b) = same a b
same_option _ _ = false

-- `!value || value === expected`
abbrev pub absent_or : Option Text → String → Bool
absent_or none expected = true
absent_or (some []) expected = true
absent_or (some (c ∷ t)) expected = same (c ∷ t) (codes expected)

unfoldable pub has_matching_signing_key : RemoteAgent → Option Text → Bool
unfolding same
has_matching_signing_key agent (some (c ∷ key)) =
    same_option agent.signing_public_key (some (c ∷ key))
    && absent_or agent.signing_algorithm "ed25519"
    && absent_or agent.signing_key_status "active"
has_matching_signing_key agent _ = false

-- `IdentityData`, and what the file makes of the configuration
pub record Local : Type 0 where
  pub hub_url : Text
  pub client_id : Text
  pub public_key : Text
  pub signing_public_key : Option Text
  pub descriptor : Text
  pub name : Text
  pub has_password : Bool

-- `HubRegistrationData`
pub record Registration : Type 0 where
  pub hub_url : Text
  pub agent_id : ℕ
  pub client_id : Text
  pub public_key : Text
  pub signing_public_key : Option Text
  pub descriptor : Text
  pub name : Text

-- The answers of the hub: to the confirmation of what is stored, to each attempt to register, to the lookup after a
-- conflict, and the status of the answer to each attempt to make a user for the agent; and whether the
-- file can be written.
pub record Remote : Type 0 where
  pub confirm : Outcome (Option RemoteAgent)
  pub register : ℕ → Outcome RemoteAgent
  pub lookup : Outcome (Option RemoteAgent)
  pub register_user : ℕ → ℕ → Outcome ℕ
  pub can_write : Bool

unfoldable pub is_current : Local → Registration → Bool
unfolding same
is_current local r =
    same r.hub_url local.hub_url
    && same r.client_id local.client_id
    && same r.public_key local.public_key
    && same_option r.signing_public_key local.signing_public_key
    && same r.descriptor local.descriptor

unfoldable pub is_confirmed : Local → Registration → Outcome (Option RemoteAgent) → Bool
unfolding has_matching_signing_key
is_confirmed local r (done (some agent)) =
    agent.id == r.agent_id && has_matching_signing_key agent local.signing_public_key
is_confirmed local r _ = false

-- `registerHubUser`
unfoldable pub register_hub_user : Outcome ℕ → Outcome (Unit {0})
register_hub_user (failed status) = failed status
register_hub_user (done status) =
    if status == 409 || (leb 200 status && leb status 299) then done tt else failed none

-- The binding that is returned, the file that is written, and the attempts to make a user: the waits between them.
pub record Result : Type 0 where
  pub bound : Option (ℕ × Text)
  pub saved : Option Registration
  pub user : Option (Outcome (Unit {0}) × List ℕ)

abbrev pub registration_of : Local → ℕ → Registration
registration_of local id = record {
  hub_url = local.hub_url;
  agent_id = id;
  client_id = local.client_id;
  public_key = local.public_key;
  signing_public_key = local.signing_public_key;
  descriptor = local.descriptor;
  name = local.name;
}

-- The file that is written; a write that fails is caught.
abbrev pub written : Local → Remote → ℕ → Option Registration
written local remote id = if remote.can_write then some (registration_of local id) else none

module _ (local : Local) (remote : Remote) where
  unfoldable pub finish_with : Option (Outcome (Unit {0}) × List ℕ) → ℕ → Result
  finish_with user id = record {
    bound = some (id, local.name);
    saved = written local remote id;
    user = user;
  }

  abbrev pub nothing : Result
  nothing = record { bound = none; saved = none; user = none }

  unfoldable pub after_conflict : Outcome (Option RemoteAgent) → Result
  unfolding finish_with
  after_conflict (done (some agent)) = finish_with none agent.id
  after_conflict _ = nothing

  unfoldable pub after_register : Outcome RemoteAgent → Result
  unfolding finish_with after_conflict retry_with_backoff register_hub_user
  after_register (done agent) =
      finish_with
        (if local.has_password
          then some (
              retry_with_backoff (λ i. register_hub_user (remote.register_user agent.id i)) 1000
                10000 3)
          else none)
        agent.id
  after_register (failed none) = nothing
  after_register (failed (some status)) =
      if status == 409 then after_conflict remote.lookup else nothing

  unfoldable pub register : Result
  unfolding after_register retry_with_backoff
  register = after_register ((retry_with_backoff remote.register 1000 10000 3).0)

  unfoldable pub run_hub_registration : Option Registration → Result
  unfolding register is_current is_confirmed
  run_hub_registration none = register
  run_hub_registration (some r) =
      if is_current local r && is_confirmed local r remote.confirm
      then record { bound = some (r.agent_id, r.name); saved = none; user = none }
      else register
