-- ===== src/Hub/Auth.antt =====
-- `requireSigningIdentity` and `getHubBearerToken` of src/hub-auth.ts. The answers of the Hub and the
-- signature are arguments; a registration is given.
use claw_crony.Base.{
  ℕ, ◌≡◌, Bool, true, not, ◌||◌, Option, some, List, [], ◌∷◌, ◌==◌, if◌then◌else◌, length,
}
use claw_crony.Base.Text.{Text, codes, same}
use claw_crony.Hub.Registration.{Registration, absent_or}
use claw_crony.Official.Course.{Settled, resolved, failed}

-- The fields of `IdentityData` that are read.
pub record Identity : Type 0 where
  pub signing_private_key : Option Text
  pub signing_algorithm : Option Text

-- `AuthChallengeResponse`
pub record Challenge : Type 0 where
  pub challenge_id : Text
  pub client_id : Text
  pub agent_id : ℕ
  pub algorithm : Text
  pub message : Text
  pub supported : Bool

-- `AuthVerifyResponse`
pub record Verified : Type 0 where
  pub ok : Bool
  pub agent_id : ℕ
  pub client_id : Text
  pub token : Text
  pub token_type : Text

-- The body of the second request; its `algorithm` is the constant ed25519.
pub record Proof : Type 0 where
  pub client_id : Text
  pub challenge_id : Text
  pub signature : Text

pub data Problem : Type 0 where
  no_signing_key unsupported_local_algorithm : Problem
  challenge_mismatch unsupported_algorithm : Problem
  no_bearer_token verification_mismatch : Problem
  request_failed : Text → Problem

pub data Token : Type 0 where
  token : Text → Token
  threw : Problem → Token

-- What a call comes to, and the proofs that it sends.
pub record Outcome : Type 0 where
  pub answer : Token
  pub proofs : List Proof

-- The answers to both requests, and the signature with a private key.
pub record Hub : Type 0 where
  pub challenge : Text → Settled Challenge
  pub verify : Proof → Settled Verified
  pub sign : Text → Text → Text

abbrev pub refused : Problem → Outcome
refused problem = record { answer = threw problem; proofs = [] }

unfoldable pub check_verified : Registration → Settled Verified → Token
unfolding same
check_verified reg (failed message) = threw (request_failed message)
check_verified reg (resolved v) =
    if not v.ok || not (same v.token_type (codes "Bearer")) || (length v.token == 0)
    then threw no_bearer_token
    else if not (same v.client_id reg.client_id) || not (v.agent_id == reg.agent_id)
    then threw verification_mismatch
    else token v.token

module _ (hub : Hub) (identity : Identity) (reg : Registration) where
  unfoldable pub prove : Challenge → Text → Outcome
  unfolding check_verified
  prove c key =
      let proof : Proof = record {
        client_id = reg.client_id;
        challenge_id = c.challenge_id;
        signature = hub.sign key c.message;
      } in
      record { answer = check_verified reg (hub.verify proof); proofs = proof ∷ [] }

  -- `requireSigningIdentity`, and the signature behind it
  unfoldable pub sign_challenge : Challenge → Option Text → Outcome
  unfolding same prove
  sign_challenge c (some (k ∷ key)) =
      if absent_or identity.signing_algorithm "ed25519"
      then prove c (k ∷ key)
      else refused unsupported_local_algorithm
  sign_challenge c _ = refused no_signing_key

  unfoldable pub answer_challenge : Settled Challenge → Outcome
  unfolding same sign_challenge
  answer_challenge (failed message) = refused (request_failed message)
  answer_challenge (resolved c) =
      if not (same c.client_id reg.client_id) || not (c.agent_id == reg.agent_id)
      then refused challenge_mismatch
      else if not (same c.algorithm (codes "ed25519")) || not c.supported
      then refused unsupported_algorithm
      else sign_challenge c identity.signing_private_key

  unfoldable pub get_hub_bearer_token : Outcome
  unfolding answer_challenge
  get_hub_bearer_token = answer_challenge (hub.challenge reg.client_id)

-- What has to hold for a challenge to be signed.
pub record IsOwn (identity : Identity) (reg : Registration) (c : Challenge) (key : Text)
    : Type 0 where
  pub client : c.client_id ≡ reg.client_id
  pub agent : c.agent_id ≡ reg.agent_id
  pub algorithm : c.algorithm ≡ codes "ed25519"
  pub supported : c.supported ≡ true
  pub private : identity.signing_private_key ≡ some key
