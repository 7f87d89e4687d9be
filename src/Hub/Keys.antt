-- ===== src/Hub/Keys.antt =====
-- src/hub-registration.ts: what `hasMatchingSigningKey` and the comparison with the stored registration ask.
use claw_crony.Base.{
  ◌≤◌, String, ◌≡◌, refl, ap, ◌⊎◌, inl, inr, true, Option, none, some, [], ◌∷◌, arith, length,
}
use claw_crony.Base.Text.{Text, codes, same_iff}
use claw_crony.Hub.Registration.{
  RemoteAgent, same_option, absent_or, has_matching_signing_key, Local, Registration, is_current,
}

abbrev pub IsAbsentOr : Option Text → String → Type 0
IsAbsentOr o s = (o ≡ none) ⊎ ((o ≡ some []) ⊎ (o ≡ some (codes s)))

-- The Hub has the local signing key for the agent, which is not empty, and where it names an algorithm and a
-- status, these are ed25519 and active.
pub record HasKey (agent : RemoteAgent) (key : Text) : Type 0 where
  pub given : 1 ≤ length key
  pub same_key : agent.signing_public_key ≡ some key
  pub algorithm : IsAbsentOr agent.signing_algorithm "ed25519"
  pub status : IsAbsentOr agent.signing_key_status "active"

-- The stored registration is the one of this plugin at this hub.
pub record IsCurrent (local : Local) (r : Registration) : Type 0 where
  pub hub : r.hub_url ≡ local.hub_url
  pub client : r.client_id ≡ local.client_id
  pub encryption : r.public_key ≡ local.public_key
  pub signing : r.signing_public_key ≡ local.signing_public_key
  pub descriptor : r.descriptor ≡ local.descriptor

absent_or-IsAbsentOr : (o : Option Text) (s : String) → absent_or o s ≡ true → IsAbsentOr o s
absent_or-IsAbsentOr none s h = inl refl
absent_or-IsAbsentOr (some []) s h = inr (inl refl)
absent_or-IsAbsentOr (some (c ∷ t)) s h = inr (inr (ap some ((same_iff (c ∷ t) (codes s)).0 h)))

same_option-eq : (a b : Option Text) → same_option a b ≡ true → a ≡ b
same_option-eq none none h = refl
same_option-eq (some a) (some b) h = ap some ((same_iff a b).0 h)
same_option-eq none (some b) h = absurd (cc)
same_option-eq (some a) none h = absurd (cc)

pub has_matching_signing_key-HasKey :
    (agent : RemoteAgent) (o : Option Text)
    → has_matching_signing_key agent o ≡ true
    → (key : Text) × (o ≡ some key) × HasKey agent key
unfolding has_matching_signing_key
has_matching_signing_key-HasKey agent none h = absurd (cc)
has_matching_signing_key-HasKey agent (some []) h = absurd (cc)
has_matching_signing_key-HasKey agent (some (c ∷ key)) h = (
  c ∷ key,
  refl,
  record {
    given = omega arith;
    same_key = same_option-eq agent.signing_public_key (some (c ∷ key)) (ground arith);
    algorithm = absent_or-IsAbsentOr agent.signing_algorithm "ed25519" (ground arith);
    status = absent_or-IsAbsentOr agent.signing_key_status "active" (ground arith);
  },
)

pub is_current-IsCurrent :
    (local : Local) (r : Registration) → is_current local r ≡ true → IsCurrent local r
unfolding is_current
is_current-IsCurrent local r h = record {
  hub = (same_iff r.hub_url local.hub_url).0 (ground arith);
  client = (same_iff r.client_id local.client_id).0 (ground arith);
  encryption = (same_iff r.public_key local.public_key).0 (ground arith);
  signing = same_option-eq r.signing_public_key local.signing_public_key (ground arith);
  descriptor = (same_iff r.descriptor local.descriptor).0 (ground arith);
}
