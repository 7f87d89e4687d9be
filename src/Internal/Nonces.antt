-- ===== src/Internal/Nonces.antt =====
-- src/internal/security.ts, `NonceCache`: the nonces that were seen, with their expiry. The timer of
-- the constructor calls `cleanup` at times that a history chooses.
pub mod Log
pub mod Tests
use claw_crony.Base.{
  ℕ, ◌+◌, String, Bool, true, false, not, Option, none, some, List, [], ◌∷◌, leb, if◌then◌else◌,
  max, str_eq,
}
use claw_crony.Base.Dict.{Dict, lookup, insert, erase, retain}

-- A nonce's `expiresAt`.
abbrev pub Cache : Type 0
Cache = Dict ℕ

pub add_unseen : String → ℕ → ℕ → Cache → Cache × Bool
add_unseen nonce ttl now cache = (insert nonce (now + ttl) cache, true)

pub add : String → ℕ → ℕ → Cache → Cache × Bool
add nonce ttl now cache = elim (lookup nonce cache) [
  | none ↦ add_unseen nonce ttl now cache
  | some expires_at ↦
      if leb expires_at now then add_unseen nonce ttl now (erase nonce cache) else (cache, false)
]

abbrev is_known : Option ℕ → Bool
is_known none = false
is_known (some e) = true

pub has : String → Cache → Bool
has nonce cache = is_known (lookup nonce cache)

pub cleanup : ℕ → Cache → Cache
cleanup now = retain (λ expires_at. not (leb expires_at now))

pub data Call : Type 0 where
  adds : String → ℕ → Call
  cleans : Call

-- The answers of the additions, in order.
pub run : List (ℕ × Call) → Cache → List Bool
run [] cache = []
run ((now, adds nonce ttl) ∷ cs) cache =
    (add nonce ttl now cache).1 ∷ run cs (add nonce ttl now cache).0
run ((now, cleans) ∷ cs) cache = run cs (cleanup now cache)
