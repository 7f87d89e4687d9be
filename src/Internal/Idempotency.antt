-- ===== src/Internal/Idempotency.antt =====
-- src/internal/idempotency.ts: the store of responses by idempotency key. `Date.now()` is the
-- argument `now`; fingerprints are texts that the caller makes (SHA-256 is not part of the file).
pub mod Laws
pub mod Replay
pub mod Tests
use claw_crony.Base.{
  ℕ, ◌+◌, ◌-◌, ◌*◌, String, Bool, true, false, not, Option, none, some, List, [], ◌∷◌, leb, length,
  if◌then◌else◌, str_eq,
}
use claw_crony.Base.Dict.{Dict, lookup, insert, erase, retain}

-- `IdempotencyEntry`, under its key in the map.
pub record Entry : Type 0 where
  pub payload_fingerprint : String
  pub response : String
  pub created_at : ℕ
  pub expires_at : ℕ

pub data CheckResult : Type 0 where
  new : CheckResult
  duplicate : String → CheckResult
  conflict : CheckResult

pub record Store : Type 0 where
  pub entries : Dict Entry
  pub timer : Bool
  pub default_ttl_seconds : ℕ
  pub expired_cleaned : ℕ

pub init : ℕ → Store
init ttl = record { entries = []; timer = false; default_ttl_seconds = ttl; expired_cleaned = 0 }

abbrev pub is_expired : ℕ → Entry → Bool
is_expired now e = leb e.expires_at now

-- `check`, with the entry that was found.
pub check_found : String → String → ℕ → Store → Entry → Store × CheckResult
check_found key fingerprint now s e =
    if is_expired now e
    then (record s { entries = erase key s.entries; expired_cleaned = s.expired_cleaned + 1 }, new)
    else if str_eq e.payload_fingerprint fingerprint
    then (s, duplicate e.response)
    else (s, conflict)

pub check : String → String → ℕ → Store → Store × CheckResult
check key fingerprint now s = elim (lookup key s.entries) [
  | none ↦ (s, new)
  | some e ↦ check_found key fingerprint now s e
]

-- `ttlSeconds ?? this.config.defaultTtlSeconds`
abbrev pub ttl_or : Option ℕ → ℕ → ℕ
ttl_or none default = default
ttl_or (some ttl) default = ttl

pub store : String → String → String → Option ℕ → ℕ → Store → Store
store key fingerprint response ttl now s = record s {
  entries =
      insert key
        (record {
          payload_fingerprint = fingerprint;
          response = response;
          created_at = now;
          expires_at = now + ttl_or ttl s.default_ttl_seconds * 1000;
        })
        s.entries;
}

-- Every deletion of the loop counts one.
pub cleanup : ℕ → Store → Store
cleanup now s =
    let live = retain (λ e. not (is_expired now e)) s.entries in
    record s {
      entries = live;
      expired_cleaned = s.expired_cleaned + (length s.entries - length live);
    }

-- `getStats`
pub get_stats : Store → ℕ × ℕ
get_stats s = (length s.entries, s.expired_cleaned)

pub start_cleanup : Store → Store
start_cleanup s = if s.timer then s else record s { timer = true }

pub stop_cleanup : Store → Store
stop_cleanup s = if s.timer then record s { timer = false } else s

pub data Call : Type 0 where
  checks : String → String → Call
  stores : String → String → String → Option ℕ → Call
  cleans starts stops : Call

pub step : ℕ → Call → Store → Store
step now (checks key fingerprint) s = (check key fingerprint now s).0
step now (stores key fingerprint response ttl) s = store key fingerprint response ttl now s
step now cleans s = cleanup now s
step now starts s = start_cleanup s
step now stops s = stop_cleanup s

pub run : List (ℕ × Call) → Store → Store
run [] s = s
run ((now, c) ∷ cs) s = run cs (step now c s)
