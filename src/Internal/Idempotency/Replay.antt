-- ===== src/Internal/Idempotency/Replay.antt =====
-- A stored response answers every retry of its request until it expires.
use claw_crony.Base.{
  ℕ, ◌+◌, ◌*◌, ◌<◌, ◌≡◌, ◌≢◌, String, not, Option, some, List, [], ◌∷◌, arith, All, if◌then◌else◌,
  str_eq, eq_iff,
}
use claw_crony.Base.Dict.{
  lookup, NodupKeys, lookup-erase, lookup-insert, lookup-insert_self, lookup-retain,
  insert-NodupKeys,
}
use claw_crony.Internal.Idempotency.{
  Entry, duplicate, conflict, Store, is_expired, check_found, check, ttl_or, store, cleanup,
  start_cleanup, stop_cleanup, Call, checks, stores, cleans, starts, stops, step, run,
}
use claw_crony.Internal.Idempotency.Laws.{step-NodupKeys}

-- A call before the time `high` that stores nothing under the key.
abbrev pub Keeps : String → ℕ → ℕ × Call → Type 0
Keeps key high (now, stores j fingerprint response ttl) = (now < high) × (j ≢ key)
Keeps key high (now, c) = now < high

lookup-step :
    (now : ℕ) (c : Call) (key : String) (e : Entry) (s : Store)
    → NodupKeys s.entries
    → lookup key s.entries ≡ some e
    → Keeps key e.expires_at (now, c)
    → lookup key (step now c s).entries ≡ some e
unfolding step check check_found store cleanup start_cleanup stop_cleanup
lookup-step now (checks j fingerprint) key e s u found h =
    ground (arith, eq_iff j key, lookup-erase j key s.entries)
lookup-step now (stores j fingerprint response ttl) key e s u found h =
    rw (lookup-insert j key _ s.entries) (ground (arith, eq_iff j key))
lookup-step now cleans key e s u found h =
    ground (arith, lookup-retain (λ x. not (is_expired now x)) key s.entries u)
lookup-step now starts key e s u found h = ground arith
lookup-step now stops key e s u found h = ground arith

lookup-run :
    (cs : List (ℕ × Call)) (key : String) (e : Entry) (s : Store)
    → NodupKeys s.entries
    → lookup key s.entries ≡ some e
    → All (Keeps key e.expires_at) cs
    → lookup key (run cs s).entries ≡ some e
unfolding run
lookup-run [] key e s u found h = found
lookup-run ((now, c) ∷ cs) key e s u found (here, later) =
    lookup-run cs key e (step now c s) (step-NodupKeys now c s u)
      (lookup-step now c key e s u found here) later

-- After `store` at time `t`, and whatever is checked, cleaned up or stored under other keys meanwhile,
-- a check before `t + ttl * 1000` gives the stored response for the same fingerprint, and a conflict
-- for any other.
pub check-store :
    (key fingerprint response other : String) (ttl : Option ℕ) (t now : ℕ) (cs : List (ℕ × Call))
    (s : Store)
    → NodupKeys s.entries
    → All (Keeps key (t + ttl_or ttl s.default_ttl_seconds * 1000)) cs
    → now < t + ttl_or ttl s.default_ttl_seconds * 1000
    → (check key other now (run cs (store key fingerprint response ttl t s))).1
      ≡ (if str_eq fingerprint other then duplicate response else conflict)
unfolding check check_found store
check-store key fingerprint response other ttl t now cs s u quiet h = ground (
  arith,
  lookup-run cs key _ (store key fingerprint response ttl t s) (insert-NodupKeys key _ s.entries u)
      (lookup-insert_self key _ s.entries) quiet,
)
