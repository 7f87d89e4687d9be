-- ===== src/Internal/Idempotency/Laws.antt =====
-- The keys of the store, its counters, and that a cleanup cannot be observed.
use claw_crony.Base.{ℕ, ◌+◌, ◌≤◌, ◌≡◌, String, not, none, some, List, [], ◌∷◌, arith}
use claw_crony.Base.Dict.{
  lookup, NodupKeys, insert-NodupKeys, erase-NodupKeys, retain-NodupKeys, lookup-retain,
  length-erase-some, length-retain_le, length-insert,
}
use claw_crony.Internal.Idempotency.{
  Store, is_expired, check_found, check, store, cleanup, get_stats, start_cleanup, stop_cleanup,
  Call, checks, stores, cleans, starts, stops, step, run,
}

pub step-NodupKeys :
    (now : ℕ) (c : Call) (s : Store) → NodupKeys s.entries → NodupKeys (step now c s).entries
unfolding step check check_found store cleanup start_cleanup stop_cleanup
step-NodupKeys now (checks key fingerprint) s u = ground (arith, erase-NodupKeys key s.entries u)
step-NodupKeys now (stores key fingerprint response ttl) s u = insert-NodupKeys key _ s.entries u
step-NodupKeys now cleans s u = retain-NodupKeys (λ e. not (is_expired now e)) s.entries u
step-NodupKeys now starts s u = ground arith
step-NodupKeys now stops s u = ground arith

pub run-NodupKeys :
    (cs : List (ℕ × Call)) (s : Store) → NodupKeys s.entries → NodupKeys (run cs s).entries
unfolding run
run-NodupKeys [] s u = u
run-NodupKeys ((now, c) ∷ cs) s u = run-NodupKeys cs (step now c s) (step-NodupKeys now c s u)

-- What a call adds to the number of entries that are held or have been cleaned up.
abbrev pub added : Call → Store → ℕ
added (stores key fingerprint response ttl) s = elim (lookup key s.entries) [
  | none ↦ 1
  | some e ↦ 0
]
added _ s = 0

-- No entry vanishes without being counted: `total` and `expired_cleaned` of `getStats` together grow
-- by one when a new key is stored, and stay the same under every other call.
get_stats-step :
    (now : ℕ) (c : Call) (s : Store)
    → NodupKeys s.entries
    → (get_stats (step now c s)).0 + (get_stats (step now c s)).1
      ≡ (get_stats s).0 + (get_stats s).1 + added c s
unfolding get_stats step check check_found store cleanup start_cleanup stop_cleanup
get_stats-step now (checks key fingerprint) s u = ground (arith, length-erase-some key s.entries u)
get_stats-step now (stores key fingerprint response ttl) s u =
    omega (arith, length-insert {0} key _ s.entries)
get_stats-step now cleans s u =
    omega (arith, length-retain_le (λ e. not (is_expired now e)) s.entries)
get_stats-step now starts s u = ground arith
get_stats-step now stops s u = ground arith

-- A cleanup cannot be observed: at its time or later every check gives the same result as without it.
pub check-cleanup :
    (key fingerprint : String) (now later : ℕ) (s : Store)
    → NodupKeys s.entries
    → now ≤ later
    → (check key fingerprint later (cleanup now s)).1 ≡ (check key fingerprint later s).1
unfolding check check_found cleanup
check-cleanup key fingerprint now later s u h =
    ground (arith, lookup-retain (λ e. not (is_expired now e)) key s.entries u)
