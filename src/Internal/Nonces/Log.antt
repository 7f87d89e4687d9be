-- ===== src/Internal/Nonces/Log.antt =====
-- The nonce cache against a log of all that was accepted, which never forgets.
use claw_crony.Base.{
  ℕ, ◌+◌, ◌≤◌, ◌≡◌, refl, String, Bool, not, Option, none, some, List, [], ◌∷◌, arith, leb, max,
  if◌then◌else◌, str_eq, eq_iff,
}
use claw_crony.Base.Dict.{
  lookup, erase, NodupKeys, lookup-nil, lookup-insert, lookup-erase, lookup-retain,
  insert-NodupKeys, erase-NodupKeys, retain-NodupKeys,
}
use claw_crony.Internal.Nonces.{Cache, add_unseen, add, cleanup, Call, adds, cleans, run}

-- Accepted nonces with their expiry, newest first.
abbrev pub Log : Type 0
Log = List (String × ℕ)

-- The latest time at which some acceptance of the nonce ends.
abbrev pub live_until : String → Log → ℕ
live_until n [] = 0
live_until n ((j, e) ∷ log) = if str_eq j n then max e (live_until n log) else live_until n log

-- A nonce is accepted exactly when every earlier acceptance of it is over.
abbrev pub accepts : String → ℕ → Log → Bool
accepts n now log = leb (live_until n log) now

abbrev pub logged : String → ℕ → ℕ → Log → Log
logged n ttl now log = if accepts n now log then (n, now + ttl) ∷ log else log

pub log_run : List (ℕ × Call) → Log → List Bool
log_run [] log = []
log_run ((now, adds n ttl) ∷ cs) log = accepts n now log ∷ log_run cs (logged n ttl now log)
log_run ((now, cleans) ∷ cs) log = log_run cs log

-- The clock never goes back.
abbrev pub IsOrdered : ℕ → List (ℕ × Call) → Type 0
IsOrdered clock [] = Unit
IsOrdered clock ((now, c) ∷ cs) = (clock ≤ now) × IsOrdered now cs

abbrev AgreesAt : ℕ → Option ℕ → ℕ → Type 0
AgreesAt clock none until = until ≤ clock
AgreesAt clock (some e) until = e ≡ until

record Agrees (clock : ℕ) (cache : Cache) (log : Log) : Type 0 where
  keys : NodupKeys cache
  at : (n : String) → AgreesAt clock (lookup n cache) (live_until n log)

later-AgreesAt :
    (clock now : ℕ) (o : Option ℕ) (l : ℕ) → clock ≤ now → AgreesAt clock o l → AgreesAt now o l
later-AgreesAt clock now none l h a = omega arith
later-AgreesAt clock now (some e) l h a = a

Agrees-later :
    (clock now : ℕ) (cache : Cache) (log : Log)
    → clock ≤ now
    → Agrees clock cache log
    → Agrees now cache log
Agrees-later clock now cache log h a = record {
  keys = a.keys;
  at = λ n. later-AgreesAt clock now (lookup n cache) (live_until n log) h (a.at n);
}

add-accepts :
    (n : String) (ttl now : ℕ) (cache : Cache) (log : Log)
    → Agrees now cache log
    → (add n ttl now cache).1 ≡ accepts n now log
unfolding add add_unseen
add-accepts n ttl now cache log a = ground (arith, a.at n)

cleanup-Agrees :
    (now : ℕ) (cache : Cache) (log : Log)
    → Agrees now cache log
    → Agrees now (cleanup now cache) log
unfolding cleanup
cleanup-Agrees now cache log a = record {
  keys = retain-NodupKeys (λ e. not (leb e now)) cache a.keys;
  at = λ n. ground (arith, a.at n, lookup-retain (λ e. not (leb e now)) n cache a.keys);
}

add-Agrees :
    (n : String) (ttl now : ℕ) (cache : Cache) (log : Log)
    → Agrees now cache log
    → Agrees now (add n ttl now cache).0 (logged n ttl now log)
unfolding add add_unseen
add-Agrees n ttl now cache log a = record {
  keys = ground (
    arith,
    a.keys,
    insert-NodupKeys n (now + ttl) cache a.keys,
    insert-NodupKeys n (now + ttl) (erase n cache) (erase-NodupKeys n cache a.keys),
  );
  at = λ j. ground (
    arith,
    a.at n,
    a.at j,
    eq_iff n j,
    lookup-insert n j (now + ttl) cache,
    lookup-insert n j (now + ttl) (erase n cache),
    lookup-erase n j cache,
  );
}

run-log_run_from :
    (clock : ℕ) (cs : List (ℕ × Call)) (cache : Cache) (log : Log)
    → Agrees clock cache log
    → IsOrdered clock cs
    → run cs cache ≡ log_run cs log
unfolding run log_run
run-log_run_from clock [] cache log a h = refl
run-log_run_from clock ((now, adds n ttl) ∷ cs) cache log a (h, later) =
    let a' = Agrees-later clock now cache log h a in
    ground (
      arith,
      add-accepts n ttl now cache log a',
      run-log_run_from now cs (add n ttl now cache).0 (logged n ttl now log)
          (add-Agrees n ttl now cache log a') later,
    )
run-log_run_from clock ((now, cleans) ∷ cs) cache log a (h, later) =
    run-log_run_from now cs (cleanup now cache) log
      (cleanup-Agrees now cache log (Agrees-later clock now cache log h a)) later

-- While the clock does not go back, the cache answers every addition of a history as the log of all
-- acceptances would: true exactly when each earlier acceptance of that nonce has expired. So forgetting
-- expired nonces, by cleanups or otherwise, never lets a replay through.
pub run-log_run : (cs : List (ℕ × Call)) → IsOrdered 0 cs → run cs [] ≡ log_run cs []
run-log_run cs h =
    run-log_run_from 0 cs [] [] (record { keys = tt; at = λ n. rw (lookup-nil n) (omega arith) }) h
