-- ===== src/PeerHealth/Seen.antt =====
-- src/peer-health.ts: a breaker for one peer, written by itself, and the state of the manager as one.
use claw_crony.Base.{
  ℕ, ◌+◌, ◌≡◌, refl, sym, ◌∙◌, ap, inl, inr, String, Bool, true, false, Option, none, some, List,
  [], ◌∷◌, arith, leb, ltb, ◌&&◌, if◌then◌else◌, str_eq, Bool-cases,
}
use claw_crony.PeerHealth.{
  unhealthy, Circuit, closed, opened, half_open, PeerState, BreakerConfig, cooldown_over, fail_in,
  Call, asks, succeeds, fails, checks, learns,
}
use claw_crony.PeerHealth.Breaker.{subject, on_ask, peer_after, peer_run}

-- A circuit breaker: it counts failures, or it waits since a time, or it has let one caller through and
-- waits for the result.
pub data Breaker : Type 0 where
  counting : ℕ → Breaker
  waiting : ℕ → Breaker
  probing : Breaker

-- Whether a caller is let through.
unfoldable pub lets : ℕ → ℕ → Breaker → Bool
lets reset now (counting n) = true
lets reset now (waiting at) = ltb 0 at && leb (at + reset) now
lets reset now probing = false

-- The breaker behind a caller, a success and a failure.
unfoldable pub asked : ℕ → ℕ → Breaker → Breaker
asked reset now (counting n) = counting n
asked reset now (waiting at) = if ltb 0 at && leb (at + reset) now then probing else waiting at
asked reset now probing = probing

unfoldable pub failed : ℕ → ℕ → Breaker → Breaker
failed threshold now (counting n) = if ltb (n + 1) threshold then counting (n + 1) else waiting now
failed threshold now (waiting at) = waiting now
failed threshold now probing = waiting now

-- What a call does that names the peer.
unfoldable pub told : BreakerConfig → ℕ → Call → Breaker → Breaker
unfolding asked failed
told config now (asks k) b = asked config.reset_timeout_ms now b
told config now (succeeds k) b = counting 0
told config now (fails k) b = failed config.failure_threshold now b
told config now (checks k true) b = counting 0
told config now (checks k false) b = failed config.failure_threshold now b
told config now (learns k skills) b = b

-- The calls of a history about one peer, and no others.
unfoldable pub after : BreakerConfig → String → List (ℕ × Call) → Breaker → Breaker
unfolding told
after config j [] b = b
after config j ((now, c) ∷ cs) b =
    after config j cs (if str_eq (subject c) j then told config now c b else b)

pub time_or_zero : Option ℕ → ℕ
time_or_zero none = 0
time_or_zero (some at) = at

unfoldable pub breaker_of : Circuit → PeerState → Breaker
unfolding time_or_zero
breaker_of closed s = counting s.consecutive_failures
breaker_of opened s = waiting (time_or_zero s.last_failure_at)
breaker_of half_open s = probing

unfoldable pub seen : PeerState → Breaker
unfolding breaker_of
seen s = breaker_of s.circuit s

pub over-lets :
    (config : BreakerConfig) (o : Option ℕ) (now : ℕ)
    → cooldown_over config o now
      ≡ (ltb 0 (time_or_zero o) && leb (time_or_zero o + config.reset_timeout_ms) now)
unfolding cooldown_over time_or_zero
over-lets config none now = refl
over-lets config (some at) now = ground arith

seen-on_ask :
    (config : BreakerConfig) (now : ℕ) (s : PeerState) (c : Circuit)
    → s.circuit ≡ c
    → seen (on_ask config now s c) ≡ asked config.reset_timeout_ms now (breaker_of c s)
unfolding seen breaker_of asked
seen-on_ask config now s closed e = rw (seen, e) refl
seen-on_ask config now s half_open e = rw (seen, e) refl
seen-on_ask config now s opened e = elim (Bool-cases (cooldown_over config s.last_failure_at now)) [
  | inl o ↦ rw (o, asked, sym (over-lets config s.last_failure_at now) ∙ o) refl
  | inr o ↦ rw (o, seen, e, asked, sym (over-lets config s.last_failure_at now) ∙ o) refl
]

seen-fails :
    (config : BreakerConfig) (now : ℕ) (s : PeerState) (c : Circuit)
    → s.circuit ≡ c
    → seen (
        fail_in config c (record s {
          consecutive_failures = s.consecutive_failures + 1;
          last_failure_at = some now;
        }))
      ≡ failed config.failure_threshold now (breaker_of c s)
unfolding seen breaker_of failed fail_in time_or_zero
seen-fails config now s closed e =
    elim (Bool-cases (leb config.failure_threshold (s.consecutive_failures + 1))) [
      | inl reached ↦
          let more : ltb (s.consecutive_failures + 1) config.failure_threshold ≡ false =
            ground arith in
          rw (fail_in, reached, failed, more) refl
      | inr below ↦
          let more : ltb (s.consecutive_failures + 1) config.failure_threshold ≡ true =
            ground arith in
          rw (fail_in, below, failed, more, seen, e) refl
    ]
seen-fails config now s opened e = rw (seen, e) refl
seen-fails config now s half_open e = refl

-- The health and the time of the last check are nothing to the breaker.
breaker_of-checked :
    (c : Circuit) (now : ℕ) (s : PeerState)
    → breaker_of c (record s { health = unhealthy; last_check_at = some now }) ≡ breaker_of c s
unfolding breaker_of
breaker_of-checked closed now s = refl
breaker_of-checked opened now s = refl
breaker_of-checked half_open now s = refl

seen-peer_after :
    (config : BreakerConfig) (now : ℕ) (c : Call) (s : PeerState)
    → seen (peer_after config now c s) ≡ told config now c (seen s)
unfolding told seen
seen-peer_after config now (asks k) s = seen-on_ask config now s s.circuit refl
seen-peer_after config now (succeeds k) s = unfold breaker_of in refl
seen-peer_after config now (fails k) s = seen-fails config now s s.circuit refl
seen-peer_after config now (checks k true) s = unfold breaker_of in refl
seen-peer_after config now (checks k false) s =
    seen-fails config now (record s { health = unhealthy; last_check_at = some now }) s.circuit refl
    ∙ ap (failed config.failure_threshold now) (breaker_of-checked s.circuit now s)
seen-peer_after config now (learns k skills) s = refl

pub seen-peer_run :
    (config : BreakerConfig) (j : String) (cs : List (ℕ × Call)) (s : PeerState)
    → seen (peer_run j config cs s) ≡ after config j cs (seen s)
unfolding peer_run after
seen-peer_run config j [] s = refl
seen-peer_run config j ((now, c) ∷ cs) s = elim (Bool-cases (str_eq (subject c) j)) [
  | inl about ↦
      rw (peer_run, after, about)
        (seen-peer_run config j cs (peer_after config now c s)
          ∙ ap (after config j cs) (seen-peer_after config now c s))
  | inr other ↦ rw (peer_run, after, other) (seen-peer_run config j cs s)
]
