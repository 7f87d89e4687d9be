-- ===== src/Client/Sent.antt =====
-- src/client.ts: what a call of `sendMessage` returns, and what it tells the circuit breaker.
use claw_crony.Base.{
  if◌then◌else◌, ℕ, ◌+◌, ◌≤◌, ◌<◌, String, ◌≡◌, refl, sym, ap, ◌∙◌, subst, ◌⊎◌, inl, inr, Bool,
  true, false, Option, some, List, arith, ltb, lt→ltb, All,
}
use claw_crony.Base.Dict.{lookup}
use claw_crony.Transport.{Failure}
use claw_crony.Retry.{
  SendResult, RetryConfig, Answer, returned, threw, settle, is_retryable, Run, with_retry,
}
use claw_crony.Retry.Attempts.{RetryableFrom, with_retry-EndsWith}
use claw_crony.PeerHealth.{
  record_success, record_failure, opened, PeerState, Manager, cooldown_over, is_available, Call,
  run,
}
use claw_crony.PeerHealth.Consistent.{IsConsistent}
use claw_crony.PeerHealth.Cooldown.{NoResult, is_available-probe, probe-exclusive}
use claw_crony.Client.{
  Network, Outcome, or_nothing, recorded, finish, do_send_message, send_available, send_message,
}

module _ (mentions : String → String → Bool) (network : ℕ → Network) (random : ℕ → ℕ)
    (config : RetryConfig) (peer : String) where
  -- What the attempt `n` gives.
  abbrev pub attempt : ℕ → Answer
  attempt n = do_send_message mentions (network n)

  -- The outcome of the attempts up to the attempt `k`, of which only the last is not worth another
  -- one, or there is none left; the breaker is told the result.
  pub record EndsAt (later : ℕ) (m : Manager) (outcome : Outcome) (k : ℕ) : Type 0 where
    pub answer : outcome.answer ≡ returned (settle (attempt k))
    pub sends : outcome.sends ≡ k + 1
    pub in_bounds : k ≤ config.max_retries
    pub final : (is_retryable mentions (attempt k) ≡ false) ⊎ (k ≡ config.max_retries)
    pub worth : RetryableFrom mentions attempt random config 0 k
    pub told :
        outcome.health
        ≡ (if (settle (attempt k)).ok then record_success peer m else record_failure peer later m)

  abbrev attempts : Run
  attempts = with_retry mentions attempt random config

  retried :
      (later : ℕ) (m : Manager)
      → 0 < config.max_retries
      → send_available mentions network random config peer later m
        ≡ finish peer later attempts.calls (returned (or_nothing attempts.result)) m
  unfolding send_available
  retried later m h =
      let on : ltb 0 config.max_retries ≡ true = lt→ltb 0 config.max_retries h in
      rw (send_available, on) refl

  finish-EndsAt :
      (later : ℕ) (m : Manager) (k : ℕ)
      → attempts.result ≡ some (settle (attempt k))
      → attempts.calls ≡ k + 1
      → k ≤ config.max_retries
      → (is_retryable mentions (attempt k) ≡ false) ⊎ (k ≡ config.max_retries)
      → RetryableFrom mentions attempt random config 0 k
      → EndsAt later m
          (finish peer later attempts.calls (returned (or_nothing attempts.result)) m)
          k
  unfolding finish recorded
  finish-EndsAt later m k result calls bound last worth = record {
    answer = ap (λ r. returned (or_nothing r)) result;
    sends = calls;
    in_bounds = bound;
    final = last;
    worth = worth;
    told = ap (λ r. recorded peer later (or_nothing r) m) result;
  }

  send_available-EndsAt :
      (later : ℕ) (m : Manager)
      → 0 < config.max_retries
      → (k : ℕ) × EndsAt later m (send_available mentions network random config peer later m) k
  send_available-EndsAt later m h =
      let (k, (result, bound, last), calls, worth) =
        with_retry-EndsWith mentions attempt random config in
      let same : 0 + k ≡ k = omega arith in
      (
        k,
        subst (λ o. EndsAt later m o k) (sym (retried later m h))
            (finish-EndsAt later m k
              (result ∙ ap {B = Option SendResult} (λ j. some (settle (attempt j))) same) calls
              (omega arith)
              (elim last [
                | inl e ↦ inl (subst (λ j. is_retryable mentions (attempt j) ≡ false) same e)
                | inr e ↦ inr (omega arith)
              ])
              worth),
      )

  -- With retries configured, a call for a peer that is available returns the result of one attempt: the
  -- first that is not worth another one, or the last of those that are allowed. It has made the
  -- attempts up to that one, and the circuit breaker is told just that result. So the call always
  -- comes to an end with a result.
  pub send_message-EndsAt :
      (now later : ℕ) (m : Manager)
      → 0 < config.max_retries
      → (is_available peer now m).1 ≡ true
      → (k : ℕ) × EndsAt later
          ((is_available peer now m).0)
          (send_message mentions network random config peer now later m)
          k
  unfolding send_message
  send_message-EndsAt now later m h open_to =
      rw (send_message, open_to) (send_available-EndsAt later ((is_available peer now m).0) h)

  -- With no retries configured, an attempt that throws makes the call throw, and the breaker is not
  -- told. So where the call was the one that a half-open circuit lets through, no later caller is
  -- let through, whatever happens to other peers, until some other result of the peer is
  -- recorded.
  pub send_message-half_open :
      (now later : ℕ) (m : Manager) (state : PeerState) (failure : Failure) (text : String)
      (cs : List (ℕ × Call)) (after : ℕ)
      → IsConsistent m
      → 0 < m.config.failure_threshold
      → lookup peer m.states ≡ some state
      → state.circuit ≡ opened
      → cooldown_over m.config state.last_failure_at now ≡ true
      → config.max_retries ≡ 0
      → attempt 0 ≡ threw failure text
      → All (NoResult peer) cs
      → ((send_message mentions network random config peer now later m).answer ≡ threw failure text)
        × ((is_available peer after
              (run cs ((send_message mentions network random config peer now later m).health))).1
            ≡ false)
  unfolding send_message send_available finish
  send_message-half_open now later m state failure text cs after v positive found e over none_left
        thrown_now quiet =
      let let_through = (is_available-probe peer now m state found e over).0 in
      let once : ltb 0 config.max_retries ≡ false = ground arith in
      rw (send_message, let_through, send_available, once, thrown_now, finish)
        (refl, probe-exclusive peer cs now after m state v positive found e over quiet)
