-- ===== src/Retry.antt =====
-- src/peer-retry.ts: a send that is tried again. `fn n` is what the call of attempt n gives. Waits are in
-- units of 1 / (10 · 2^53) milliseconds: `random n`, below 2^53, is 2^53 times what `Math.random()` gives
-- after attempt n. Rounding of floating-point products is left out. A thrown value has no `ok`.
pub mod Attempts
pub mod Waits
mod Tests
use claw_crony.Base.{
  ℕ, zero, suc, ◌+◌, ◌*◌, ◌^◌, min, String, Bool, true, false, Option, none, some, List, [], ◌∷◌,
  ltb, if◌then◌else◌,
}
use claw_crony.Transport.{Failure, status, is_retryable_transport_error}

-- `OutboundSendResult`, its response as a text.
pub record SendResult : Type 0 where
  pub ok : Bool
  pub status_code : ℕ
  pub response : String

-- `RetryConfig`
pub record RetryConfig : Type 0 where
  pub max_retries : ℕ
  pub base_delay_ms : ℕ
  pub max_delay_ms : ℕ

-- A result, or what is thrown and its text.
pub data Answer : Type 0 where
  returned : SendResult → Answer
  threw : Failure → String → Answer

-- The result that the loop makes of an answer.
abbrev pub settle : Answer → SendResult
settle (returned r) = r
settle (threw failure text) = record { ok = false; status_code = 500; response = text }

abbrev pub unit : ℕ
unit = 10 * 2 ^ 53

pub calc_delay : ℕ → ℕ → RetryConfig → ℕ
calc_delay random attempt config =
    min (config.base_delay_ms * 2 ^ attempt) config.max_delay_ms * unit
    + random * min (config.base_delay_ms * 2 ^ attempt) config.max_delay_ms

-- What a run gives: the result, the number of calls and the waits.
pub record Run : Type 0 where
  pub result : Option SendResult
  pub calls : ℕ
  pub waits : List ℕ

module _ (mentions : String → String → Bool) where
  unfoldable pub is_retryable : Answer → Bool
  unfolding is_retryable_transport_error
  is_retryable (returned r) =
      if r.ok then false else is_retryable_transport_error mentions (status r.status_code)
  is_retryable (threw failure text) = is_retryable_transport_error mentions failure

  module _ (fn : ℕ → Answer) (random : ℕ → ℕ) (config : RetryConfig) where
    -- The loop from an attempt on; the first argument is the number of attempts left.
    pub attempts_from : ℕ → ℕ → Option SendResult → Run
    unfolding is_retryable calc_delay
    attempts_from zero attempt last = record { result = last; calls = 0; waits = [] }
    attempts_from (suc left) attempt last =
        let rest = attempts_from left (attempt + 1) (some (settle (fn attempt))) in
        if is_retryable (fn attempt)
        then record {
          result = rest.result;
          calls = rest.calls + 1;
          waits =
              if ltb attempt config.max_retries
              then calc_delay (random attempt) attempt config ∷ rest.waits
              else rest.waits;
        }
        else record { result = some (settle (fn attempt)); calls = 1; waits = [] }

    pub with_retry : Run
    unfolding attempts_from
    with_retry = attempts_from (config.max_retries + 1) 0 none
