-- ===== src/Retry/Tests.antt =====
-- Runs of src/peer-retry.ts.
use claw_crony.Base.{ℕ, zero, suc, ◌≡◌, ◌+◌, refl, true, str_eq}
use claw_crony.Transport.{thrown, is_retryable_transport_error}
use claw_crony.Retry.{RetryConfig, Answer, returned, threw, is_retryable, attempts_from, with_retry}
use claw_crony.Retry.Attempts.{RetryableFrom, EndsWith, with_retry-EndsWith}

abbrev config : RetryConfig
config = record { max_retries = 2; base_delay_ms = 100; max_delay_ms = 150 }

-- A refused connection, then an answer.
abbrev fn : ℕ → Answer
fn zero = threw (thrown "econnrefused") "refused"
fn (suc n) = returned (record { ok = true; status_code = 200; response = "hi" })

abbrev random : ℕ → ℕ
random n = 0

run-twice : (with_retry str_eq fn random config).calls ≡ 2
unfolding with_retry attempts_from is_retryable is_retryable_transport_error
run-twice = refl

with_retry-EndsWith_example :
    (k : ℕ) × EndsWith str_eq fn random config
      (0 + k)
      (0 + config.max_retries)
      (with_retry str_eq fn random config).result
    × ((with_retry str_eq fn random config).calls ≡ k + 1)
    × RetryableFrom str_eq fn random config 0 k
with_retry-EndsWith_example = with_retry-EndsWith str_eq fn random config
