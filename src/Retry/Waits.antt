-- ===== src/Retry/Waits.antt =====
-- The waits of `withRetry` in src/peer-retry.ts.
use claw_crony.Base.{ℕ, ◌*◌, ◌^◌, ◌≤◌, min, arith}
use native.Mathlib.Nat.{mul-le-mul_right}
use claw_crony.Retry.{RetryConfig, unit, calc_delay}

-- The backoff without jitter, in milliseconds.
abbrev pub backoff : ℕ → RetryConfig → ℕ
backoff attempt config = min (config.base_delay_ms * 2 ^ attempt) config.max_delay_ms

-- A wait is the backoff and up to a tenth of it, which may pass the maximum.
pub calc_delay-window :
    (random attempt : ℕ) (config : RetryConfig)
    → random ≤ 2 ^ 53
    → (backoff attempt config * unit ≤ calc_delay random attempt config)
      × (10 * calc_delay random attempt config ≤ 11 * (backoff attempt config * unit))
unfolding calc_delay
calc_delay-window random attempt config h =
    (omega arith, omega (arith, mul-le-mul_right (backoff attempt config) h))
