-- ===== src/Internal/Outbox/Backoff.antt =====
-- The wait after a failed attempt.
use native.Mathlib.Nat.{pow-suc, one-le-pow}
use claw_crony.Base.{ℕ, suc, ◌+◌, ◌*◌, ◌^◌, ◌≤◌, ◌<◌, ◌≡◌, String, min, arith}
use claw_crony.Internal.Outbox.{pending, dead, Entry, OutboxConfig, delay_after, fail_entry}

-- Up to `maxDelayMs` the waits never shrink from one attempt to the next, whatever the two jitters
-- below `baseDelayMs` are.
pub delay_after-le :
    (config : OutboxConfig) (retries jitter later : ℕ)
    → jitter < config.base_delay_ms
    → delay_after config retries jitter ≤ delay_after config (suc retries) later
delay_after-le config r j l h = grind (arith, pow-suc 2 r, one-le-pow r 2 (omega arith))

-- A failed attempt below the limit puts the entry back, due after its backoff and at most
-- `maxDelayMs` later; at the limit the entry is dead. Either way it counts one more attempt.
pub fail_entry_window :
    (config : OutboxConfig) (error : String) (now jitter : ℕ) (e : Entry)
    → (((fail_entry config error now jitter e).retry_count ≡ e.retry_count + 1)
        × (e.retry_count + 1 < config.max_retries
            → ((fail_entry config error now jitter e).status ≡ pending)
              × (now + min (config.base_delay_ms * 2 ^ (e.retry_count + 1)) config.max_delay_ms
                  ≤ (fail_entry config error now jitter e).next_retry_at)
              × ((fail_entry config error now jitter e).next_retry_at ≤ now + config.max_delay_ms))
        × (config.max_retries ≤ e.retry_count + 1
            → (fail_entry config error now jitter e).status ≡ dead))
unfolding fail_entry
fail_entry_window config error now jitter e = ground arith
