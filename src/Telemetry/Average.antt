-- ===== src/Telemetry/Average.antt =====
-- The mean duration that src/telemetry.ts reports.
use claw_crony.Base.{ℕ, ◌+◌, ◌*◌, ◌≤◌, ◌<◌, arith, lt→ltb, ◌≡◌}
use native.Mathlib.Nat.{div-add-mod', mod-lt}
use claw_crony.Telemetry.{Tasks, average_hundredths}

near :
    (total n q r : ℕ)
    → q * (2 * n) + r ≡ 200 * total + n
    → r < 2 * n
    → (2 * (q * n) ≤ 200 * total + n) × (200 * total < 2 * (q * n) + n + 1)
near total n q r e h = (omega (arith, e, twice), omega (arith, e, twice, h))
  where
    twice : q * (2 * n) ≡ 2 * (q * n)
    twice = grind arith

-- The mean is the exact quotient to the nearest hundredth: times the finished tasks it differs from a hundred
-- times the total duration by at most half of their number.
pub average_hundredths-near :
    (s : Tasks)
    → 0 < s.finished
    → (2 * (average_hundredths s * s.finished) ≤ 200 * s.total_duration_ms + s.finished)
      × (200 * s.total_duration_ms < 2 * (average_hundredths s * s.finished) + s.finished + 1)
unfolding average_hundredths
average_hundredths-near s h = rw (lt→ltb 0 s.finished h) (
    near s.total_duration_ms s.finished _ _
      (div-add-mod' (200 * s.total_duration_ms + s.finished) (2 * s.finished))
      (mod-lt (200 * s.total_duration_ms + s.finished) (omega (arith, h))))
