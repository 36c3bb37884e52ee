-- ===== src/Retry/Delays.antt =====
-- Bounds on the delays of a backoff, and their order.
use zk_ai.Prelude.{ℕ, ◌+◌, ◌-◌, ◌*◌, ◌≤◌, ◌≡◌, min, Option, none, some, arith}
use native.Mathlib.Nat.{pow-le-pow_right, mul-le-mul_left}
use zk_ai.Prelude.Round.{Uniform, round_div-le}
use zk_ai.Retry.Backoff.{
  BackoffCalculator, capped_delay, compute_delay, parse_retry_after_delay, delay_for_error,
}

capped_delay-le : (b : BackoffCalculator) (attempt : ℕ) → capped_delay b attempt ≤ b.max_delay
unfolding capped_delay
capped_delay-le b attempt = ground arith

compute_delay-le :
    (b : BackoffCalculator) (attempt : ℕ) (rng : Uniform)
    → compute_delay b attempt rng ≤ b.max_delay
unfolding compute_delay
compute_delay-le b attempt rng = ground (
  arith,
  capped_delay-le b attempt,
  round_div-le (min (delay + rng.sample 0 delay) (b.max_delay * 2)) 2 b.max_delay,
  round_div-le (min (delay * rng.sample (1000 - b.jitter) (1000 + b.jitter)) (b.max_delay * 1000))
      1000 b.max_delay,
)
  where
    delay : ℕ
    delay = capped_delay b attempt

-- Whatever the attempt, the mode, the jitter and the draw, a computed delay is at most
-- `max_delay`; and a delay that honours a Retry-After is at most four times that.
pub delay_bounds :
    (b : BackoffCalculator) (attempt : ℕ) (retry_after : Option ℕ) (rng : Uniform)
    → (compute_delay b attempt rng ≤ b.max_delay)
      × (delay_for_error b attempt retry_after rng ≤ b.max_delay * 4)
unfolding delay_for_error parse_retry_after_delay
delay_bounds b attempt none rng =
    (compute_delay-le b attempt rng, omega (arith, compute_delay-le b attempt rng))
delay_bounds b attempt (some r) rng = (compute_delay-le b attempt rng, omega arith)

-- Without jitter the delays grow: a later attempt never waits less than an earlier one, if the
-- multiplier is at least 1, and a larger Retry-After is never answered by a shorter wait.
delay_mono :
    (b : BackoffCalculator) (attempt later r r' : ℕ) (rng : Uniform)
    → b.jitter ≡ 0
    → 1 ≤ b.multiplier
    → attempt ≤ later
    → r ≤ r'
    → (compute_delay b attempt rng ≤ compute_delay b later rng)
      × (delay_for_error b attempt (some r) rng ≤ delay_for_error b attempt (some r') rng)
unfolding compute_delay capped_delay delay_for_error parse_retry_after_delay
delay_mono b attempt later r r' rng still growing h hr = (
  ground (
    arith,
    mul-le-mul_left b.base_delay
        (pow-le-pow_right growing {i = attempt - 1} {j = later - 1} (omega arith)),
    mul-le-mul_left b.base_delay (pow-le-pow_right growing {i = 0} {j = later - 1} (omega arith)),
  ),
  omega arith,
)
