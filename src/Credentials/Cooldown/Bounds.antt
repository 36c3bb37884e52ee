-- ===== src/Credentials/Cooldown/Bounds.antt =====
-- Bounds on the cooldown of a throttled key, and its growth.
use zk_ai.Prelude.{ℕ, ◌+◌, ◌-◌, ◌*◌, ◌≤◌, ◌<◌, ◌≡◌, ◌≢◌, max, Option, none, arith}
use native.Mathlib.Nat.{pow-le-pow_right, mul-le-mul_left, mul-le-mul, mul-le-mul_right, le_trans}
use zk_ai.Prelude.Round.{Uniform, second, round_div-le, le-round_div, round_div_mono}
use zk_ai.Credentials.Cooldown.{
  CooldownPolicy, at_least_second, factor, ladder, rate_limit_cooldown, positive,
}

second-le-at_least_second : (n d : ℕ) → 0 < d → second ≤ at_least_second n d
unfolding at_least_second
second-le-at_least_second n d pos =
    omega (arith, le-round_div (max (second * d) n) (100 * d) 100 (omega arith) (omega arith))

-- The rounding adds at most half of 10 ms; at a whole number of 10 ms it adds nothing.
at_least_second-le :
    (n d m : ℕ) → 0 < d → second ≤ m * 100 → n ≤ m * 100 * d → at_least_second n d ≤ m * 100
unfolding at_least_second
at_least_second-le n d m pos low h = omega (
  arith,
  round_div-le (max (second * d) n) (100 * d) m (omega arith)
      (omega (arith, mul-le-mul_right d low)),
)

ladder-le : (p : CooldownPolicy) (k : ℕ) → ladder p k ≤ p.rate_limit_max
unfolding ladder
ladder-le p k = omega arith

ladder_mono :
    (p : CooldownPolicy) (k k' : ℕ)
    → 1 ≤ p.rate_limit_multiplier
    → k ≤ k'
    → ladder p k ≤ ladder p k'
unfolding ladder
ladder_mono p k k' growing h = omega (
  arith,
  mul-le-mul_left p.rate_limit_base
      (pow-le-pow_right growing {i = k - 1} {j = k' - 1} (omega arith)),
)

covered : (r j m : ℕ) → r * (1000 + j) ≤ m * 100 * 1000 → r ≤ m * 100
covered r j m h = omega arith

jittered-le :
    (p : CooldownPolicy) (k : ℕ) (rng : Uniform)
    → ladder p k * factor p rng ≤ p.rate_limit_max * (1000 + p.jitter)
jittered-le p k rng = mul-le-mul (ladder-le p k) (rng.sample_le _ _ (omega arith))

-- The cooldown of a 429 that is not about the quota is at least a second, and at most any whole
-- number of 10 ms that covers `rate_limit_max` with its jitter added; if the provider sent a
-- Retry-After above 0, it is at most `rate_limit_max`. (Needs a `rate_limit_max` of a second.)
pub rate_limit_cooldown_bounds :
    (p : CooldownPolicy) (k : ℕ) (retry_after : Option ℕ) (rng : Uniform) (m : ℕ)
    → second ≤ p.rate_limit_max
    → p.rate_limit_max * (1000 + p.jitter) ≤ m * 100 * 1000
    → (second ≤ rate_limit_cooldown p k retry_after rng)
      × (rate_limit_cooldown p k retry_after rng ≤ m * 100)
      × (positive retry_after ≢ none → rate_limit_cooldown p k retry_after rng ≤ p.rate_limit_max)
unfolding rate_limit_cooldown
rate_limit_cooldown_bounds p k retry_after rng m floor cap =
    let covers : p.rate_limit_max ≤ m * 100 = covered p.rate_limit_max p.jitter m cap in
    let jittered = ladder p k * factor p rng in
    let low₁ = second-le-at_least_second jittered 1000 (omega arith) in
    let low₂ = second-le-at_least_second (ladder p k) 1 (omega arith) in
    let high₁ =
      at_least_second-le jittered 1000 m (omega arith) (omega arith)
        (le_trans (jittered-le p k rng) cap) in
    let high₂ =
      at_least_second-le (ladder p k) 1 m (omega arith) (omega arith)
        (omega (arith, ladder-le p k)) in
    (ground arith, ground arith, ground arith)

-- Without jitter the ladder never gets shorter: one more 429 in a row rests at least as long, if
-- the multiplier is at least 1.
rate_limit_cooldown_mono :
    (p : CooldownPolicy) (k k' : ℕ) (rng : Uniform)
    → p.jitter ≡ 0
    → 1 ≤ p.rate_limit_multiplier
    → k ≤ k'
    → rate_limit_cooldown p k none rng ≤ rate_limit_cooldown p k' none rng
unfolding rate_limit_cooldown at_least_second
rate_limit_cooldown_mono p k k' rng still growing h = ground (
  arith,
  ladder_mono p k k' growing h,
  round_div_mono (max (second * 1) (ladder p k)) (max (second * 1) (ladder p k')) (100 * 1),
)
