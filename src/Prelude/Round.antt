-- ===== src/Prelude/Round.antt =====
-- Times and durations are numbers of ticks, 0.1 ms each: what `round(x, 4)` keeps of seconds.
-- Division is rounded as `round` does, half to even, and a random draw comes from a generator.
use Prim.Native.Nat.{ℕ, ◌+◌, ◌*◌, ◌/◌, ◌%◌, ◌≤◌, ◌<◌}
use mathlib.Core.Path.{◌≡◌, ap}
use native.Mathlib.Omega.{arith}
use native.Mathlib.Nat.{
  div-add-mod', mod-lt, div-le_of_le-mul, le-div_iff_mul-le, mul-le-mul_right, mul_comm,
  div-mul-le_self, le_trans,
}
use native.Mathlib.Decide.{dec_lt}
use zk_ai.Prelude.Tests.{ltb, if◌then◌else◌}

abbrev pub second : ℕ
second = 10000

-- n / d to the nearest whole number, a half to the even one.
unfoldable pub round_div : ℕ → ℕ → ℕ
round_div n d =
    let q = n / d in
    let r = n % d in if ltb (2 * r) d then q else if ltb d (2 * r) then q + 1 else q + q % 2

-- `random.uniform(low, high)`: each call is handed a generator of its own.
pub record Uniform : Type 0 where
  pub sample : ℕ → ℕ → ℕ
  pub sample_ge : (low high : ℕ) → low ≤ high → low ≤ sample low high
  pub sample_le : (low high : ℕ) → low ≤ high → sample low high ≤ high

-- When the quotient reaches a bound on n / d, nothing is left over.
no_remainder : (n d m : ℕ) → n ≤ m * d → m ≤ n / d → n % d ≡ 0
no_remainder n d m h k = omega (arith, mul-le-mul_right d k, div-add-mod' n d)

pub round_div-le : (n d m : ℕ) → 0 < d → n ≤ m * d → round_div n d ≤ m
unfolding round_div
round_div-le n d m pos h = elim (dec_lt (n / d) m) [
  | yes below ↦ ground (arith, mod-lt (n / d) {m = 2} (omega arith))
  | no reached ↦ ground (
    arith,
    no_remainder n d m h (omega arith),
    div-le_of_le-mul d {m = n} {n = m} (omega (arith, mul_comm m d)),
  )
]

pub le-round_div : (n d m : ℕ) → 0 < d → m * d ≤ n → m ≤ round_div n d
unfolding round_div
le-round_div n d m pos h = ground (arith, (le-div_iff_mul-le pos).1 h)

-- A whole number of units is not rounded.
pub round_div_exact : (m d : ℕ) → 0 < d → round_div (m * d) d ≡ m
round_div_exact m d pos =
    omega (
      arith,
      round_div-le (m * d) d m pos (omega arith),
      le-round_div (m * d) d m pos (omega arith),
    )

same_quotient : (n n' d : ℕ) → 0 < d → n ≤ n' → ¬ (n / d < n' / d) → n / d ≡ n' / d
same_quotient n n' d pos h level =
    let up : n / d ≤ n' / d = (le-div_iff_mul-le pos).1 (le_trans (div-mul-le_self n d) h) in
    omega arith

pub round_div_mono : (n n' d : ℕ) → 0 < d → n ≤ n' → round_div n d ≤ round_div n' d
unfolding round_div
round_div_mono n n' d pos h = elim (dec_lt (n / d) (n' / d)) [
  | yes below ↦ ground (arith, mod-lt (n / d) {m = 2} (omega arith))
  | no level ↦
      let q = same_quotient n n' d pos h level in
      ground (
        arith,
        q,
        ap (λ t. t * d) q,
        div-add-mod' n d,
        div-add-mod' n' d,
        mod-lt (n / d) {m = 2} (omega arith),
      )
]
