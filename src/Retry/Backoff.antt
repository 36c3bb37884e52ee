-- ===== src/Retry/Backoff.antt =====
-- app/retry/backoff.py: the delay before a retry. Durations are in ticks of 0.1 ms, the precision
-- that the code rounds to; the multiplier is a whole number, and `jitter` is in thousandths.
use zk_ai.Prelude.{
  ℕ, ◌+◌, ◌-◌, ◌*◌, ◌^◌, min, String, ◌||◌, Option, none, some, str_eq, ltb, ◌==◌, if◌then◌else◌,
}
use zk_ai.Prelude.Round.{Uniform, round_div}

pub record BackoffCalculator : Type 0 where
  pub base_delay : ℕ
  pub max_delay : ℕ
  pub multiplier : ℕ
  pub jitter : ℕ
  pub jitter_mode : String

-- `min(base_delay * multiplier ** (attempt - 1), max_delay)`, an attempt below 1 counting as 1.
unfoldable pub capped_delay : BackoffCalculator → ℕ → ℕ
capped_delay b attempt =
    let attempt = (if ltb attempt 1 then 1 else attempt) in
    min (b.base_delay * b.multiplier ^ (attempt - 1)) b.max_delay

-- `compute_delay`, with the draw that `rng` makes. The exact value is kept as a fraction until it
-- is rounded.
unfoldable pub compute_delay : BackoffCalculator → ℕ → Uniform → ℕ
compute_delay b attempt rng =
    let delay = capped_delay b attempt in
    if b.jitter == 0 || str_eq b.jitter_mode "none"
    then delay
    else if str_eq b.jitter_mode "equal"
    then round_div (min (delay + rng.sample 0 delay) (b.max_delay * 2)) 2
    else round_div
        (min (delay * rng.sample (1000 - b.jitter) (1000 + b.jitter)) (b.max_delay * 1000)) 1000

-- `parse_retry_after_delay`
unfoldable pub parse_retry_after_delay : Option ℕ → ℕ → Option ℕ
parse_retry_after_delay none cap = none
parse_retry_after_delay (some retry_after) cap = some (min retry_after cap)

unfoldable pub delay_for_error : BackoffCalculator → ℕ → Option ℕ → Uniform → ℕ
delay_for_error b attempt retry_after rng =
    elim (parse_retry_after_delay retry_after (b.max_delay * 4)) [
      | some parsed ↦ parsed
      | none ↦ compute_delay b attempt rng
    ]
