-- ===== src/Retry/Policy.antt =====
-- app/retry/policy.py: the attempt budget of a request. `options`, which nothing reads, and the
-- reading of the configuration are left out.
use zk_ai.Prelude.{ℕ, max, Bool, false, not, ◌&&◌, none, str_eq, ltb, if◌then◌else◌}
use zk_ai.Prelude.Round.{Uniform}
use zk_ai.Retry.Info.{ErrorInfo, is_request_error}
use zk_ai.Retry.Backoff.{BackoffCalculator, delay_for_error}

pub record RetryPolicy : Type 0 where
  pub max_retries_per_credential : ℕ
  pub max_credentials_per_deployment : ℕ
  pub max_deployments : ℕ
  pub max_total_attempts : ℕ
  pub stream_open_retries : ℕ
  pub attempt_timeout_floor : ℕ
  pub attempt_timeout_margin : ℕ
  pub retry_client_errors : Bool
  pub respect_retry_after : Bool
  pub backoff : BackoffCalculator

-- `__post_init__`: the clamps that do something to natural numbers.
unfoldable pub post_init : RetryPolicy → RetryPolicy
post_init p = record p {
  max_total_attempts = max 1 p.max_total_attempts;
  max_credentials_per_deployment = max 1 p.max_credentials_per_deployment;
  max_deployments = max 1 p.max_deployments;
}

unfoldable pub should_retry : RetryPolicy → ErrorInfo → ℕ → Bool
should_retry p info retries_done =
    if is_request_error info && not p.retry_client_errors
    then false
    else if not info.retryable && str_eq info.cooldown_scope "none"
    then false
    else ltb retries_done p.max_retries_per_credential

-- `delay_for` with an error at hand, as the scheduler calls it.
unfoldable pub delay_for : RetryPolicy → ℕ → ErrorInfo → Uniform → ℕ
delay_for p attempt info rng =
    delay_for_error p.backoff attempt (if p.respect_retry_after then info.retry_after else none) rng
