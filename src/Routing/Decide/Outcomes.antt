-- ===== src/Routing/Decide/Outcomes.antt =====
-- What the scheduler's decisions come to, for each kind of error.
use zk_ai.Prelude.{
  ℕ, ◌+◌, ◌*◌, ◌-◌, ◌/◌, max, ◌≤◌, ◌<◌, sym, subst, ◌≡◌, ◌≢◌, ◌⊎◌, String, true, false, Option,
  some, List, str_eq, arith,
}
use native.Mathlib.Nat.{div-mul-le_self, mul_comm}
use zk_ai.Retry.Info.{ErrorInfo, is_request_error, is_throttle, is_client}
use zk_ai.Retry.Classifier.{ErrorClassifier, by_status}
use zk_ai.Retry.Policy.{RetryPolicy, should_retry}
use zk_ai.Retry.Actions.{is_actionable, IsActionable}
use zk_ai.Routing.Decide.{
  Next, told, is_abort, decide, decide_open_stream, normalize_throttle, client_status_for,
  exhausted, last_error, wait_for_credential, attempt_timeout,
}

-- An actionable error that is not the caller's never ends the request while a retry, a key or a
-- deployment is left to try, except when all it allows is a retry and the retries are used up.
pub decide-abort :
    (policy : RetryPolicy) (info : ErrorInfo) (retries_done : ℕ)
    → IsActionable info
    → is_client info.error_class ≡ false
    → decide policy info retries_done ≡ Next.abort
    → ((info.switch_credential ≡ false) × (info.switch_provider ≡ false))
      × (should_retry policy info retries_done ≡ false)
unfolding is_actionable decide is_abort is_request_error
decide-abort policy info retries_done actionable other aborted = ground arith

-- An error that the scheduler retries is retryable, fewer retries than the policy's limit were
-- made, and it is not the caller's unless the policy retries those.
decide-retry :
    (policy : RetryPolicy) (info : ErrorInfo) (retries_done : ℕ)
    → decide policy info retries_done ≡ Next.retry
    → ((info.retryable ≡ true) × (retries_done < policy.max_retries_per_credential))
      × ((is_client info.error_class ≡ false) ⊎ (policy.retry_client_errors ≡ true))
unfolding decide is_abort should_retry is_request_error
decide-retry policy info retries_done retried = ground arith

-- Opening a stream again obeys the limit for streams.
pub decide_open_stream-retry :
    (policy : RetryPolicy) (info : ErrorInfo) (retries_done : ℕ)
    → decide_open_stream policy info retries_done ≡ Next.retry
    → (info.retryable ≡ true) × (retries_done < policy.stream_open_retries)
unfolding decide_open_stream is_abort is_request_error
decide_open_stream-retry policy info retries_done retried = ground arith

-- After a 429 whose cooldown is wider than one key, the scheduler never turns to another key: it
-- retries within its limit or fails over to the next deployment, whatever the classifier had set.
decide-normalize_throttle :
    (policy : RetryPolicy) (info : ErrorInfo) (scope : String) (retries_done : ℕ)
    → is_throttle info.error_class ≡ true
    → str_eq scope "credential" ≡ false
    → (decide policy (normalize_throttle info (some scope)) retries_done ≡ Next.deployment)
      ⊎ (decide policy (normalize_throttle info (some scope)) retries_done ≡ Next.retry)
        × (retries_done < policy.max_retries_per_credential)
unfolding decide is_abort should_retry is_request_error normalize_throttle
decide-normalize_throttle policy info scope retries_done throttle wide = ground arith

client_status_for_blameless :
    (c : ErrorClassifier) (status : ℕ) (detail : String) (retry_after : Option ℕ)
    → let told_status = client_status_for (by_status c status detail retry_after) in
      (told_status ≢ 401) × (told_status ≢ 403)
unfolding by_status client_status_for
client_status_for_blameless c status detail retry_after = ground arith

-- If the last error of a failed request was an upstream answer, whatever its status, then the
-- client is not told 401 or 403, which would blame the client's own key.
pub exhausted_blameless :
    (c : ErrorClassifier) (errors : List ErrorInfo) (status : ℕ) (detail : String)
    (retry_after : Option ℕ)
    → last_error errors ≡ some (by_status c status detail retry_after)
    → ((exhausted errors).http_status ≢ 401) × ((exhausted errors).http_status ≢ 403)
unfolding told
exhausted_blameless c errors status detail retry_after last =
    subst (λ o. ((told o).http_status ≢ 401) × ((told o).http_status ≢ 403)) (sym last)
      (client_status_for_blameless c status detail retry_after)

share_fits :
    (rest left margin time : ℕ)
    → 1 ≤ left
    → time ≢ 0
    → time ≡ rest / max 1 left - margin
    → left * (time + margin) ≤ rest
share_fits rest left margin time some_left some_time h =
    let whole : time + margin ≡ rest / left = ground arith in
    subst (λ n. left * n ≤ rest) (sym whole)
      (omega (arith, div-mul-le_self rest left, mul_comm left (rest / left)))

-- The time given to an attempt is 0 for no limit, or else at least the floor; above the floor, an
-- equal attempt for each deployment that is left, margins included, fits in what is left of the
-- request's budget.
attempt_timeout_shares :
    (policy : RetryPolicy) (budget elapsed left : ℕ)
    → 1 ≤ left
    → let time = attempt_timeout policy budget elapsed left in
      (time ≡ 0)
      ⊎ (policy.attempt_timeout_floor ≤ time)
        × ((time ≡ policy.attempt_timeout_floor)
            ⊎ (elapsed + left * (time + policy.attempt_timeout_margin) ≤ budget))
unfolding attempt_timeout
attempt_timeout_shares policy budget elapsed left some_left =
    let margin = policy.attempt_timeout_margin in
    ground (
      arith,
      share_fits (budget - elapsed) left margin ((budget - elapsed) / max 1 left - margin)
          some_left,
    )

-- A wait for a key lasts at least half a second and at most ten seconds, not longer than until the
-- first key is free; under a budget it leaves the time of an attempt's floor.
wait_for_credential_bounds :
    (policy : RetryPolicy) (budget elapsed wait pause : ℕ)
    → wait_for_credential policy budget elapsed (some wait) ≡ some pause
    → ((5000 ≤ pause) × (pause ≤ 100000))
      × (pause ≤ wait)
      × ((budget ≡ 0) ⊎ (elapsed + pause + policy.attempt_timeout_floor ≤ budget))
unfolding wait_for_credential
wait_for_credential_bounds policy budget elapsed wait pause waited = ground arith
