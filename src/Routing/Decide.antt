-- ===== src/Routing/Decide.antt =====
-- app/routing/scheduler.py: what the scheduler does after an attempt failed, how long the next one
-- may take, and which error the client gets. Times are in ticks of 0.1 ms.
pub mod Outcomes
use zk_ai.Prelude.{
  ℕ, ◌+◌, ◌-◌, ◌*◌, ◌/◌, ◌≡◌, min, max, String, Bool, true, false, not, ◌&&◌, ◌||◌, Option, none,
  some, List, [], ◌∷◌, ltb, leb, ◌==◌, str_eq, if◌then◌else◌,
}
use zk_ai.Prelude.Round.{second}
use zk_ai.Errors.{ErrorKind, ZkaiError, new_error, Exn, Result, ok, raise}
use zk_ai.Retry.Info.{ErrorClass, ErrorInfo, is_request_error, is_throttle}
use zk_ai.Retry.Policy.{RetryPolicy, should_retry}

-- `_Next`, as far as an error leads to it: `SUCCESS` stands for a response.
pub data Next : Type 0 where
  retry credential deployment abort success : Next

unfoldable pub is_abort : ErrorInfo → Bool
is_abort info =
    (is_request_error info && not info.retryable)
    && (not info.switch_credential && not info.switch_provider)

-- `scope` is the pool's answer for the key of the attempt; there is none without a key.
unfoldable pub normalize_throttle : ErrorInfo → Option String → ErrorInfo
normalize_throttle info scope = if not (is_throttle info.error_class) then info else (elim scope [
  | none ↦ info
  | some s ↦
      if str_eq s "credential"
      then info
      else record info { switch_credential = false; switch_provider = true }
])

-- The end of both decisions: another key, another deployment, or the error.
abbrev pub switch_or_abort : ErrorInfo → Next
switch_or_abort info =
    if info.switch_credential
    then Next.credential
    else if info.switch_provider
    then Next.deployment
    else Next.abort

unfoldable pub decide : RetryPolicy → ErrorInfo → ℕ → Next
decide policy info retries_done =
    if is_abort info
    then Next.abort
    else if info.retryable && should_retry policy info retries_done
    then Next.retry
    else switch_or_abort info

unfoldable pub decide_open_stream : RetryPolicy → ErrorInfo → ℕ → Next
decide_open_stream policy info stream_open_retries =
    if is_abort info
    then Next.abort
    else if info.retryable && ltb stream_open_retries policy.stream_open_retries
    then Next.retry
    else switch_or_abort info

-- The time for this attempt, 0 for no limit. The code's quotient is exact, this one is rounded
-- down to a tick.
unfoldable pub attempt_timeout : RetryPolicy → ℕ → ℕ → ℕ → ℕ
attempt_timeout policy max_request_seconds elapsed deployments_left =
    if policy.attempt_timeout_floor == 0 || max_request_seconds == 0
    then 0
    else if leb max_request_seconds elapsed
    then 0
    else max policy.attempt_timeout_floor
        ((max_request_seconds - elapsed) / max 1 deployments_left - policy.attempt_timeout_margin)

-- `_CREDENTIAL_WAIT_SECONDS` and `_CREDENTIAL_WAIT_MIN_SECONDS`
abbrev pub credential_wait : ℕ
credential_wait = 100000

abbrev pub credential_wait_min : ℕ
credential_wait_min = 5000

-- How long the scheduler sleeps until a key is free; `none` if it does not wait.
unfoldable pub wait_for_credential : RetryPolicy → ℕ → ℕ → Option ℕ → Option ℕ
wait_for_credential policy max_request_seconds elapsed none = none
wait_for_credential policy max_request_seconds elapsed (some wait) =
    let pause = min wait credential_wait in
    let pause =
      (if max_request_seconds == 0
        then pause
        else min pause ((max_request_seconds - elapsed) - policy.attempt_timeout_floor)) in
    if wait == 0 then none else if ltb pause credential_wait_min then none else some pause

-- `_check_wall_clock`: true if the budget allows a further attempt. Otherwise the code raises.
unfoldable pub check_wall_clock : ℕ → ℕ → Bool
check_wall_clock max_request_seconds elapsed =
    max_request_seconds == 0 || ltb elapsed max_request_seconds

unfoldable pub client_status_for : ErrorInfo → ℕ
client_status_for info = elim info.error_class [
  | ErrorClass.client ↦ info.client_status
  | ErrorClass.transient ↦ info.client_status
  | ErrorClass.throttle ↦ 429
  | ErrorClass.credential ↦ 503
  | ErrorClass.availability ↦ 503
  | ErrorClass.internal ↦ 502
]

abbrev pub last_error : List ErrorInfo → Option ErrorInfo
last_error [] = none
last_error (info ∷ []) = some info
last_error (info ∷ next ∷ errors) = last_error (next ∷ errors)

-- What the client is told when everything failed. The text of the message is left out.
pub record Exhausted : Type 0 where
  pub http_status : ℕ
  pub error_type : String
  pub retry_after : Option ℕ

-- `if worst and worst.retry_after`
abbrev pub worth_telling : Option ℕ → Option ℕ
worth_telling none = none
worth_telling (some after) = if after == 0 then none else some after

unfoldable pub told : Option ErrorInfo → Exhausted
unfolding client_status_for
told none = record { http_status = 503; error_type = "no_available_deployment"; retry_after = none }
told (some worst) = record {
  http_status = client_status_for worst;
  error_type = worst.error_type;
  retry_after = worth_telling worst.retry_after;
}

abbrev pub exhausted : List ErrorInfo → Exhausted
exhausted errors = told (last_error errors)
