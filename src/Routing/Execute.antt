-- ===== src/Routing/Execute.antt =====
-- app/routing/scheduler.py: what `execute` keeps while it serves a request, and the end of one
-- attempt. Times are in ticks of 0.1 ms; `now` is the clock, which moves while an adapter is
-- called and while the scheduler sleeps. Log lines and context variables are left out.
pub mod Loop
pub mod Ends
pub mod Sound
pub mod Trail
pub mod Kept
pub mod Stream
use zk_ai.Prelude.{
  ℕ, suc, ◌+◌, ◌-◌, ◌*◌, ◌≡◌, min, max, String, Bool, true, false, not, ◌&&◌, ◌||◌, Option, none,
  some, List, [], ◌∷◌, ◌++◌, ltb, leb, ◌==◌, length, take, if◌then◌else◌,
}
use zk_ai.Prelude.Text.{slice_to, is_empty}
use zk_ai.Prelude.Round.{Uniform}
use zk_ai.Errors.{ErrorKind, ZkaiError, new_error, Exn, Result, ok, raise}
use zk_ai.Retry.Throttle.{kind_value}
use zk_ai.Retry.Info.{ErrorInfo, to_error}
use zk_ai.Retry.Classifier.{ErrorClassifier, classify}
use zk_ai.Retry.Policy.{RetryPolicy, delay_for}
use zk_ai.Credentials.Runtime.{CredentialRuntime}
use zk_ai.Credentials.Pool.{CredentialPool, candidates}
use zk_ai.Credentials.Pool.Reports.{
  release, report_success, report_failure, note_affinity, effective_throttle_scope,
}
use zk_ai.Credentials.Pool.Waits.{next_available_in}
use zk_ai.Routing.Limits.{RateLimiter, admit, note_tokens}
use zk_ai.Routing.Deployments.{
  Deployments, Candidate, deployment_cooling_down, note_deployment_failure, note_deployment_success,
  note_deployment_affinity, apply_deployment_cooldown,
}
use zk_ai.Routing.Decide.{
  Next, Exhausted, exhausted, decide, normalize_throttle, check_wall_clock, wait_for_credential,
  attempt_timeout,
}

-- What an adapter's `chat` comes to: the tokens of a response, or what it raises.
pub data Reply : Type 0 where
  response : ℕ → Reply
  raised : Exn → Reply

-- The time that a call takes, and its end.
abbrev pub Call : Type 0
Call = ℕ × Reply

-- What the stream of an adapter is made of: the characters of a chunk's text, and the total of the
-- usage that it carries.
pub record Chunk : Type 0 where
  pub characters : ℕ
  pub usage_total : Option ℕ

-- An adapter's `stream`: it fails to open, ends without a chunk, or gives its chunks, at least one,
-- and ends, by an exception perhaps.
pub data Feed : Type 0 where
  refused : Exn → Feed
  silent : Feed
  opened : Chunk → List Chunk → Option Exn → Feed

-- The time until a stream opens, what comes of it, and the time until it ends.
abbrev pub Opening : Type 0
Opening = ℕ × Feed × ℕ

-- What lies outside: the adapters' answers to each attempt, by deployment, key, number and time
-- limit, the estimate of the tokens of the request, and the random draws of each attempt.
pub record Upstream : Type 0 where
  pub chat : String → String → ℕ → ℕ → Call
  pub stream : String → String → ℕ → ℕ → Opening
  pub estimated_input_tokens : ℕ
  pub cooldown_draw : ℕ → Uniform
  pub delay_draw : ℕ → Uniform

-- The scheduler's settings and the request, as far as `execute` reads them.
pub record Job : Type 0 where
  pub policy : RetryPolicy
  pub classifier : ErrorClassifier
  pub max_request_seconds : ℕ
  pub session_key : Option String
  -- the providers with an adapter (`_adapters` of the router)
  pub adapters : List String
  pub wall_start : ℕ
  -- `len(decision.candidates)`
  pub plan_length : ℕ

pub data AttemptStatus : Type 0 where
  success error cancelled : AttemptStatus

pub record AttemptOutcome : Type 0 where
  pub attempt_number : ℕ
  pub deployment_id : String
  pub credential_id : Option String
  pub started_at : ℕ
  pub finished_at : ℕ
  pub status : AttemptStatus
  pub error_type : Option String
  pub tokens : ℕ

-- What `stream` yields: a chunk with this many characters, an error, the usage, the end. The event
-- `meta`, which only describes, is left out.
pub data StreamEvent : Type 0 where
  chunk : ℕ → StreamEvent
  error : ZkaiError → StreamEvent
  usage : ℕ → StreamEvent
  end : StreamEvent

-- The local variables of `execute` and of `stream`, with the state that they share with other
-- requests. `stream_open_retries` and what has been yielded are those of `stream`.
pub record Run : Type 1 where
  pub pool : CredentialPool
  pub deployments : Deployments
  pub now : ℕ
  pub attempt_number : ℕ
  pub deployments_tried : ℕ
  pub attempts : List AttemptOutcome
  pub errors : List ErrorInfo
  pub stream_open_retries : ℕ
  pub events : List StreamEvent

-- How a request ends: with a response of a deployment and a key, with the end of a stream of theirs,
-- or by what is raised.
pub data Finish : Type 0 where
  answered streamed : String → String → ℕ → Finish
  failed : Exhausted → Finish
  aborted : ZkaiError → Finish
  over_budget : Finish
  cancelled : Finish

-- The end of an attempt: it ends the request, it is repeated, or the loop goes on as `_Next` says.
pub data Step : Type 1 where
  go : Next → Run → Step
  finish : Finish → Run → Step

-- One round of the `while True` loop, with the retries that were made with the key.
abbrev pub Attempt : Type 1
Attempt = Candidate → CredentialRuntime → ℕ → Run → Step

-- `_attempt_outcome`
abbrev pub attempt_outcome :
    Candidate → Option String → ℕ → ℕ → ℕ → AttemptStatus → Option ErrorInfo → ℕ → AttemptOutcome
attempt_outcome candidate credential number started finished status info tokens = record {
  attempt_number = number;
  deployment_id = candidate.deployment_id;
  credential_id = credential;
  started_at = started;
  finished_at = finished;
  status = status;
  error_type = elim info [ none ↦ none | some i ↦ some i.error_type ];
  tokens = tokens;
}

-- `attempts.append(...)`
abbrev pub record_attempt : Run → AttemptOutcome → Run
record_attempt run outcome = record run { attempts = run.attempts ++ outcome ∷ [] }

-- `_note_tokens`: only with a rate limiter.
abbrev pub count_tokens :
    CredentialPool → Candidate → CredentialRuntime → ℕ → ℕ → Option RateLimiter → CredentialPool
count_tokens pool candidate credential tokens moment none = pool
count_tokens pool candidate credential tokens moment (some limiter) = record pool {
  rate_limiter =
      some (note_tokens limiter candidate.provider_id credential.id credential.tags tokens moment);
}

-- After a response: the pool, the pins, the deployment and the quotas learn of it. `latency` is the
-- time of the call in thousandths of a millisecond.
unfoldable pub on_response : Job → Candidate → CredentialRuntime → ℕ → ℕ → Run → Step
on_response job candidate credential took tokens run =
    let pool = (report_success run.pool credential.id (took * 100) run.now).0 in
    let pool = note_affinity pool job.session_key credential.id run.now in
    let deployments =
      note_deployment_affinity run.deployments pool.affinity_ttl pool.affinity_max_sessions
        job.session_key candidate.deployment_id run.now in
    let pool = count_tokens pool candidate credential tokens run.now pool.rate_limiter in
    finish (Finish.answered candidate.deployment_id credential.id tokens) (
      record_attempt
        (record run {
          pool = pool;
          deployments = note_deployment_success deployments candidate.deployment_id;
        })
        (attempt_outcome candidate (some credential.id) run.attempt_number (run.now - took) run.now
          AttemptStatus.success none tokens))

-- `asyncio.CancelledError`: the key is released, and the cancellation raised again.
unfoldable pub on_cancelled : Candidate → CredentialRuntime → ℕ → Run → Step
on_cancelled candidate credential took run = finish Finish.cancelled (
    record_attempt (record run { pool = release run.pool credential.id })
      (attempt_outcome candidate (some credential.id) run.attempt_number (run.now - took) run.now
        AttemptStatus.cancelled none 0))

-- What a failure changes, before the decision.
unfoldable pub note_failure : Upstream → Candidate → CredentialRuntime → ℕ → ErrorInfo → Run → Run
note_failure up candidate credential took info run =
    let run = record run {
      errors = run.errors ++ info ∷ [];
      pool =
          (report_failure run.pool credential.id info run.now
            (up.cooldown_draw run.attempt_number)).0;
    } in
    let run = record_attempt run (
      attempt_outcome candidate (some credential.id) run.attempt_number (run.now - took) run.now
        AttemptStatus.error (some info) 0) in
    record run {
      deployments =
          note_deployment_failure
            (apply_deployment_cooldown run.deployments candidate.deployment_id info run.now).0
            candidate.deployment_id info run.now;
    }

-- What follows from the decision: the error is raised, or the loop goes on, a retry after a delay.
abbrev pub after_failure : Job → Upstream → Candidate → ErrorInfo → Run → Next → Step
after_failure job up candidate info run Next.abort =
    finish (Finish.aborted (to_error info (some candidate.provider_id) (some candidate.model))) run
after_failure job up candidate info run Next.retry = go Next.retry (record run {
  now = run.now + delay_for job.policy run.attempt_number info (up.delay_draw run.attempt_number);
})
after_failure job up candidate info run next = go next run

-- `_normalize_throttle`, with the scope that the pool answers.
abbrev pub normalized : CredentialPool → CredentialRuntime → ErrorInfo → ErrorInfo
normalized pool credential info =
    normalize_throttle info
      (some (effective_throttle_scope pool credential.id (kind_value info.throttle_kind)))

-- The handler of an exception, once it is classified; only a cancellation is not.
abbrev pub on_classified :
    Job → Upstream → Candidate → CredentialRuntime → ℕ → ℕ → Run → Result ErrorInfo → Step
on_classified job up candidate credential retries_done took run (ok classified) =
    let info = normalized run.pool credential classified in
    after_failure job up candidate info (note_failure up candidate credential took info run)
      (decide job.policy info retries_done)
on_classified job up candidate credential retries_done took run (raise e) =
    on_cancelled candidate credential took run

abbrev pub on_reply : Job → Upstream → Candidate → CredentialRuntime → ℕ → ℕ → Run → Reply → Step
on_reply job up candidate credential retries_done took run (Reply.response tokens) =
    on_response job candidate credential took tokens run
on_reply job up candidate credential retries_done took run (Reply.raised e) =
    on_classified job up candidate credential retries_done took run (classify job.classifier e none)

-- The attempt is numbered and the adapter called; the clock stands at the end of the call.
abbrev pub dispatched : Run → ℕ → Run
dispatched run took = record run { attempt_number = run.attempt_number + 1; now = run.now + took }

abbrev pub call_of : Job → Upstream → Candidate → CredentialRuntime → Run → Call
call_of job up candidate credential run =
    up.chat candidate.deployment_id credential.id (run.attempt_number + 1) (
      attempt_timeout job.policy job.max_request_seconds (run.now - job.wall_start)
        ((job.plan_length - run.deployments_tried) + 1))

unfoldable pub attempt : Job → Upstream → Attempt
attempt job up candidate credential retries_done run =
    if leb job.policy.max_total_attempts run.attempt_number
    then finish (Finish.failed (exhausted run.errors)) run
    else if not (check_wall_clock job.max_request_seconds (run.now - job.wall_start))
    then finish Finish.over_budget run
    else (let call = call_of job up candidate credential run in
        on_reply job up candidate credential retries_done call.0 (dispatched run call.0) call.1)
