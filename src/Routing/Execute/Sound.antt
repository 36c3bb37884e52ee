-- ===== src/Routing/Execute/Sound.antt =====
-- What `execute` keeps of the state that it shares with other requests.
use zk_ai.Prelude.{
  ℕ, ◌*◌, ◌-◌, String, Bool, true, false, not, Option, none, some, List, [], ◌∷◌, leb,
  if◌then◌else◌,
}
use zk_ai.Prelude.Text.{is_empty}
use zk_ai.Errors.{Result, ok, raise}
use zk_ai.Retry.Info.{ErrorInfo}
use zk_ai.Retry.Classifier.{classify}
use zk_ai.Credentials.Runtime.{CredentialRuntime}
use zk_ai.Credentials.Pool.{CredentialPool}
use zk_ai.Credentials.Pool.Reports.{note_affinity, note_named, pin_session}
use zk_ai.Credentials.Pool.Sound.{
  IsSoundPool, report_success-IsSoundPool, report_failure-IsSoundPool, release-IsSoundPool,
  candidates-IsSoundPool, next_available_in-IsSoundPool,
}
use zk_ai.Routing.Limits.{RateLimiter}
use zk_ai.Routing.Deployments.{Deployments, Candidate}
use zk_ai.Routing.Decide.{Next, decide, check_wall_clock}
use zk_ai.Routing.Execute.{
  Upstream, Job, Attempt, Run, Reply, Step, attempt, on_reply, on_response, on_cancelled,
  on_classified, after_failure, note_failure, dispatched, call_of, normalized, count_tokens,
}
use zk_ai.Routing.Execute.Loop.{
  admit_key, admit_under_limiter, keys_for, credentials_for, wait_if_none, look_again, note_no_key,
  note_no_adapter, execute,
}
use zk_ai.Routing.Execute.Kept.{StepHolds, OutcomeHolds, IsKept, serve-Holds}

abbrev pub HasSoundPool : Run → Type 0
HasSoundPool run = IsSoundPool run.pool

pub count_tokens-IsSoundPool :
    (pool : CredentialPool) (c : Candidate) (key : CredentialRuntime) (tokens moment : ℕ)
    (limiter : Option RateLimiter)
    → IsSoundPool pool
    → IsSoundPool (count_tokens pool c key tokens moment limiter)
count_tokens-IsSoundPool pool c key tokens moment none all = all
count_tokens-IsSoundPool pool c key tokens moment (some limiter) all = all

pub if-IsSoundPool :
    (b : Bool) (x y : CredentialPool)
    → IsSoundPool x
    → IsSoundPool y
    → IsSoundPool (if b then x else y)
if-IsSoundPool true x y hx hy = hx
if-IsSoundPool false x y hx hy = hy

pub note_named-IsSoundPool :
    (pool : CredentialPool) (id : String) (moment : ℕ) (session : Option String)
    → IsSoundPool pool
    → IsSoundPool (note_named pool id moment session)
note_named-IsSoundPool pool id moment none all = all
note_named-IsSoundPool pool id moment (some session) all =
    if-IsSoundPool (is_empty id) pool (pin_session pool id moment session) all all

on_response-HasSoundPool :
    (job : Job) (c : Candidate) (key : CredentialRuntime) (took tokens : ℕ) (run : Run)
    → HasSoundPool run
    → StepHolds HasSoundPool (λ _. HasSoundPool) (on_response job c key took tokens run)
unfolding on_response note_affinity
on_response-HasSoundPool job c key took tokens run all =
    count_tokens-IsSoundPool _ c key tokens run.now _ (
      note_named-IsSoundPool _ key.id run.now _
        (report_success-IsSoundPool key.id run.pool all (took * 100) run.now))

module _ (job : Job) (up : Upstream) (c : Candidate) (key : CredentialRuntime) where
  after_failure-HasSoundPool :
      (info : ErrorInfo) (run : Run) (next : Next)
      → HasSoundPool run
      → StepHolds HasSoundPool (λ _. HasSoundPool) (after_failure job up c info run next)
  after_failure-HasSoundPool info run Next.retry all = all
  after_failure-HasSoundPool info run Next.credential all = all
  after_failure-HasSoundPool info run Next.deployment all = all
  after_failure-HasSoundPool info run Next.abort all = all
  after_failure-HasSoundPool info run Next.success all = all

  on_classified-HasSoundPool :
      (retries took : ℕ) (run : Run) (r : Result ErrorInfo)
      → HasSoundPool run
      → StepHolds HasSoundPool (λ _. HasSoundPool) (on_classified job up c key retries took run r)
  unfolding note_failure on_cancelled
  on_classified-HasSoundPool retries took run (ok e) all =
      let info = normalized run.pool key e in
      after_failure-HasSoundPool info (note_failure up c key took info run)
        (decide job.policy info retries)
        (report_failure-IsSoundPool run.pool key.id info run.now
          (up.cooldown_draw run.attempt_number) all)
  on_classified-HasSoundPool retries took run (raise e) all =
      release-IsSoundPool key.id run.pool all

  on_reply-HasSoundPool :
      (retries took : ℕ) (run : Run) (reply : Reply)
      → HasSoundPool run
      → StepHolds HasSoundPool (λ _. HasSoundPool) (on_reply job up c key retries took run reply)
  on_reply-HasSoundPool retries took run (Reply.response tokens) all =
      on_response-HasSoundPool job c key took tokens run all
  on_reply-HasSoundPool retries took run (Reply.raised e) all =
      on_classified-HasSoundPool retries took run (classify job.classifier e none) all

  if-HasSoundPool :
      (b : Bool) (x y : Step)
      → StepHolds HasSoundPool (λ _. HasSoundPool) x
      → StepHolds HasSoundPool (λ _. HasSoundPool) y
      → StepHolds HasSoundPool (λ _. HasSoundPool) (if b then x else y)
  if-HasSoundPool true x y hx hy = hx
  if-HasSoundPool false x y hx hy = hy

  attempt-HasSoundPool :
      (retries : ℕ) (run : Run)
      → HasSoundPool run
      → StepHolds HasSoundPool (λ _. HasSoundPool) (attempt job up c key retries run)
  unfolding attempt
  attempt-HasSoundPool retries run all =
      let call = call_of job up c key run in
      if-HasSoundPool (leb job.policy.max_total_attempts run.attempt_number) _ _ all (
        if-HasSoundPool (not (check_wall_clock job.max_request_seconds (run.now - job.wall_start)))
          _ _ all (on_reply-HasSoundPool retries call.0 (dispatched run call.0) call.1 all))

admit_under_limiter-HasSoundPool :
    (c : Candidate) (key : CredentialRuntime) (run : Run) (limiter : Option RateLimiter)
    → HasSoundPool run
    → HasSoundPool (admit_under_limiter c key run limiter).0
admit_under_limiter-HasSoundPool c key run none all = all
admit_under_limiter-HasSoundPool c key run (some limiter) all = all

credentials_for-HasSoundPool :
    (job : Job) (c : Candidate) (run : Run)
    → HasSoundPool run
    → HasSoundPool (credentials_for job c run).0
unfolding credentials_for
credentials_for-HasSoundPool job c run all =
    candidates-IsSoundPool run.pool c.provider_id [] false job.session_key run.now all

look_again-HasSoundPool :
    (job : Job) (c : Candidate) (run : Run) (pause : Option ℕ)
    → HasSoundPool run
    → HasSoundPool (look_again job c run pause).0
look_again-HasSoundPool job c run none all = all
look_again-HasSoundPool job c run (some pause) all = credentials_for-HasSoundPool job c _ all

wait_if_none-HasSoundPool :
    (job : Job) (c : Candidate) (found : Run × List CredentialRuntime)
    → HasSoundPool found.0
    → HasSoundPool (wait_if_none job c found).0
wait_if_none-HasSoundPool job c (run, []) all =
    look_again-HasSoundPool job c _ _
      (next_available_in-IsSoundPool run.pool c.provider_id run.now all)
wait_if_none-HasSoundPool job c (run, key ∷ keys) all = all

pub HasSoundPool-IsKept :
    (job : Job) (try_once : Attempt)
    → ((c : Candidate) (key : CredentialRuntime) (retries : ℕ) (run : Run)
        → HasSoundPool run
        → StepHolds HasSoundPool (λ _. HasSoundPool) (try_once c key retries run))
    → IsKept job try_once HasSoundPool (λ _. HasSoundPool)
unfolding admit_key note_no_adapter note_no_key keys_for
HasSoundPool-IsKept job try_once attempted = record {
  attempted = attempted;
  admitted = λ c key run all. admit_under_limiter-HasSoundPool c key run run.pool.rate_limiter all;
  found = λ c run all.
      wait_if_none-HasSoundPool job c (credentials_for job c run)
        (credentials_for-HasSoundPool job c run all);
  no_key = λ c run all. next_available_in-IsSoundPool run.pool c.provider_id run.now all;
  no_adapter = λ c run all. all;
  given_up = λ run all. all;
  tried = λ run below all. all;
}

-- A request leaves the pool sound, whatever the upstream answers and however the request ends: if
-- every key in the pool is filed under its own id and is sound, this is so afterwards.
pub execute-HasSoundPool :
    (job : Job) (up : Upstream) (fuel : ℕ) (plan : List Candidate) (preserve_front : Bool)
    (pool : CredentialPool) (deployments : Deployments)
    → IsSoundPool pool
    → OutcomeHolds HasSoundPool
        (λ _. HasSoundPool)
        (execute job up fuel plan preserve_front pool deployments)
unfolding execute
execute-HasSoundPool job up fuel plan preserve_front pool deployments all =
    serve-Holds _ job (attempt job up) HasSoundPool (λ _. HasSoundPool)
      (HasSoundPool-IsKept job (attempt job up) (attempt-HasSoundPool job up)) fuel _ all
