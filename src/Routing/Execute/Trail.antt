-- ===== src/Routing/Execute/Trail.antt =====
-- The audit trail of a request, and its budgets.
use zk_ai.Prelude.{
  ℕ, zero, suc, ◌+◌, ◌<◌, ◌≤◌, ◌≡◌, refl, sym, ap, subst, ◌∙◌, ◌⊎◌, inl, inr, Bool, true, false,
  Option, none, some, List, [], ◌∷◌, ◌++◌, map, leb, arith, is_some, if◌then◌else◌,
}
use mathlib.Core.List.{map-append}
use zk_ai.Errors.{Result, ok, raise}
use zk_ai.Retry.Info.{ErrorInfo}
use zk_ai.Retry.Classifier.{classify}
use zk_ai.Retry.Policy.{RetryPolicy}
use zk_ai.Credentials.Runtime.{CredentialRuntime}
use zk_ai.Credentials.Pool.{CredentialPool}
use zk_ai.Routing.Limits.{RateLimiter}
use zk_ai.Routing.Deployments.{Deployments, Candidate}
use zk_ai.Routing.Decide.{Next, decide, exhausted}
use zk_ai.Routing.Execute.{
  Upstream, Job, Attempt, Run, Reply, Finish, Step, finish, AttemptOutcome, attempt, on_reply,
  on_response, on_cancelled, on_classified, after_failure, note_failure, dispatched, call_of,
  normalized,
}
use zk_ai.Routing.Execute.Loop.{
  admit_key, admit_under_limiter, keys_for, credentials_for, wait_if_none, look_again, note_no_key,
  note_no_adapter, execute,
}
use zk_ai.Routing.Execute.Kept.{StepHolds, OutcomeHolds, IsKept, serve-Holds}

-- The numbers from 1 to `n`.
abbrev pub up_to : ℕ → List ℕ
up_to zero = []
up_to (suc n) = up_to n ++ suc n ∷ []

abbrev pub numbers : List AttemptOutcome → List ℕ
numbers attempts = map (λ o. o.attempt_number) attempts

-- The attempts that went to the upstream, with a key.
abbrev pub sent : List AttemptOutcome → ℕ
sent [] = 0
sent (o ∷ attempts) = (if is_some o.credential_id then 1 else 0) + sent attempts

-- The attempts are numbered without a gap, no more of them went to the upstream than the policy
-- allows, and no more deployments were tried.
abbrev pub Trail : RetryPolicy → List AttemptOutcome → ℕ → ℕ → Type 0
Trail policy attempts number tried =
    (numbers attempts ≡ up_to number)
    × (sent attempts ≤ number)
    × (sent attempts ≤ policy.max_total_attempts)
    × (tried ≤ policy.max_deployments)

abbrev pub IsTrail : RetryPolicy → Run → Type 0
IsTrail policy run = Trail policy run.attempts run.attempt_number run.deployments_tried

sent-append : (xs ys : List AttemptOutcome) → sent (xs ++ ys) ≡ sent xs + sent ys
sent-append [] ys = omega arith
sent-append (o ∷ xs) ys = ground (arith, sent-append xs ys)

numbers-append :
    (attempts : List AttemptOutcome) (o : AttemptOutcome) (n : ℕ)
    → numbers attempts ≡ up_to n
    → o.attempt_number ≡ n + 1
    → numbers (attempts ++ o ∷ []) ≡ up_to (n + 1)
numbers-append attempts o n h same =
    let next : n + 1 ≡ suc n = omega arith in
    map-append (λ x. x.attempt_number) attempts (o ∷ [])
    ∙ ap (λ l. l ++ o.attempt_number ∷ []) h
    ∙ ap (λ m. up_to n ++ m ∷ []) (same ∙ next)
    ∙ ap up_to (sym next)

Trail-append :
    (policy : RetryPolicy) (attempts : List AttemptOutcome) (o : AttemptOutcome) (n tried : ℕ)
    → Trail policy attempts n tried
    → o.attempt_number ≡ n + 1
    → (is_some o.credential_id ≡ false) ⊎ (n < policy.max_total_attempts)
    → Trail policy (attempts ++ o ∷ []) (n + 1) tried
Trail-append policy attempts o n tried h same budget = (
  numbers-append attempts o n h.0 same,
  ground (arith, sent-append attempts (o ∷ []), h.1),
  ground (arith, sent-append attempts (o ∷ []), h.2, h.1, budget),
  h.3,
)

module _ (job : Job) (up : Upstream) (c : Candidate) (key : CredentialRuntime) where
  -- While the adapter is called: the attempt is numbered and not yet recorded.
  abbrev pub IsPending : ℕ → Run → Type 0
  IsPending n run =
      (run.attempt_number ≡ n + 1)
      × (n < job.policy.max_total_attempts)
      × Trail job.policy run.attempts n run.deployments_tried

  pub pending-IsTrail :
      (n : ℕ) (run : Run) (o : AttemptOutcome)
      → IsPending n run
      → o.attempt_number ≡ run.attempt_number
      → Trail job.policy (run.attempts ++ o ∷ []) run.attempt_number run.deployments_tried
  pending-IsTrail n run o h same =
      subst (λ m. Trail job.policy (run.attempts ++ o ∷ []) m run.deployments_tried) (sym h.0)
        (Trail-append job.policy run.attempts o n run.deployments_tried h.2 (same ∙ h.0) (inr h.1))

  after_failure-IsTrail :
      (info : ErrorInfo) (run : Run) (next : Next)
      → IsTrail job.policy run
      → StepHolds
          (IsTrail job.policy)
          (λ _. IsTrail job.policy)
          (after_failure job up c info run next)
  after_failure-IsTrail info run Next.retry h = h
  after_failure-IsTrail info run Next.credential h = h
  after_failure-IsTrail info run Next.deployment h = h
  after_failure-IsTrail info run Next.abort h = h
  after_failure-IsTrail info run Next.success h = h

  on_classified-IsTrail :
      (retries took n : ℕ) (run : Run) (r : Result ErrorInfo)
      → IsPending n run
      → StepHolds
          (IsTrail job.policy)
          (λ _. IsTrail job.policy)
          (on_classified job up c key retries took run r)
  unfolding note_failure on_cancelled
  on_classified-IsTrail retries took n run (ok e) h =
      let info = normalized run.pool key e in
      after_failure-IsTrail info (note_failure up c key took info run)
        (decide job.policy info retries) (pending-IsTrail n run _ h refl)
  on_classified-IsTrail retries took n run (raise e) h = pending-IsTrail n run _ h refl

  on_reply-IsTrail :
      (retries took n : ℕ) (run : Run) (reply : Reply)
      → IsPending n run
      → StepHolds
          (IsTrail job.policy)
          (λ _. IsTrail job.policy)
          (on_reply job up c key retries took run reply)
  unfolding on_response
  on_reply-IsTrail retries took n run (Reply.response tokens) h = pending-IsTrail n run _ h refl
  on_reply-IsTrail retries took n run (Reply.raised e) h =
      on_classified-IsTrail retries took n run (classify job.classifier e none) h

  if-IsTrail :
      (b : Bool) (f : Finish) (run : Run) (step : Step)
      → IsTrail job.policy run
      → (b ≡ false → StepHolds (IsTrail job.policy) (λ _. IsTrail job.policy) step)
      → StepHolds (IsTrail job.policy) (λ _. IsTrail job.policy) (if b then finish f run else step)
  if-IsTrail true f run step h hs = h
  if-IsTrail false f run step h hs = hs refl

  attempt-IsTrail :
      (retries : ℕ) (run : Run)
      → IsTrail job.policy run
      → StepHolds (IsTrail job.policy) (λ _. IsTrail job.policy) (attempt job up c key retries run)
  unfolding attempt
  attempt-IsTrail retries run h =
      if-IsTrail (leb job.policy.max_total_attempts run.attempt_number) _ run _ h (λ below.
        if-IsTrail _ _ run _ h (λ _.
          let call = call_of job up c key run in
          on_reply-IsTrail retries call.0 run.attempt_number (dispatched run call.0) call.1
            (refl, ground (arith, below), h)))

admit_under_limiter-IsTrail :
    (policy : RetryPolicy) (c : Candidate) (key : CredentialRuntime) (run : Run)
    (limiter : Option RateLimiter)
    → IsTrail policy run
    → IsTrail policy (admit_under_limiter c key run limiter).0
admit_under_limiter-IsTrail policy c key run none h = h
admit_under_limiter-IsTrail policy c key run (some limiter) h = h

look_again-IsTrail :
    (job : Job) (c : Candidate) (run : Run) (pause : Option ℕ)
    → IsTrail job.policy run
    → IsTrail job.policy (look_again job c run pause).0
unfolding credentials_for
look_again-IsTrail job c run none h = h
look_again-IsTrail job c run (some pause) h = h

wait_if_none-IsTrail :
    (job : Job) (c : Candidate) (found : Run × List CredentialRuntime)
    → IsTrail job.policy found.0
    → IsTrail job.policy (wait_if_none job c found).0
wait_if_none-IsTrail job c (run, []) h = look_again-IsTrail job c _ _ h
wait_if_none-IsTrail job c (run, key ∷ keys) h = h

keys_for-IsTrail :
    (job : Job) (c : Candidate) (run : Run)
    → IsTrail job.policy run
    → IsTrail job.policy (keys_for job c run).0
unfolding keys_for credentials_for
keys_for-IsTrail job c run h = wait_if_none-IsTrail job c (credentials_for job c run) h

note_no_key-IsTrail :
    (job : Job) (c : Candidate) (run : Run)
    → IsTrail job.policy run
    → IsTrail job.policy (note_no_key job c run)
unfolding note_no_key
note_no_key-IsTrail job c run h =
    Trail-append job.policy run.attempts _ run.attempt_number run.deployments_tried h refl
      (inl refl)

pub IsTrail-IsKept :
    (job : Job) (try_once : Attempt) (Q : Finish → Run → Type 0)
    → ((c : Candidate) (key : CredentialRuntime) (retries : ℕ) (run : Run)
        → IsTrail job.policy run
        → StepHolds (IsTrail job.policy) Q (try_once c key retries run))
    → ((run : Run) → IsTrail job.policy run → Q (Finish.failed (exhausted run.errors)) run)
    → IsKept job try_once (IsTrail job.policy) Q
unfolding admit_key note_no_adapter
IsTrail-IsKept job try_once Q attempted given_up = record {
  attempted = attempted;
  admitted =
      λ c key run h. admit_under_limiter-IsTrail job.policy c key run run.pool.rate_limiter h;
  found = keys_for-IsTrail job;
  no_key = note_no_key-IsTrail job;
  no_adapter = λ c run h. h;
  given_up = given_up;
  tried = λ run below h. (h.0, h.1, h.2, omega (arith, below));
}

-- However a request ends, the attempts that it leaves behind are numbered from 1 without a gap; at
-- most `max_total_attempts` of them went to the upstream, and at most `max_deployments` deployments
-- were tried.
pub execute-IsTrail :
    (job : Job) (up : Upstream) (fuel : ℕ) (plan : List Candidate) (preserve_front : Bool)
    (pool : CredentialPool) (deployments : Deployments)
    → OutcomeHolds
        (IsTrail job.policy)
        (λ _. IsTrail job.policy)
        (execute job up fuel plan preserve_front pool deployments)
unfolding execute
execute-IsTrail job up fuel plan preserve_front pool deployments =
    serve-Holds _ job (attempt job up) (IsTrail job.policy) (λ _. IsTrail job.policy)
      (IsTrail-IsKept job (attempt job up) _ (attempt-IsTrail job up) (λ run h. h)) fuel _
      (refl, omega arith, omega arith, omega arith)
