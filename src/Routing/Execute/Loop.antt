-- ===== src/Routing/Execute/Loop.antt =====
-- app/routing/scheduler.py: the loops of `execute` and of `stream`, over the deployments of the plan, over the keys
-- of a deployment and over the attempts with a key. The last one may go on for as long as attempts
-- are left, so it has fuel; `none` means that the fuel ran out. The plan, which is the router's,
-- is an argument.
use zk_ai.Prelude.{
  ℕ, zero, suc, ◌+◌, ◌-◌, ◌/◌, String, Bool, true, false, not, ◌||◌, Option, none, some, List, [],
  ◌∷◌, ◌++◌, leb, ◌==◌, one_of, take, if◌then◌else◌,
}
use zk_ai.Prelude.Text.{◌⧺◌, decimal}
use zk_ai.Prelude.Round.{second}
use zk_ai.Errors.{ErrorKind, new_error, Exn, Result, ok, raise}
use zk_ai.Retry.Info.{ErrorInfo}
use zk_ai.Retry.Classifier.{classify}
use zk_ai.Credentials.Runtime.{CredentialRuntime}
use zk_ai.Credentials.Pool.{CredentialPool, candidates}
use zk_ai.Credentials.Pool.Waits.{next_available_in}
use zk_ai.Routing.Limits.{RateLimiter, admit}
use zk_ai.Routing.Deployments.{
  Deployments, Candidate, deployment_cooling_down, apply_deployment_affinity,
}
use zk_ai.Routing.Decide.{Next, exhausted, wait_for_credential}
use zk_ai.Routing.Execute.{
  Upstream, Job, Run, Attempt, Finish, Step, go, finish, AttemptStatus, attempt_outcome,
  record_attempt, attempt,
}

-- A retry goes on with the loop, anything else leaves it.
abbrev pub retried : (Run → Option Step) → Step → Option Step
retried loop (go Next.retry run) = loop run
retried loop (go next run) = some (go next run)
retried loop (finish f run) = some (finish f run)

unfoldable pub retry_loop :
    Job → Attempt → Candidate → CredentialRuntime → ℕ → ℕ → Run → Option Step
retry_loop job try_once candidate credential zero retries_done run = none
retry_loop job try_once candidate credential (suc fuel) retries_done run =
    retried (retry_loop job try_once candidate credential fuel (suc retries_done))
      (try_once candidate credential retries_done run)

abbrev pub admit_under_limiter :
    Candidate → CredentialRuntime → Run → Option RateLimiter → Run × Bool
admit_under_limiter candidate credential run none = (run, true)
admit_under_limiter candidate credential run (some limiter) =
    let answer = admit limiter candidate.provider_id credential.id credential.tags run.now in
    (record run { pool = record run.pool { rate_limiter = some answer.0 } }, answer.1)

-- `_admit`
unfoldable pub admit_key : Candidate → CredentialRuntime → Run → Run × Bool
admit_key candidate credential run =
    admit_under_limiter candidate credential run run.pool.rate_limiter

-- After the loop of a key: the next key, the next deployment, or the end.
abbrev pub after_key : (Run → Option Step) → Option Step → Option Step
after_key rest none = none
after_key rest (some (go Next.deployment run)) = some (go Next.deployment run)
after_key rest (some (go next run)) = rest run
after_key rest (some (finish f run)) = some (finish f run)

-- A key that is not admitted is passed over.
abbrev pub key_turn : (Run → Option Step) → (Run → Option Step) → Run × Bool → Option Step
key_turn rest loop (run, false) = rest run
key_turn rest loop (run, true) = after_key rest (loop run)

-- `for credential in credentials`
unfoldable pub try_keys : Job → Attempt → Candidate → ℕ → List CredentialRuntime → Run → Option Step
try_keys job try_once candidate fuel [] run = some (go Next.credential run)
try_keys job try_once candidate fuel (credential ∷ keys) run =
    key_turn (try_keys job try_once candidate fuel keys)
      (retry_loop job try_once candidate credential fuel 0) (admit_key candidate credential run)

-- `_credentials_for`
unfoldable pub credentials_for : Job → Candidate → Run → Run × List CredentialRuntime
credentials_for job candidate run =
    let found = candidates run.pool candidate.provider_id [] false job.session_key run.now in
    (record run { pool = found.0 }, take job.policy.max_credentials_per_deployment found.1)

-- `_wait_for_credential`, and the second look if the scheduler has waited.
abbrev pub look_again : Job → Candidate → Run → Option ℕ → Run × List CredentialRuntime
look_again job candidate run none = (run, [])
look_again job candidate run (some pause) =
    credentials_for job candidate (record run { now = run.now + pause })

abbrev pub wait_if_none :
    Job → Candidate → Run × List CredentialRuntime → Run × List CredentialRuntime
wait_if_none job candidate (run, []) =
    let wait = next_available_in run.pool candidate.provider_id run.now in
    look_again job candidate (record run { pool = wait.0 })
      (wait_for_credential job.policy job.max_request_seconds (run.now - job.wall_start) wait.1)
wait_if_none job candidate (run, key ∷ keys) = (run, key ∷ keys)

unfoldable pub keys_for : Job → Candidate → Run → Run × List CredentialRuntime
keys_for job candidate run = wait_if_none job candidate (credentials_for job candidate run)

-- Classification of an error of the gateway itself, which is never raised again.
abbrev pub classified : Result ErrorInfo → List ErrorInfo
classified (ok info) = info ∷ []
classified (raise e) = []

abbrev pub waiting_text : Option ℕ → String
waiting_text none = String.[]
waiting_text (some wait) =
    if wait == 0 then String.[] else "（约 " ⧺ decimal (wait / second + 1) ⧺ " 秒后自动恢复）"

-- `_no_credential_info`, and the attempt that is recorded for it without a key.
unfoldable pub note_no_key : Job → Candidate → Run → Run
note_no_key job candidate run =
    let wait = next_available_in run.pool candidate.provider_id run.now in
    let error =
      new_error ErrorKind.no_available_credential_error
        ("供应商 " ⧺ candidate.provider_id ⧺ " 当前没有可用的 Key" ⧺ waiting_text wait.1)
        (some candidate.provider_id) none none wait.1 in
    let infos = classified (classify job.classifier (Exn.zkai error) none) in
    let number = run.attempt_number + 1 in
    record_attempt
      (record run { pool = wait.0; attempt_number = number; errors = run.errors ++ infos })
      (attempt_outcome candidate none number run.now run.now AttemptStatus.error
        (elim infos [ [] ↦ none | info ∷ _ ↦ some info ]) 0)

-- `_adapter_or_none` without an adapter: the error is noted, and no attempt.
unfoldable pub note_no_adapter : Job → Candidate → Run → Run
note_no_adapter job candidate run =
    let error =
      new_error ErrorKind.provider_not_found_error
        ("provider '" ⧺ candidate.provider_id ⧺ "' is unknown or disabled")
        (some candidate.provider_id) none none none in
    record run { errors = run.errors ++ classified (classify job.classifier (Exn.zkai error) none) }

-- The result of `execute`, with the state in which it leaves things.
abbrev pub Outcome : Type 1
Outcome = Finish × Run

-- After the keys of a deployment: the next deployment, or the end.
abbrev pub after_deployment : (Run → Option Outcome) → Option Step → Option Outcome
after_deployment rest none = none
after_deployment rest (some (go next run)) = rest run
after_deployment rest (some (finish f run)) = some (f, run)

abbrev pub with_keys :
    Job
    → Attempt
    → Candidate
    → ℕ
    → (Run → Option Outcome)
    → Run × List CredentialRuntime
    → Option Outcome
with_keys job try_once candidate fuel rest (run, []) = rest (note_no_key job candidate run)
with_keys job try_once candidate fuel rest (run, key ∷ keys) =
    after_deployment rest (try_keys job try_once candidate fuel (key ∷ keys) run)

module _ (job : Job) (try_once : Attempt) (fuel : ℕ) (rest : Run → Option Outcome)
    (candidate : Candidate) where
  -- Has the provider an adapter?
  abbrev pub enter : Run → Bool → Option Outcome
  enter run false = rest (note_no_adapter job candidate run)
  enter run true = with_keys job try_once candidate fuel rest (keys_for job candidate run)

  -- Has the request tried as many deployments as it may?
  abbrev pub enter_unless : Run → Bool → Option Outcome
  enter_unless run true = some (Finish.failed (exhausted run.errors), run)
  enter_unless run false =
      enter (record run { deployments_tried = run.deployments_tried + 1 })
        (one_of candidate.provider_id job.adapters)

  -- Is the candidate passed over?
  abbrev pub skip_or_enter : Run → Bool → Option Outcome
  skip_or_enter run true = rest run
  skip_or_enter run false = enter_unless run (leb job.policy.max_deployments run.deployments_tried)

  -- The body of the loop over the plan.
  unfoldable pub visit : Run → Option Outcome
  visit run = skip_or_enter run (
      not candidate.eligible
      || deployment_cooling_down run.deployments candidate.deployment_id run.now)

-- `for candidate in decision.candidates`
unfoldable pub serve : Job → Attempt → ℕ → List Candidate → Run → Option Outcome
serve job try_once fuel [] run = some (Finish.failed (exhausted run.errors), run)
serve job try_once fuel (candidate ∷ plan) run =
    visit job try_once fuel (serve job try_once fuel plan) candidate run

-- The candidates of the plan in the order that the session prefers, at the start of a request.
abbrev pub start : Job → CredentialPool → Deployments → Run
start job pool deployments = record {
  pool = pool;
  deployments = deployments;
  now = job.wall_start;
  attempt_number = 0;
  deployments_tried = 0;
  attempts = [];
  errors = [];
  stream_open_retries = 0;
  events = [];
}

-- What `execute` and `stream` have in common, of a plan and at a state of the pool and the deployments.
unfoldable pub serve_plan :
    Job → Attempt → ℕ → List Candidate → Bool → CredentialPool → Deployments → Option Outcome
serve_plan job try_once fuel plan preserve_front pool deployments =
    let sticky =
      apply_deployment_affinity deployments plan job.session_key preserve_front job.wall_start in
    serve job try_once fuel sticky.1.0 (start job pool sticky.0)

unfoldable pub execute :
    Job → Upstream → ℕ → List Candidate → Bool → CredentialPool → Deployments → Option Outcome
unfolding serve_plan
execute job up fuel plan preserve_front pool deployments =
    serve_plan job (attempt job up) fuel plan preserve_front pool deployments
