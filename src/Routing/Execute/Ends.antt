-- ===== src/Routing/Execute/Ends.antt =====
-- `execute` always ends: the budget of attempts stops the loop over the attempts with a key.
use zk_ai.Prelude.{
  ℕ, zero, suc, ◌+◌, ◌≤◌, ◌<◌, ◌≡◌, refl, sym, subst, one_of, Bool, true, false, Option, none, some,
  List, [], ◌∷◌, leb, if◌then◌else◌, arith,
}
use zk_ai.Errors.{Result, ok, raise}
use zk_ai.Retry.Info.{ErrorInfo}
use zk_ai.Retry.Classifier.{classify}
use zk_ai.Credentials.Runtime.{CredentialRuntime}
use zk_ai.Credentials.Pool.{CredentialPool}
use zk_ai.Routing.Deployments.{Deployments, Candidate}
use zk_ai.Routing.Decide.{Next, decide}
use zk_ai.Routing.Execute.{
  Attempt, Upstream, Job, Run, Reply, Finish, Step, go, finish, attempt, on_reply, on_response,
  on_cancelled, on_classified, after_failure, note_failure, dispatched, call_of, normalized,
}
use zk_ai.Routing.Execute.Loop.{
  retried, retry_loop, admit_key, after_key, key_turn, try_keys, keys_for, with_keys,
  after_deployment, enter, enter_unless, skip_or_enter, visit, serve, serve_plan, execute, Outcome,
  note_no_key, note_no_adapter,
}

-- A retry happens only below the budget, and counts.
abbrev pub Counts : ℕ → ℕ → Step → Type 0
Counts most number (go Next.retry run) = (run.attempt_number ≡ number + 1) × (number < most)
Counts most number step = Unit

pub after_failure-Counts :
    (job : Job) (up : Upstream) (c : Candidate) (info : ErrorInfo) (run : Run) (next : Next)
    (most number : ℕ)
    → run.attempt_number ≡ number + 1
    → number < most
    → Counts most number (after_failure job up c info run next)
after_failure-Counts job up c info run Next.retry most number h low = (h, low)
after_failure-Counts job up c info run Next.credential most number h low = tt
after_failure-Counts job up c info run Next.deployment most number h low = tt
after_failure-Counts job up c info run Next.abort most number h low = tt
after_failure-Counts job up c info run Next.success most number h low = tt

note_failure-number :
    (up : Upstream) (c : Candidate) (key : CredentialRuntime) (took : ℕ) (info : ErrorInfo)
    (run : Run)
    → (note_failure up c key took info run).attempt_number ≡ run.attempt_number
unfolding note_failure
note_failure-number up c key took info run = refl

on_classified-Counts :
    (job : Job) (up : Upstream) (c : Candidate) (key : CredentialRuntime) (retries took : ℕ)
    (run : Run) (r : Result ErrorInfo) (most number : ℕ)
    → run.attempt_number ≡ number + 1
    → number < most
    → Counts most number (on_classified job up c key retries took run r)
unfolding on_cancelled
on_classified-Counts job up c key retries took run (ok e) most number h low =
    let info = normalized run.pool key e in
    after_failure-Counts job up c info (note_failure up c key took info run)
      (decide job.policy info retries) most number (unfold note_failure in h) low
on_classified-Counts job up c key retries took run (raise e) most number h low = tt

on_reply-Counts :
    (job : Job) (up : Upstream) (c : Candidate) (key : CredentialRuntime) (retries took : ℕ)
    (run : Run) (reply : Reply) (most number : ℕ)
    → run.attempt_number ≡ number + 1
    → number < most
    → Counts most number (on_reply job up c key retries took run reply)
unfolding on_response
on_reply-Counts job up c key retries took run (Reply.response n) most number h low = tt
on_reply-Counts job up c key retries took run (Reply.raised e) most number h low =
    on_classified-Counts job up c key retries took run (classify job.classifier e none) most number
      h low

pub if-Counts :
    (b : Bool) (most number : ℕ) (f : Finish) (run : Run) (step : Step)
    → (b ≡ false → Counts most number step)
    → Counts most number (if b then finish f run else step)
if-Counts true most number f run step h = tt
if-Counts false most number f run step h = h refl

attempt-Counts :
    (job : Job) (up : Upstream) (c : Candidate) (key : CredentialRuntime) (retries : ℕ) (run : Run)
    → Counts job.policy.max_total_attempts run.attempt_number (attempt job up c key retries run)
unfolding attempt
attempt-Counts job up c key retries run =
    if-Counts (leb job.policy.max_total_attempts run.attempt_number) _ _ _ run _ (λ below.
      if-Counts _ _ _ _ run _ (λ _.
        let call = call_of job up c key run in
        on_reply-Counts job up c key retries call.0 (dispatched run call.0) call.1
          job.policy.max_total_attempts run.attempt_number refl (ground (arith, below))))

abbrev pub Ends {ℓ} : {A : Type ℓ} → Option A → Type 0
Ends none = ⊥
Ends (some a) = Unit

retried-Ends :
    (loop : Run → Option Step) (step : Step) (most number : ℕ)
    → Counts most number step
    → ((run : Run) → run.attempt_number ≡ number + 1 → number < most → Ends (loop run))
    → Ends (retried loop step)
retried-Ends loop (go Next.retry run) most number counts h = h run counts.0 counts.1
retried-Ends loop (go Next.credential run) most number counts h = tt
retried-Ends loop (go Next.deployment run) most number counts h = tt
retried-Ends loop (go Next.abort run) most number counts h = tt
retried-Ends loop (go Next.success run) most number counts h = tt
retried-Ends loop (finish f run) most number counts h = tt

-- Every retry counts, and happens only below the budget.
abbrev pub AllCount : Job → Attempt → Type 1
AllCount job try_once =
    (c : Candidate) (key : CredentialRuntime) (retries : ℕ) (run : Run)
    → Counts job.policy.max_total_attempts run.attempt_number (try_once c key retries run)

module _ (job : Job) (try_once : Attempt) (count : AllCount job try_once) (c : Candidate) where
  retry_loop-Ends :
      (key : CredentialRuntime) (fuel retries : ℕ) (run : Run)
      → job.policy.max_total_attempts < fuel + run.attempt_number
      → 1 ≤ fuel
      → Ends (retry_loop job try_once c key fuel retries run)
  unfolding retry_loop
  retry_loop-Ends key zero retries run enough some_fuel = absurd (omega arith)
  retry_loop-Ends key (suc fuel) retries run enough some_fuel =
      retried-Ends (retry_loop job try_once c key fuel (suc retries)) (try_once c key retries run)
        job.policy.max_total_attempts run.attempt_number (count c key retries run)
        (λ run' counted below.
          retry_loop-Ends key fuel (suc retries) run' (omega (arith, counted, enough))
            (omega (arith, enough, below)))

  abbrev fuel_of : ℕ
  fuel_of = suc job.policy.max_total_attempts

  after_key-Ends :
      (rest : Run → Option Step) (o : Option Step)
      → Ends o
      → ((run : Run) → Ends (rest run))
      → Ends (after_key rest o)
  after_key-Ends rest none ended h = elim ended [ ]
  after_key-Ends rest (some (go Next.deployment run)) ended h = tt
  after_key-Ends rest (some (go Next.credential run)) ended h = h run
  after_key-Ends rest (some (go Next.retry run)) ended h = h run
  after_key-Ends rest (some (go Next.abort run)) ended h = h run
  after_key-Ends rest (some (go Next.success run)) ended h = h run
  after_key-Ends rest (some (finish f run)) ended h = tt

  key_turn-Ends :
      (rest loop : Run → Option Step) (admitted : Run × Bool)
      → ((run : Run) → Ends (loop run))
      → ((run : Run) → Ends (rest run))
      → Ends (key_turn rest loop admitted)
  key_turn-Ends rest loop (run, false) hl h = h run
  key_turn-Ends rest loop (run, true) hl h = after_key-Ends rest (loop run) (hl run) h

  try_keys-Ends :
      (keys : List CredentialRuntime) (run : Run) → Ends (try_keys job try_once c fuel_of keys run)
  unfolding try_keys
  try_keys-Ends [] run = tt
  try_keys-Ends (key ∷ keys) run =
      key_turn-Ends (try_keys job try_once c fuel_of keys) (retry_loop job try_once c key fuel_of 0)
        (admit_key c key run) (λ r. retry_loop-Ends key fuel_of 0 r (omega arith) (omega arith))
        (try_keys-Ends keys)

  after_deployment-Ends :
      (rest : Run → Option Outcome) (o : Option Step)
      → Ends o
      → ((run : Run) → Ends (rest run))
      → Ends (after_deployment rest o)
  after_deployment-Ends rest none ended h = elim ended [ ]
  after_deployment-Ends rest (some (go next run)) ended h = h run
  after_deployment-Ends rest (some (finish f run)) ended h = tt

  with_keys-Ends :
      (rest : Run → Option Outcome) (found : Run × List CredentialRuntime)
      → ((run : Run) → Ends (rest run))
      → Ends (with_keys job try_once c fuel_of rest found)
  with_keys-Ends rest (run, []) h = h (note_no_key job c run)
  with_keys-Ends rest (run, key ∷ keys) h =
      after_deployment-Ends rest (try_keys job try_once c fuel_of (key ∷ keys) run)
        (try_keys-Ends (key ∷ keys) run) h

  enter-Ends :
      (rest : Run → Option Outcome) (run : Run) (b : Bool)
      → ((run : Run) → Ends (rest run))
      → Ends (enter job try_once fuel_of rest c run b)
  enter-Ends rest run false h = h (note_no_adapter job c run)
  enter-Ends rest run true h = with_keys-Ends rest (keys_for job c run) h

  skip_or_enter-Ends :
      (rest : Run → Option Outcome) (run : Run) (skip full : Bool)
      → leb job.policy.max_deployments run.deployments_tried ≡ full
      → ((run : Run) → Ends (rest run))
      → Ends (skip_or_enter job try_once fuel_of rest c run skip)
  skip_or_enter-Ends rest run true full same h = h run
  skip_or_enter-Ends rest run false true same h =
      subst (λ b. Ends (enter_unless job try_once fuel_of rest c run b)) (sym same) tt
  skip_or_enter-Ends rest run false false same h =
      subst (λ b. Ends (enter_unless job try_once fuel_of rest c run b)) (sym same)
        (enter-Ends rest _ (one_of c.provider_id job.adapters) h)

  visit-Ends :
      (rest : Run → Option Outcome) (run : Run)
      → ((run : Run) → Ends (rest run))
      → Ends (visit job try_once fuel_of rest c run)
  unfolding visit
  visit-Ends rest run h = skip_or_enter-Ends rest run _ _ refl h

serve-Ends :
    (plan : List Candidate) (job : Job) (try_once : Attempt)
    → AllCount job try_once
    → (run : Run) → Ends (serve job try_once (suc job.policy.max_total_attempts) plan run)
unfolding serve
serve-Ends [] job try_once count run = tt
serve-Ends (c ∷ plan) job try_once count run =
    visit-Ends job try_once count c (serve job try_once (suc job.policy.max_total_attempts) plan)
      run (serve-Ends plan job try_once count)

pub serve_plan-Ends :
    (job : Job) (try_once : Attempt) (plan : List Candidate) (preserve_front : Bool)
    (pool : CredentialPool) (deployments : Deployments)
    → AllCount job try_once
    → Ends (
        serve_plan job try_once
          (suc job.policy.max_total_attempts)
          plan
          preserve_front
          pool
          deployments)
unfolding serve_plan
serve_plan-Ends job try_once plan preserve_front pool deployments count =
    serve-Ends _ job try_once count _

-- Whatever the upstream answers, and at whatever state, `execute` comes to an end: fuel for one
-- attempt more than the budget is enough for every plan.
pub execute-Ends :
    (job : Job) (up : Upstream) (plan : List Candidate) (preserve_front : Bool)
    (pool : CredentialPool) (deployments : Deployments)
    → Ends (execute job up (suc job.policy.max_total_attempts) plan preserve_front pool deployments)
unfolding execute
execute-Ends job up plan preserve_front pool deployments =
    serve_plan-Ends job (attempt job up) plan preserve_front pool deployments
      (attempt-Counts job up)
