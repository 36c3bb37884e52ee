-- ===== src/Routing/Execute/Kept.antt =====
-- The rule for what holds all through a request: if each part of the loops keeps `P`, and the end of
-- an attempt that ends the request brings `Q` of that end, then `Q` holds at the end.
use zk_ai.Prelude.{
  ℕ, zero, suc, ◌+◌, ◌<◌, ◌≡◌, refl, Bool, true, false, Option, none, some, List, [], ◌∷◌, leb,
  one_of, arith,
}
use zk_ai.Credentials.Runtime.{CredentialRuntime}
use zk_ai.Routing.Deployments.{Candidate}
use zk_ai.Routing.Decide.{Next, exhausted}
use zk_ai.Routing.Execute.{Job, Run, Step, go, finish, Attempt, Finish}
use zk_ai.Routing.Execute.Loop.{
  retried, retry_loop, admit_key, after_key, key_turn, try_keys, keys_for, with_keys,
  after_deployment, enter, enter_unless, skip_or_enter, visit, serve, Outcome, note_no_key,
  note_no_adapter,
}

module _ (P : Run → Type 0) (Q : Finish → Run → Type 0) where
  -- At the end of an attempt, of a loop and of the request.
  abbrev pub StepHolds : Step → Type 0
  StepHolds (go next run) = P run
  StepHolds (finish f run) = Q f run

  abbrev pub LoopHolds : Option Step → Type 0
  LoopHolds none = Unit
  LoopHolds (some step) = StepHolds step

  abbrev pub OutcomeHolds : Option Outcome → Type 0
  OutcomeHolds none = Unit
  OutcomeHolds (some (f, run)) = Q f run

-- Each part of the loops keeps `P`, and an end brings `Q`.
pub record IsKept (job : Job) (try_once : Attempt) (P : Run → Type 0) (Q : Finish → Run → Type 0)
    : Type 1 where
  pub attempted :
      (c : Candidate) (key : CredentialRuntime) (retries : ℕ) (run : Run)
      → P run
      → StepHolds P Q (try_once c key retries run)
  pub admitted :
      (c : Candidate) (key : CredentialRuntime) (run : Run) → P run → P (admit_key c key run).0
  pub found : (c : Candidate) (run : Run) → P run → P (keys_for job c run).0
  pub no_key : (c : Candidate) (run : Run) → P run → P (note_no_key job c run)
  pub no_adapter : (c : Candidate) (run : Run) → P run → P (note_no_adapter job c run)
  pub given_up : (run : Run) → P run → Q (Finish.failed (exhausted run.errors)) run
  pub tried :
      (run : Run)
      → run.deployments_tried < job.policy.max_deployments
      → P run
      → P (record run { deployments_tried = run.deployments_tried + 1 })

module _ (job : Job) (try_once : Attempt) (P : Run → Type 0) (Q : Finish → Run → Type 0)
    (kept : IsKept job try_once P Q) (c : Candidate) where
  retried-Holds :
      (loop : Run → Option Step) (step : Step)
      → StepHolds P Q step
      → ((run : Run) → P run → LoopHolds P Q (loop run))
      → LoopHolds P Q (retried loop step)
  retried-Holds loop (go Next.retry run) h hl = hl run h
  retried-Holds loop (go Next.credential run) h hl = h
  retried-Holds loop (go Next.deployment run) h hl = h
  retried-Holds loop (go Next.abort run) h hl = h
  retried-Holds loop (go Next.success run) h hl = h
  retried-Holds loop (finish f run) h hl = h

  retry_loop-Holds :
      (fuel : ℕ) (key : CredentialRuntime) (retries : ℕ) (run : Run)
      → P run
      → LoopHolds P Q (retry_loop job try_once c key fuel retries run)
  unfolding retry_loop
  retry_loop-Holds zero key retries run h = tt
  retry_loop-Holds (suc fuel) key retries run h =
      retried-Holds (retry_loop job try_once c key fuel (suc retries)) (try_once c key retries run)
        (kept.attempted c key retries run h) (retry_loop-Holds fuel key (suc retries))

  after_key-Holds :
      (rest : Run → Option Step) (o : Option Step)
      → LoopHolds P Q o
      → ((run : Run) → P run → LoopHolds P Q (rest run))
      → LoopHolds P Q (after_key rest o)
  after_key-Holds rest none h hr = tt
  after_key-Holds rest (some (go Next.deployment run)) h hr = h
  after_key-Holds rest (some (go Next.credential run)) h hr = hr run h
  after_key-Holds rest (some (go Next.retry run)) h hr = hr run h
  after_key-Holds rest (some (go Next.abort run)) h hr = hr run h
  after_key-Holds rest (some (go Next.success run)) h hr = hr run h
  after_key-Holds rest (some (finish f run)) h hr = h

  key_turn-Holds :
      (rest loop : Run → Option Step) (admitted : Run × Bool)
      → P admitted.0
      → ((run : Run) → P run → LoopHolds P Q (loop run))
      → ((run : Run) → P run → LoopHolds P Q (rest run))
      → LoopHolds P Q (key_turn rest loop admitted)
  key_turn-Holds rest loop (run, false) h hl hr = hr run h
  key_turn-Holds rest loop (run, true) h hl hr = after_key-Holds rest (loop run) (hl run h) hr

  try_keys-Holds :
      (keys : List CredentialRuntime) (fuel : ℕ) (run : Run)
      → P run
      → LoopHolds P Q (try_keys job try_once c fuel keys run)
  unfolding try_keys
  try_keys-Holds [] fuel run h = h
  try_keys-Holds (key ∷ keys) fuel run h =
      key_turn-Holds (try_keys job try_once c fuel keys) (retry_loop job try_once c key fuel 0)
        (admit_key c key run) (kept.admitted c key run h) (retry_loop-Holds fuel key 0)
        (try_keys-Holds keys fuel)

  module _ (fuel : ℕ) (rest : Run → Option Outcome)
      (hr : (run : Run) → P run → OutcomeHolds P Q (rest run)) where
    after_deployment-Holds :
        (o : Option Step) → LoopHolds P Q o → OutcomeHolds P Q (after_deployment rest o)
    after_deployment-Holds none h = tt
    after_deployment-Holds (some (go next run)) h = hr run h
    after_deployment-Holds (some (finish f run)) h = h

    with_keys-Holds :
        (found : Run × List CredentialRuntime)
        → P found.0
        → OutcomeHolds P Q (with_keys job try_once c fuel rest found)
    with_keys-Holds (run, []) h = hr (note_no_key job c run) (kept.no_key c run h)
    with_keys-Holds (run, key ∷ keys) h =
        after_deployment-Holds (try_keys job try_once c fuel (key ∷ keys) run)
          (try_keys-Holds (key ∷ keys) fuel run h)

    enter-Holds :
        (run : Run) (b : Bool) → P run → OutcomeHolds P Q (enter job try_once fuel rest c run b)
    enter-Holds run false h = hr (note_no_adapter job c run) (kept.no_adapter c run h)
    enter-Holds run true h = with_keys-Holds (keys_for job c run) (kept.found c run h)

    enter_unless-Holds :
        (run : Run) (full : Bool)
        → leb job.policy.max_deployments run.deployments_tried ≡ full
        → P run
        → OutcomeHolds P Q (enter_unless job try_once fuel rest c run full)
    enter_unless-Holds run true same h = kept.given_up run h
    enter_unless-Holds run false same h =
        enter-Holds _ (one_of c.provider_id job.adapters) (kept.tried run (ground (arith, same)) h)

    skip_or_enter-Holds :
        (run : Run) (skip : Bool)
        → P run
        → OutcomeHolds P Q (skip_or_enter job try_once fuel rest c run skip)
    skip_or_enter-Holds run true h = hr run h
    skip_or_enter-Holds run false h = enter_unless-Holds run _ refl h

    visit-Holds : (run : Run) → P run → OutcomeHolds P Q (visit job try_once fuel rest c run)
    unfolding visit
    visit-Holds run h = skip_or_enter-Holds run _ h

pub serve-Holds :
    (plan : List Candidate) (job : Job) (try_once : Attempt) (P : Run → Type 0)
    (Q : Finish → Run → Type 0)
    → IsKept job try_once P Q
    → (fuel : ℕ) (run : Run) → P run
    → OutcomeHolds P Q (serve job try_once fuel plan run)
unfolding serve
serve-Holds [] job try_once P Q kept fuel run h = kept.given_up run h
serve-Holds (c ∷ plan) job try_once P Q kept fuel run h =
    visit-Holds job try_once P Q kept c fuel (serve job try_once fuel plan)
      (serve-Holds plan job try_once P Q kept fuel) run h
