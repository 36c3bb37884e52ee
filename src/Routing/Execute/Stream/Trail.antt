-- ===== src/Routing/Execute/Stream/Trail.antt =====
-- The audit trail of a stream, and its budgets.
use zk_ai.Prelude.{
  ℕ, ◌-◌, ◌≡◌, refl, subst, ◌⊎◌, inl, inr, Bool, true, false, not, Option, none, some, List, [],
  ◌∷◌, leb, arith, if◌then◌else◌,
}
use zk_ai.Errors.{Exn, Result, ok, raise}
use zk_ai.Retry.Info.{ErrorInfo}
use zk_ai.Retry.Classifier.{classify}
use zk_ai.Retry.Policy.{RetryPolicy}
use zk_ai.Credentials.Runtime.{CredentialRuntime}
use zk_ai.Credentials.Pool.{CredentialPool}
use zk_ai.Routing.Deployments.{Deployments, Candidate}
use zk_ai.Routing.Decide.{Next, decide_open_stream, check_wall_clock}
use zk_ai.Routing.Execute.{
  Upstream, Job, Run, Feed, Finish, Step, note_failure, normalized, dispatched, on_cancelled,
}
use zk_ai.Routing.Execute.Kept.{StepHolds, OutcomeHolds, serve-Holds}
use zk_ai.Routing.Execute.Trail.{Trail, IsTrail, IsPending, pending-IsTrail, IsTrail-IsKept}
use zk_ai.Routing.Execute.Stream.{
  on_open, on_feed, on_feed_end, on_refused, on_broken, on_stream_end, close_stream,
  after_open_failure, opening_of, stream_attempt, stream,
}

-- At the end of a stream. A cancelled one may lack the attempt that was under way.
abbrev pub IsStreamTrail : RetryPolicy → Finish → Run → Type 0
IsStreamTrail policy Finish.cancelled run =
    IsTrail policy run ⊎ Trail policy run.attempts (run.attempt_number - 1) run.deployments_tried
IsStreamTrail policy f run = IsTrail policy run

module _ (job : Job) (up : Upstream) (c : Candidate) (key : CredentialRuntime) where
  abbrev Kept : Step → Type 0
  Kept = StepHolds (IsTrail job.policy) (IsStreamTrail job.policy)

  on_broken-IsStreamTrail :
      (took tokens n : ℕ) (run : Run) (r : Result ErrorInfo)
      → IsPending job up c key n run
      → Kept (on_broken up c key took tokens run r)
  unfolding close_stream
  on_broken-IsStreamTrail took tokens n run (ok info) h =
      pending-IsTrail job up c key n run _ h refl
  on_broken-IsStreamTrail took tokens n run (raise e) h =
      inr (
        subst (λ m. Trail job.policy run.attempts m run.deployments_tried) (omega (arith, h.0)) h.2)

  on_feed_end-IsStreamTrail :
      (took tokens n : ℕ) (run : Run) (ending : Option Exn)
      → IsPending job up c key n run
      → Kept (on_feed_end job up c key took tokens run ending)
  unfolding close_stream on_stream_end
  on_feed_end-IsStreamTrail took tokens n run none h = pending-IsTrail job up c key n run _ h refl
  on_feed_end-IsStreamTrail took tokens n run (some e) h =
      on_broken-IsStreamTrail took tokens n run (classify job.classifier e none) h

  after_open_failure-IsStreamTrail :
      (info : ErrorInfo) (run : Run) (next : Next)
      → IsTrail job.policy run
      → Kept (after_open_failure job up c info run next)
  after_open_failure-IsStreamTrail info run Next.retry h = h
  after_open_failure-IsStreamTrail info run Next.credential h = h
  after_open_failure-IsStreamTrail info run Next.deployment h = h
  after_open_failure-IsStreamTrail info run Next.abort h = h
  after_open_failure-IsStreamTrail info run Next.success h = h

  on_refused-IsStreamTrail :
      (took n : ℕ) (run : Run) (r : Result ErrorInfo)
      → IsPending job up c key n run
      → Kept (on_refused job up c key took run r)
  unfolding note_failure on_cancelled
  on_refused-IsStreamTrail took n run (ok e) h =
      let info = normalized run.pool key e in
      after_open_failure-IsStreamTrail info (note_failure up c key took info run)
        (decide_open_stream job.policy info run.stream_open_retries)
        (pending-IsTrail job up c key n run _ h refl)
  on_refused-IsStreamTrail took n run (raise e) h =
      inl (pending-IsTrail job up c key n run _ h refl)

  on_feed-IsStreamTrail :
      (took more n : ℕ) (run : Run) (feed : Feed)
      → IsPending job up c key n run
      → Kept (on_feed job up c key took more run feed)
  unfolding on_open
  on_feed-IsStreamTrail took more n run (Feed.refused e) h =
      on_refused-IsStreamTrail took n run (classify job.classifier e none) h
  on_feed-IsStreamTrail took more n run Feed.silent h =
      on_feed_end-IsStreamTrail _ _ n (on_open c [] more run) none h
  on_feed-IsStreamTrail took more n run (Feed.opened first rest ending) h =
      on_feed_end-IsStreamTrail _ _ n (on_open c (first ∷ rest) more run) ending h

  if-IsStreamTrail :
      (b : Bool) (x y : Step) → Kept x → (b ≡ false → Kept y) → Kept (if b then x else y)
  if-IsStreamTrail true x y hx hy = hx
  if-IsStreamTrail false x y hx hy = hy refl

  stream_attempt-IsStreamTrail :
      (retries : ℕ) (run : Run)
      → IsTrail job.policy run
      → Kept (stream_attempt job up c key retries run)
  unfolding stream_attempt
  stream_attempt-IsStreamTrail retries run h =
      if-IsStreamTrail (leb job.policy.max_total_attempts run.attempt_number) _ _ h (λ below.
        if-IsStreamTrail (not (check_wall_clock job.max_request_seconds (run.now - job.wall_start)))
          _ _ h
          (λ _.
            let opening = opening_of job up c key run in
            on_feed-IsStreamTrail opening.0 opening.2 run.attempt_number (dispatched run opening.0)
              opening.1 (refl, ground (arith, below), h)))

-- However a stream ends, the attempts that it leaves behind are numbered from 1 without a gap, at
-- most `max_total_attempts` of them went to the upstream, and at most `max_deployments` deployments
-- were tried. Unless it is cancelled no attempt is missing, and then the last one at most.
pub stream-IsStreamTrail :
    (job : Job) (up : Upstream) (fuel : ℕ) (plan : List Candidate) (preserve_front : Bool)
    (pool : CredentialPool) (deployments : Deployments)
    → OutcomeHolds
        (IsTrail job.policy)
        (IsStreamTrail job.policy)
        (stream job up fuel plan preserve_front pool deployments)
unfolding stream
stream-IsStreamTrail job up fuel plan preserve_front pool deployments =
    serve-Holds _ job (stream_attempt job up) (IsTrail job.policy) (IsStreamTrail job.policy)
      (IsTrail-IsKept job (stream_attempt job up) _ (stream_attempt-IsStreamTrail job up)
        (λ run h. h))
      fuel _ (refl, omega arith, omega arith, omega arith)
