-- ===== src/Routing/Execute/Stream/Ends.antt =====
-- `stream` always ends.
use zk_ai.Prelude.{
  ℕ, suc, ◌+◌, ◌-◌, ◌<◌, ◌≡◌, refl, Bool, not, Option, none, some, List, [], ◌∷◌, leb, arith,
}
use zk_ai.Errors.{Result, ok, raise}
use zk_ai.Retry.Info.{ErrorInfo}
use zk_ai.Retry.Classifier.{classify}
use zk_ai.Credentials.Runtime.{CredentialRuntime}
use zk_ai.Credentials.Pool.{CredentialPool}
use zk_ai.Routing.Deployments.{Deployments, Candidate}
use zk_ai.Routing.Decide.{Next, decide_open_stream, check_wall_clock}
use zk_ai.Routing.Execute.{
  Upstream, Job, Run, Feed, note_failure, normalized, dispatched, on_cancelled,
}
use zk_ai.Routing.Execute.Ends.{Counts, if-Counts, Ends, serve_plan-Ends}
use zk_ai.Routing.Execute.Stream.{
  on_open, on_feed, on_refused, on_broken, on_stream_end, close_stream, after_open_failure,
  opening_of, stream_attempt, stream,
}

module _ (job : Job) (up : Upstream) (c : Candidate) (key : CredentialRuntime)
    (most number : ℕ) where
  after_open_failure-Counts :
      (info : ErrorInfo) (run : Run) (next : Next)
      → run.attempt_number ≡ number + 1
      → number < most
      → Counts most number (after_open_failure job up c info run next)
  after_open_failure-Counts info run Next.retry h low = (h, low)
  after_open_failure-Counts info run Next.credential h low = tt
  after_open_failure-Counts info run Next.deployment h low = tt
  after_open_failure-Counts info run Next.abort h low = tt
  after_open_failure-Counts info run Next.success h low = tt

  on_feed_end-Counts :
      (took tokens : ℕ) (run : Run) (ending : Option (Result ErrorInfo))
      → Counts most number (elim ending [
        | none ↦ on_stream_end job c key took tokens run
        | some r ↦ on_broken up c key took tokens run r
      ])
  unfolding close_stream on_stream_end
  on_feed_end-Counts took tokens run none = tt
  on_feed_end-Counts took tokens run (some (ok info)) = tt
  on_feed_end-Counts took tokens run (some (raise e)) = tt

  on_refused-Counts :
      (took : ℕ) (run : Run) (r : Result ErrorInfo)
      → run.attempt_number ≡ number + 1
      → number < most
      → Counts most number (on_refused job up c key took run r)
  unfolding on_cancelled
  on_refused-Counts took run (ok e) h low =
      let info = normalized run.pool key e in
      after_open_failure-Counts info (note_failure up c key took info run)
        (decide_open_stream job.policy info run.stream_open_retries) (unfold note_failure in h) low
  on_refused-Counts took run (raise e) h low = tt

  on_feed-Counts :
      (took more : ℕ) (run : Run) (feed : Feed)
      → run.attempt_number ≡ number + 1
      → number < most
      → Counts most number (on_feed job up c key took more run feed)
  on_feed-Counts took more run (Feed.refused e) h low =
      on_refused-Counts took run (classify job.classifier e none) h low
  on_feed-Counts took more run Feed.silent h low =
      on_feed_end-Counts _ _ (on_open c [] more run) none
  on_feed-Counts took more run (Feed.opened first rest none) h low =
      on_feed_end-Counts _ _ (on_open c (first ∷ rest) more run) none
  on_feed-Counts took more run (Feed.opened first rest (some e)) h low =
      on_feed_end-Counts _ _ (on_open c (first ∷ rest) more run)
        (some (classify job.classifier e none))

stream_attempt-Counts :
    (job : Job) (up : Upstream) (c : Candidate) (key : CredentialRuntime) (retries : ℕ) (run : Run)
    → Counts job.policy.max_total_attempts run.attempt_number
        (stream_attempt job up c key retries run)
unfolding stream_attempt
stream_attempt-Counts job up c key retries run =
    if-Counts (leb job.policy.max_total_attempts run.attempt_number) _ _ _ run _ (λ below.
      if-Counts (not (check_wall_clock job.max_request_seconds (run.now - job.wall_start))) _ _ _
        run _
        (λ _.
          let opening = opening_of job up c key run in
          on_feed-Counts job up c key job.policy.max_total_attempts run.attempt_number opening.0
            opening.2 (dispatched run opening.0) opening.1 refl (ground (arith, below))))

-- Whatever the upstream sends, and at whatever state, `stream` comes to an end: fuel for one attempt
-- more than the budget is enough for every plan.
pub stream-Ends :
    (job : Job) (up : Upstream) (plan : List Candidate) (preserve_front : Bool)
    (pool : CredentialPool) (deployments : Deployments)
    → Ends (stream job up (suc job.policy.max_total_attempts) plan preserve_front pool deployments)
unfolding stream
stream-Ends job up plan preserve_front pool deployments =
    serve_plan-Ends job (stream_attempt job up) plan preserve_front pool deployments
      (stream_attempt-Counts job up)
