-- ===== src/Routing/Execute/Stream/Sound.antt =====
-- What `stream` keeps of the state that it shares with other requests.
use zk_ai.Prelude.{
  ℕ, ◌-◌, ◌*◌, Bool, true, false, not, Option, none, some, List, [], ◌∷◌, leb, if◌then◌else◌,
}
use zk_ai.Errors.{Result, ok, raise}
use zk_ai.Retry.Info.{ErrorInfo}
use zk_ai.Retry.Classifier.{classify}
use zk_ai.Credentials.Runtime.{CredentialRuntime}
use zk_ai.Credentials.Pool.{CredentialPool}
use zk_ai.Credentials.Pool.Reports.{note_affinity}
use zk_ai.Credentials.Pool.Sound.{
  IsSoundPool, report_success-IsSoundPool, report_failure-IsSoundPool, release-IsSoundPool,
}
use zk_ai.Routing.Deployments.{Deployments, Candidate}
use zk_ai.Routing.Decide.{Next, decide_open_stream, check_wall_clock}
use zk_ai.Routing.Execute.{
  Upstream, Job, Run, Feed, Step, note_failure, normalized, dispatched, on_cancelled,
}
use zk_ai.Routing.Execute.Kept.{StepHolds, OutcomeHolds, serve-Holds}
use zk_ai.Routing.Execute.Sound.{
  HasSoundPool, HasSoundPool-IsKept, count_tokens-IsSoundPool, note_named-IsSoundPool,
}
use zk_ai.Routing.Execute.Stream.{
  on_open, on_feed, on_refused, on_broken, on_stream_end, close_stream, after_open_failure,
  opening_of, stream_attempt, stream,
}

module _ (job : Job) (up : Upstream) (c : Candidate) (key : CredentialRuntime) where
  abbrev Kept : Step → Type 0
  Kept = StepHolds HasSoundPool (λ _. HasSoundPool)

  on_feed_end-HasSoundPool :
      (took tokens : ℕ) (run : Run) (ending : Option (Result ErrorInfo))
      → HasSoundPool run
      → Kept (elim ending [
        | none ↦ on_stream_end job c key took tokens run
        | some r ↦ on_broken up c key took tokens run r
      ])
  unfolding close_stream on_stream_end note_affinity
  on_feed_end-HasSoundPool took tokens run none all =
      count_tokens-IsSoundPool _ c key tokens run.now _ (
        note_named-IsSoundPool _ key.id run.now _
          (report_success-IsSoundPool key.id run.pool all (took * 100) run.now))
  on_feed_end-HasSoundPool took tokens run (some (ok info)) all =
      report_failure-IsSoundPool run.pool key.id info run.now (up.cooldown_draw run.attempt_number)
        all
  on_feed_end-HasSoundPool took tokens run (some (raise e)) all = all

  after_open_failure-HasSoundPool :
      (info : ErrorInfo) (run : Run) (next : Next)
      → HasSoundPool run
      → Kept (after_open_failure job up c info run next)
  after_open_failure-HasSoundPool info run Next.retry all = all
  after_open_failure-HasSoundPool info run Next.credential all = all
  after_open_failure-HasSoundPool info run Next.deployment all = all
  after_open_failure-HasSoundPool info run Next.abort all = all
  after_open_failure-HasSoundPool info run Next.success all = all

  on_refused-HasSoundPool :
      (took : ℕ) (run : Run) (r : Result ErrorInfo)
      → HasSoundPool run
      → Kept (on_refused job up c key took run r)
  unfolding note_failure on_cancelled
  on_refused-HasSoundPool took run (ok e) all =
      let info = normalized run.pool key e in
      after_open_failure-HasSoundPool info (note_failure up c key took info run)
        (decide_open_stream job.policy info run.stream_open_retries)
        (report_failure-IsSoundPool run.pool key.id info run.now
          (up.cooldown_draw run.attempt_number) all)
  on_refused-HasSoundPool took run (raise e) all = release-IsSoundPool key.id run.pool all

  on_feed-HasSoundPool :
      (took more : ℕ) (run : Run) (feed : Feed)
      → HasSoundPool run
      → Kept (on_feed job up c key took more run feed)
  unfolding on_open
  on_feed-HasSoundPool took more run (Feed.refused e) all =
      on_refused-HasSoundPool took run (classify job.classifier e none) all
  on_feed-HasSoundPool took more run Feed.silent all =
      on_feed_end-HasSoundPool _ _ (on_open c [] more run) none all
  on_feed-HasSoundPool took more run (Feed.opened first rest none) all =
      on_feed_end-HasSoundPool _ _ (on_open c (first ∷ rest) more run) none all
  on_feed-HasSoundPool took more run (Feed.opened first rest (some e)) all =
      on_feed_end-HasSoundPool _ _ (on_open c (first ∷ rest) more run)
        (some (classify job.classifier e none)) all

  if-HasSoundPool : (b : Bool) (x y : Step) → Kept x → Kept y → Kept (if b then x else y)
  if-HasSoundPool true x y hx hy = hx
  if-HasSoundPool false x y hx hy = hy

  stream_attempt-HasSoundPool :
      (retries : ℕ) (run : Run) → HasSoundPool run → Kept (stream_attempt job up c key retries run)
  unfolding stream_attempt
  stream_attempt-HasSoundPool retries run all =
      let opening = opening_of job up c key run in
      if-HasSoundPool (leb job.policy.max_total_attempts run.attempt_number) _ _ all (
        if-HasSoundPool (not (check_wall_clock job.max_request_seconds (run.now - job.wall_start)))
          _ _ all
          (on_feed-HasSoundPool opening.0 opening.2 (dispatched run opening.0) opening.1 all))

-- A stream leaves the pool sound, whatever the upstream sends and wherever the stream breaks: if
-- every key in the pool is filed under its own id and is sound, this is so afterwards.
stream-HasSoundPool :
    (job : Job) (up : Upstream) (fuel : ℕ) (plan : List Candidate) (preserve_front : Bool)
    (pool : CredentialPool) (deployments : Deployments)
    → IsSoundPool pool
    → OutcomeHolds HasSoundPool
        (λ _. HasSoundPool)
        (stream job up fuel plan preserve_front pool deployments)
unfolding stream
stream-HasSoundPool job up fuel plan preserve_front pool deployments all =
    serve-Holds _ job (stream_attempt job up) HasSoundPool (λ _. HasSoundPool)
      (HasSoundPool-IsKept job (stream_attempt job up) (stream_attempt-HasSoundPool job up)) fuel _
      all
