-- ===== src/Routing/Execute/Stream.antt =====
-- app/routing/scheduler.py: `stream`. Until a stream is open, an attempt is made and repeated as in
-- `execute`, with its own decisions; once it is open, everything that happens is told by events.
pub mod Told
pub mod Closed
pub mod Trail
pub mod Ends
pub mod Sound
use zk_ai.Prelude.{
  ℕ, suc, ◌+◌, ◌-◌, ◌*◌, ◌/◌, String, Bool, true, false, not, Option, none, some, List, [], ◌∷◌,
  ◌++◌, map, leb, ◌==◌, if◌then◌else◌,
}
use zk_ai.Errors.{Exn, Result, ok, raise}
use zk_ai.Retry.Info.{ErrorInfo, to_error}
use zk_ai.Retry.Classifier.{classify}
use zk_ai.Retry.Policy.{delay_for}
use zk_ai.Credentials.Runtime.{CredentialRuntime}
use zk_ai.Credentials.Pool.{CredentialPool}
use zk_ai.Credentials.Pool.Reports.{report_success, report_failure, note_affinity}
use zk_ai.Routing.Deployments.{
  Deployments, Candidate, note_deployment_success, note_deployment_affinity,
}
use zk_ai.Routing.Decide.{Next, exhausted, decide_open_stream, check_wall_clock, attempt_timeout}
use zk_ai.Routing.Execute.{
  Upstream, Job, Run, Chunk, Feed, Opening, StreamEvent, Finish, Step, go, finish, Attempt,
  AttemptStatus, attempt_outcome, record_attempt, count_tokens, on_cancelled, note_failure,
  normalized, dispatched,
}
use zk_ai.Routing.Execute.Loop.{Outcome, serve_plan}

-- `streamed_chars`
abbrev pub streamed_chars : List Chunk → ℕ
streamed_chars [] = 0
streamed_chars (c ∷ chunks) = c.characters + streamed_chars chunks

-- The usage that the last chunk with one carries.
abbrev pub usage_after : ℕ → List Chunk → ℕ
usage_after usage [] = usage
usage_after usage (c ∷ chunks) =
    usage_after (elim c.usage_total [ none ↦ usage | some total ↦ total ]) chunks

-- The usage of a stream: an upstream that reports none is estimated.
unfoldable pub stream_usage : ℕ → List Chunk → ℕ
stream_usage estimated_input chunks =
    let usage = usage_after 0 chunks in
    if usage == 0 then estimated_input + streamed_chars chunks / 4 else usage

abbrev pub chunk_events : List Chunk → List StreamEvent
chunk_events chunks = map (λ c. StreamEvent.chunk c.characters) chunks

-- `yield`
abbrev pub yielded : Run → List StreamEvent → Run
yielded run events = record run { events = run.events ++ events }

-- The stream has opened: `_note_deployment_success`, the chunks, and the time that they take.
unfoldable pub on_open : Candidate → List Chunk → ℕ → Run → Run
on_open candidate chunks took run = record run {
  deployments = note_deployment_success run.deployments candidate.deployment_id;
  now = run.now + took;
  events = run.events ++ chunk_events chunks;
}

-- After the chunks, whether or not the stream broke: the attempt is recorded, and the usage and the
-- end are told.
unfoldable pub close_stream :
    Candidate → CredentialRuntime → ℕ → AttemptStatus → Option ErrorInfo → ℕ → Run → Step
close_stream candidate credential took status info tokens run =
    finish (Finish.streamed candidate.deployment_id credential.id tokens) (
      yielded
        (record_attempt run (
          attempt_outcome candidate (some credential.id) run.attempt_number (run.now - took) run.now
            status info tokens))
        (StreamEvent.usage tokens ∷ StreamEvent.end ∷ []))

-- The stream ended: as `execute` does after a response, but for `_note_deployment_success`.
unfoldable pub on_stream_end : Job → Candidate → CredentialRuntime → ℕ → ℕ → Run → Step
on_stream_end job candidate credential took tokens run =
    let pool = (report_success run.pool credential.id (took * 100) run.now).0 in
    let pool = note_affinity pool job.session_key credential.id run.now in
    let deployments =
      note_deployment_affinity run.deployments pool.affinity_ttl pool.affinity_max_sessions
        job.session_key candidate.deployment_id run.now in
    close_stream candidate credential took AttemptStatus.success none tokens (record run {
      pool = count_tokens pool candidate credential tokens run.now pool.rate_limiter;
      deployments = deployments;
    })

-- The stream broke. The failure is reported, and the client told; a cancellation, which is not
-- classified, leaves at once.
abbrev pub on_broken :
    Upstream → Candidate → CredentialRuntime → ℕ → ℕ → Run → Result ErrorInfo → Step
on_broken up candidate credential took tokens run (ok info) =
    close_stream candidate credential took AttemptStatus.error (some info) tokens (record run {
      errors = run.errors ++ info ∷ [];
      pool =
          (report_failure run.pool credential.id info run.now
            (up.cooldown_draw run.attempt_number)).0;
      events =
          run.events
          ++ StreamEvent.error (to_error info (some candidate.provider_id) (some candidate.model))
            ∷ [];
    })
on_broken up candidate credential took tokens run (raise e) = finish Finish.cancelled run

abbrev pub on_feed_end :
    Job → Upstream → Candidate → CredentialRuntime → ℕ → ℕ → Run → Option Exn → Step
on_feed_end job up candidate credential took tokens run none =
    on_stream_end job candidate credential took tokens run
on_feed_end job up candidate credential took tokens run (some e) =
    on_broken up candidate credential took tokens run (classify job.classifier e none)

-- What follows from the decision after a stream that did not open.
abbrev pub after_open_failure : Job → Upstream → Candidate → ErrorInfo → Run → Next → Step
after_open_failure job up candidate info run Next.abort =
    finish (Finish.aborted (to_error info (some candidate.provider_id) (some candidate.model))) run
after_open_failure job up candidate info run Next.retry = go Next.retry (record run {
  stream_open_retries = run.stream_open_retries + 1;
  now = run.now + delay_for job.policy run.attempt_number info (up.delay_draw run.attempt_number);
})
after_open_failure job up candidate info run next = go next run

abbrev pub on_refused :
    Job → Upstream → Candidate → CredentialRuntime → ℕ → Run → Result ErrorInfo → Step
on_refused job up candidate credential took run (ok classified) =
    let info = normalized run.pool credential classified in
    after_open_failure job up candidate info (note_failure up candidate credential took info run)
      (decide_open_stream job.policy info run.stream_open_retries)
on_refused job up candidate credential took run (raise e) =
    on_cancelled candidate credential took run

-- `took` is the time until the stream opened, `more` the time until it ended.
abbrev pub on_feed : Job → Upstream → Candidate → CredentialRuntime → ℕ → ℕ → Run → Feed → Step
on_feed job up candidate credential took more run (Feed.refused e) =
    on_refused job up candidate credential took run (classify job.classifier e none)
on_feed job up candidate credential took more run Feed.silent =
    on_feed_end job up candidate credential (took + more)
      (stream_usage up.estimated_input_tokens []) (on_open candidate [] more run) none
on_feed job up candidate credential took more run (Feed.opened first rest ending) =
    on_feed_end job up candidate credential (took + more)
      (stream_usage up.estimated_input_tokens (first ∷ rest))
      (on_open candidate (first ∷ rest) more run) ending

abbrev pub opening_of : Job → Upstream → Candidate → CredentialRuntime → Run → Opening
opening_of job up candidate credential run =
    up.stream candidate.deployment_id credential.id (run.attempt_number + 1) (
      attempt_timeout job.policy job.max_request_seconds (run.now - job.wall_start)
        ((job.plan_length - run.deployments_tried) + 1))

unfoldable pub stream_attempt : Job → Upstream → Attempt
stream_attempt job up candidate credential retries_done run =
    if leb job.policy.max_total_attempts run.attempt_number
    then finish (Finish.failed (exhausted run.errors)) run
    else if not (check_wall_clock job.max_request_seconds (run.now - job.wall_start))
    then finish Finish.over_budget run
    else (let opening = opening_of job up candidate credential run in
        on_feed job up candidate credential opening.0 opening.2 (dispatched run opening.0)
          opening.1)

unfoldable pub stream :
    Job → Upstream → ℕ → List Candidate → Bool → CredentialPool → Deployments → Option Outcome
unfolding serve_plan
stream job up fuel plan preserve_front pool deployments =
    serve_plan job (stream_attempt job up) fuel plan preserve_front pool deployments
