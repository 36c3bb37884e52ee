-- ===== src/Routing/Execute/Stream/Closed.antt =====
-- What the client of a stream is told, and that nothing is tried again once a stream is open.
use zk_ai.Prelude.{
  ℕ, ◌-◌, ◌≡◌, refl, sym, ap, subst, Bool, true, false, not, Option, none, some, List, [], ◌∷◌,
  ◌++◌, leb, if◌then◌else◌,
}
use zk_ai.Errors.{Exn, Result, ok, raise}
use zk_ai.Retry.Info.{ErrorInfo, to_error}
use zk_ai.Retry.Classifier.{classify}
use zk_ai.Credentials.Runtime.{CredentialRuntime}
use zk_ai.Credentials.Pool.{CredentialPool}
use zk_ai.Routing.Deployments.{Deployments, Candidate}
use zk_ai.Routing.Decide.{Next, decide_open_stream, check_wall_clock}
use zk_ai.Routing.Limits.{RateLimiter}
use zk_ai.Routing.Execute.{
  Upstream, Job, Run, Chunk, Feed, StreamEvent, Finish, Step, go, finish, note_failure, normalized,
  dispatched, on_cancelled,
}
use zk_ai.Routing.Execute.Loop.{
  admit_key, admit_under_limiter, keys_for, credentials_for, wait_if_none, look_again, note_no_key,
  note_no_adapter,
}
use zk_ai.Routing.Execute.Kept.{StepHolds, OutcomeHolds, IsKept, serve-Holds}
use zk_ai.Routing.Execute.Stream.{
  chunk_events, on_open, on_feed, on_feed_end, on_refused, on_broken, on_stream_end, close_stream,
  after_open_failure, opening_of, stream_attempt, stream, stream_usage,
}
use zk_ai.Routing.Execute.Stream.Told.{
  Heard, Told, Relays, CutOff, IsToldAs, IsUntold, delivered, stream_usage-IsUsage,
}

ended-Relays :
    (tail : List StreamEvent) (chunks : List Chunk)
    → Relays chunks tail (chunk_events chunks ++ tail)
ended-Relays tail [] = Relays.relayed
ended-Relays tail (c ∷ chunks) = Relays.relay c (ended-Relays tail chunks)

broken-Relays :
    (e : StreamEvent) (tail : List StreamEvent) (chunks : List Chunk)
    → Relays chunks (e ∷ tail) ((chunk_events chunks ++ e ∷ []) ++ tail)
broken-Relays e tail [] = Relays.relayed
broken-Relays e tail (c ∷ chunks) = Relays.relay c (broken-Relays e tail chunks)

cut-Relays : (chunks : List Chunk) → Relays chunks [] (chunk_events chunks)
cut-Relays [] = Relays.relayed
cut-Relays (c ∷ chunks) = Relays.relay c (cut-Relays chunks)

-- The chunks of the stream that has just opened are all that was told.
abbrev IsTelling : List Chunk → Run → Type 0
IsTelling chunks run = run.events ≡ chunk_events chunks

module _ (job : Job) (up : Upstream) (c : Candidate) (key : CredentialRuntime) where
  abbrev Delivers : Run → List Chunk → Option Exn → Type 0
  Delivers run chunks ending = Heard job up c.deployment_id key.id run.attempt_number chunks ending

  on_broken-IsToldAs :
      (took : ℕ) (chunks : List Chunk) (run : Run) (e : Exn) (r : Result ErrorInfo)
      → classify job.classifier e none ≡ r
      → Delivers run chunks (some e)
      → IsTelling chunks run
      → StepHolds IsUntold
          (IsToldAs job up)
          (on_broken up c key took (stream_usage up.estimated_input_tokens chunks) run r)
  unfolding close_stream
  on_broken-IsToldAs took chunks run e (ok info) known heard h =
      let tokens = stream_usage up.estimated_input_tokens chunks in
      let provider = some c.provider_id in
      let model = some c.model in
      let tail = StreamEvent.usage tokens ∷ StreamEvent.end ∷ [] in
      let told = StreamEvent.error (to_error info provider model) in
      Told.broken chunks e info provider model heard known
        (stream_usage-IsUsage up.estimated_input_tokens chunks)
        (subst (λ es. Relays chunks (told ∷ tail) ((es ++ told ∷ []) ++ tail)) (sym h)
          (broken-Relays told tail chunks))
  on_broken-IsToldAs took chunks run e (raise escaped) known heard h =
      CutOff.midway c.deployment_id key.id chunks e escaped heard known
        (subst (λ es. Relays chunks [] es) (sym h) (cut-Relays chunks))

  on_feed_end-IsToldAs :
      (took : ℕ) (chunks : List Chunk) (run : Run) (ending : Option Exn)
      → Delivers run chunks ending
      → IsTelling chunks run
      → StepHolds IsUntold
          (IsToldAs job up)
          (on_feed_end job up c key took (stream_usage up.estimated_input_tokens chunks) run ending)
  unfolding close_stream on_stream_end
  on_feed_end-IsToldAs took chunks run none heard h =
      let tail =
        StreamEvent.usage (stream_usage up.estimated_input_tokens chunks) ∷ StreamEvent.end ∷ [] in
      Told.ended chunks heard (stream_usage-IsUsage up.estimated_input_tokens chunks)
        (subst (λ es. Relays chunks tail (es ++ tail)) (sym h) (ended-Relays tail chunks))
  on_feed_end-IsToldAs took chunks run (some e) heard h =
      on_broken-IsToldAs took chunks run e (classify job.classifier e none) refl heard h

  on_open-IsTelling :
      (chunks : List Chunk) (took : ℕ) (run : Run)
      → IsUntold run
      → IsTelling chunks (on_open c chunks took run)
  unfolding on_open
  on_open-IsTelling chunks took run h =
      subst (λ es. es ++ chunk_events chunks ≡ chunk_events chunks) (sym h) refl

  after_open_failure-IsToldAs :
      (info : ErrorInfo) (run : Run) (next : Next)
      → IsUntold run
      → StepHolds IsUntold (IsToldAs job up) (after_open_failure job up c info run next)
  after_open_failure-IsToldAs info run Next.retry h = h
  after_open_failure-IsToldAs info run Next.credential h = h
  after_open_failure-IsToldAs info run Next.deployment h = h
  after_open_failure-IsToldAs info run Next.abort h = h
  after_open_failure-IsToldAs info run Next.success h = h

  on_refused-IsToldAs :
      (took : ℕ) (run : Run) (r : Result ErrorInfo)
      → IsUntold run
      → StepHolds IsUntold (IsToldAs job up) (on_refused job up c key took run r)
  unfolding note_failure on_cancelled
  on_refused-IsToldAs took run (ok e) h =
      let info = normalized run.pool key e in
      after_open_failure-IsToldAs info (note_failure up c key took info run)
        (decide_open_stream job.policy info run.stream_open_retries) h
  on_refused-IsToldAs took run (raise e) h = CutOff.unopened h

  on_feed-IsToldAs :
      (took more timeout : ℕ) (run : Run) (feed : Feed)
      → (up.stream c.deployment_id key.id run.attempt_number timeout).1 ≡ feed
      → IsUntold run
      → StepHolds IsUntold (IsToldAs job up) (on_feed job up c key took more run feed)
  unfolding on_open
  on_feed-IsToldAs took more timeout run (Feed.refused e) given h =
      on_refused-IsToldAs took run (classify job.classifier e none) h
  on_feed-IsToldAs took more timeout run Feed.silent given h =
      on_feed_end-IsToldAs _ [] _ none (record { timeout = timeout; heard = ap delivered given })
        (on_open-IsTelling [] more run h)
  on_feed-IsToldAs took more timeout run (Feed.opened first rest ending) given h =
      on_feed_end-IsToldAs _ (first ∷ rest) _ ending
        (record { timeout = timeout; heard = ap delivered given })
        (on_open-IsTelling (first ∷ rest) more run h)

  if-IsToldAs :
      (b : Bool) (x y : Step)
      → StepHolds IsUntold (IsToldAs job up) x
      → StepHolds IsUntold (IsToldAs job up) y
      → StepHolds IsUntold (IsToldAs job up) (if b then x else y)
  if-IsToldAs true x y hx hy = hx
  if-IsToldAs false x y hx hy = hy

  stream_attempt-IsToldAs :
      (retries : ℕ) (run : Run)
      → IsUntold run
      → StepHolds IsUntold (IsToldAs job up) (stream_attempt job up c key retries run)
  unfolding stream_attempt
  stream_attempt-IsToldAs retries run h =
      let opening = opening_of job up c key run in
      if-IsToldAs (leb job.policy.max_total_attempts run.attempt_number) _ _ h (
        if-IsToldAs (not (check_wall_clock job.max_request_seconds (run.now - job.wall_start))) _ _
          h (on_feed-IsToldAs opening.0 opening.2 _ (dispatched run opening.0) opening.1 refl h))

admit_under_limiter-IsUntold :
    (c : Candidate) (key : CredentialRuntime) (run : Run) (limiter : Option RateLimiter)
    → IsUntold run
    → IsUntold (admit_under_limiter c key run limiter).0
admit_under_limiter-IsUntold c key run none h = h
admit_under_limiter-IsUntold c key run (some limiter) h = h

look_again-IsUntold :
    (job : Job) (c : Candidate) (run : Run) (pause : Option ℕ)
    → IsUntold run
    → IsUntold (look_again job c run pause).0
unfolding zk_ai.Routing.Execute.Loop.credentials_for
look_again-IsUntold job c run none h = h
look_again-IsUntold job c run (some pause) h = h

wait_if_none-IsUntold :
    (job : Job) (c : Candidate) (found : Run × List CredentialRuntime)
    → IsUntold found.0
    → IsUntold (wait_if_none job c found).0
wait_if_none-IsUntold job c (run, []) h = look_again-IsUntold job c _ _ h
wait_if_none-IsUntold job c (run, key ∷ keys) h = h

IsUntold-IsKept :
    (job : Job) (up : Upstream) → IsKept job (stream_attempt job up) IsUntold (IsToldAs job up)
unfolding admit_key note_no_adapter note_no_key keys_for zk_ai.Routing.Execute.Loop.credentials_for
IsUntold-IsKept job up = record {
  attempted = stream_attempt-IsToldAs job up;
  admitted = λ c key run h. admit_under_limiter-IsUntold c key run run.pool.rate_limiter h;
  found = λ c run h.
      wait_if_none-IsUntold job c (zk_ai.Routing.Execute.Loop.credentials_for job c run) h;
  no_key = λ c run h. h;
  no_adapter = λ c run h. h;
  given_up = λ run h. h;
  tried = λ run below h. h;
}

-- What the client of `stream` is told fits the way the request ends. A request that fails has told
-- nothing, whatever it tried; so nothing is tried again once a chunk was sent. A request that a
-- stream ends has told every chunk that the upstream delivered in the last attempt, at the
-- deployment and with the key that are answered, in their order and no other; then, if the upstream
-- broke off, its error; then the usage, which is answered too, and the end. The usage is the last
-- that a chunk carries, or, if that is none or zero, the estimate by the characters. A cancelled request has told nothing, or the chunks of the stream that was cut off. There is no
-- other end.
pub stream-IsToldAs :
    (job : Job) (up : Upstream) (fuel : ℕ) (plan : List Candidate) (preserve_front : Bool)
    (pool : CredentialPool) (deployments : Deployments)
    → OutcomeHolds IsUntold
        (IsToldAs job up)
        (stream job up fuel plan preserve_front pool deployments)
unfolding stream
stream-IsToldAs job up fuel plan preserve_front pool deployments =
    serve-Holds _ job (stream_attempt job up) IsUntold (IsToldAs job up) (IsUntold-IsKept job up)
      fuel _ refl
