-- ===== src/Routing/Execute/Stream/Told.antt =====
-- What the client of a stream should be told, in terms of what the upstream has delivered.
use zk_ai.Prelude.{
  ℕ, zero, suc, ◌+◌, ◌/◌, ◌==◌, ◌≢◌, ◌⊎◌, inl, inr, ◌∙◌, All, arith, ◌≡◌, refl, sym, ap, String,
  false, Option, none, some, List, [], ◌∷◌, ◌++◌, if◌then◌else◌,
}
use zk_ai.Errors.{Exn, ok, raise}
use zk_ai.Retry.Info.{ErrorInfo, to_error}
use zk_ai.Retry.Classifier.{classify}
use zk_ai.Routing.Execute.{Upstream, Job, Run, Chunk, Feed, StreamEvent, Finish}
use zk_ai.Routing.Execute.Stream.{stream_usage, usage_after, streamed_chars}

-- What an upstream that opened has delivered: its chunks, and the error that broke it off, if any.
abbrev pub delivered : Feed → Option (List Chunk × Option Exn)
delivered (Feed.refused e) = none
delivered Feed.silent = some ([], none)
delivered (Feed.opened first rest ending) = some (first ∷ rest, ending)

-- The client is told each of these chunks, in their order and with its length, and then the others.
pub data Relays : List Chunk → List StreamEvent → List StreamEvent → Type 0 where
  relayed : {tail : List StreamEvent} → Relays [] tail tail
  relay :
      (c : Chunk) {chunks : List Chunk} {tail events : List StreamEvent}
      → Relays chunks tail events
      → Relays (c ∷ chunks) tail (StreamEvent.chunk c.characters ∷ events)

-- No chunk carries a usage.
abbrev pub Unreported : List Chunk → Type 0
Unreported chunks = All (λ c. c.usage_total ≡ none) chunks

-- The number is the usage of the last chunk that carries one.
pub record Reported (chunks : List Chunk) (total : ℕ) : Type 0 where
  pub earlier : List Chunk
  pub last : Chunk
  pub others : List Chunk
  pub parts : chunks ≡ earlier ++ last ∷ others
  pub carried : last.usage_total ≡ some total
  pub silent_after : Unreported others

-- The usage that a stream should be billed with: what the upstream reports, and, where that is
-- nothing or zero, the tokens of the request with one for every four characters sent.
pub data IsUsage (estimated_input : ℕ) (chunks : List Chunk) (tokens : ℕ) : Type 0 where
  reported : Reported chunks tokens → tokens ≢ 0 → IsUsage estimated_input chunks tokens
  estimated :
      Unreported chunks ⊎ Reported chunks 0
      → tokens ≡ estimated_input + streamed_chars chunks / 4
      → IsUsage estimated_input chunks tokens

module _ (job : Job) (up : Upstream) where
  -- The attempt of the number, at the deployment with the key, has delivered this.
  pub record Heard (d k : String) (number : ℕ) (chunks : List Chunk) (ending : Option Exn)
      : Type 0 where
    pub timeout : ℕ
    pub heard : delivered (up.stream d k number timeout).1 ≡ some (chunks, ending)

  -- The events of a stream that ended or broke in the attempt of the number, which the key at the
  -- deployment served with so many tokens.
  pub data Told (d k : String) (tokens number : ℕ) (events : List StreamEvent) : Type 0 where
    ended :
        (chunks : List Chunk)
        → Heard d k number chunks none
        → IsUsage up.estimated_input_tokens chunks tokens
        → Relays chunks (StreamEvent.usage tokens ∷ StreamEvent.end ∷ []) events
        → Told d k tokens number events
    broken :
        (chunks : List Chunk) (e : Exn) (info : ErrorInfo) (provider model : Option String)
        → Heard d k number chunks (some e)
        → classify job.classifier e none ≡ ok info
        → IsUsage up.estimated_input_tokens chunks tokens
        → Relays chunks
            (StreamEvent.error (to_error info provider model)
              ∷ StreamEvent.usage tokens
              ∷ StreamEvent.end
              ∷ [])
            events
        → Told d k tokens number events

  -- The events of a cancelled request: none, or the chunks of the stream that was cut off, by an
  -- exception that is no failure of the upstream.
  pub data CutOff (number : ℕ) (events : List StreamEvent) : Type 0 where
    unopened : events ≡ [] → CutOff number events
    midway :
        (d k : String) (chunks : List Chunk) (e escaped : Exn)
        → Heard d k number chunks (some e)
        → classify job.classifier e none ≡ raise escaped
        → Relays chunks [] events
        → CutOff number events

  -- What the client has been told when a request ends this way in the attempt of the number.
  abbrev pub ToldAs : Finish → ℕ → List StreamEvent → Type 0
  ToldAs (Finish.answered d k n) number events = ⊥
  ToldAs (Finish.streamed d k n) number events = Told d k n number events
  ToldAs (Finish.failed x) number events = events ≡ []
  ToldAs (Finish.aborted e) number events = events ≡ []
  ToldAs Finish.over_budget number events = events ≡ []
  ToldAs Finish.cancelled number events = CutOff number events

  abbrev pub IsToldAs : Finish → Run → Type 0
  IsToldAs f run = ToldAs f run.attempt_number run.events

abbrev pub IsUntold : Run → Type 0
IsUntold run = run.events ≡ []

-- What the loop over the chunks has seen: no usage, or the last one.
Seen : ℕ → List Chunk → ℕ → Type 0
Seen before chunks usage = (Unreported chunks × (usage ≡ before)) ⊎ Reported chunks usage

usage_after-Seen :
    (before : ℕ) (chunks : List Chunk) → Seen before chunks (usage_after before chunks)
unfolding Seen
usage_after-Seen before [] = inl (tt, refl)
usage_after-Seen before (c ∷ chunks) =
    seen c.usage_total refl (λ usage. usage_after-Seen usage chunks)
  where
    later : (usage : ℕ) → Reported chunks usage → Reported (c ∷ chunks) usage
    later usage r = record {
      earlier = c ∷ r.earlier;
      last = r.last;
      others = r.others;
      parts = ap (λ cs. c ∷ cs) r.parts;
      carried = r.carried;
      silent_after = r.silent_after;
    }

    seen :
        (o : Option ℕ)
        → c.usage_total ≡ o
        → ((usage : ℕ) → Seen usage chunks (usage_after usage chunks))
        → Seen before
            (c ∷ chunks)
            (usage_after (elim o [ none ↦ before | some total ↦ total ]) chunks)
    seen none carries after = elim (after before) [
      | inl (silent, same) ↦ inl ((carries, silent), same)
      | inr reports ↦ inr (later _ reports)
    ]
    seen (some total) carries after = elim (after total) [
      | inl (silent, same) ↦ inr (record {
        earlier = [];
        last = c;
        others = chunks;
        parts = refl;
        carried = carries ∙ ap some (sym same);
        silent_after = silent;
      })
      | inr reports ↦ inr (later _ reports)
    ]

-- The usage as it was seen, if it is not zero, or else the estimate.
billed :
    (input : ℕ) (chunks : List Chunk) (usage : ℕ)
    → Seen 0 chunks usage
    → IsUsage input chunks (if usage == 0 then input + streamed_chars chunks / 4 else usage)
unfolding Seen
billed input chunks zero (inl (silent, same)) = IsUsage.estimated (inl silent) refl
billed input chunks zero (inr reports) = IsUsage.estimated (inr reports) refl
billed input chunks (suc n) (inl (silent, same)) = absurd (omega (arith, same))
billed input chunks (suc n) (inr reports) =
    let positive : (suc n == 0) ≡ false = ground arith in
    rw positive (IsUsage.reported reports (λ e. absurd (omega (arith, e))))

pub stream_usage-IsUsage :
    (estimated_input : ℕ) (chunks : List Chunk)
    → IsUsage estimated_input chunks (stream_usage estimated_input chunks)
unfolding stream_usage
stream_usage-IsUsage input chunks =
    billed input chunks (usage_after 0 chunks) (usage_after-Seen 0 chunks)
