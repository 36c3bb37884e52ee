-- ===== src/Tests/Execute.antt =====
-- Requests and streams that are served from a pool of two keys, and the quotas of one key.
use zk_ai.Prelude.{
  All, suc, ◌*◌, ◌≡◌, refl, true, false, none, some, List, [], ◌∷◌, arith, inr, if◌then◌else◌,
  str_eq,
}
use zk_ai.Prelude.Round.{second}
use zk_ai.Prelude.Dict.{Dict, lookup, insert}
use zk_ai.Errors.{Exn}
use zk_ai.Credentials.Runtime.{CredentialRuntime}
use zk_ai.Credentials.Rotation.{priority_rotation}
use zk_ai.Credentials.Pool.{CredentialPool}
use zk_ai.Credentials.Pool.Sound.{AllEntries, AllEntries-insert, IsSoundPool}
use zk_ai.Routing.Limits.Rules.{Providers, configure, rules_or, IsRule, configure-rules}
use zk_ai.Routing.Limits.{rules_of, RateLimiter}
use zk_ai.Routing.Limits.History.{admissions, answers, admissions-answers, capped}
use zk_ai.Routing.Deployments.{Deployments, Candidate}
use zk_ai.Routing.Execute.{Upstream, Job, Reply, Feed}
use zk_ai.Routing.Execute.Loop.{execute}
use zk_ai.Routing.Execute.Kept.{OutcomeHolds}
use zk_ai.Routing.Execute.Ends.{Ends, execute-Ends}
use zk_ai.Routing.Execute.Trail.{IsTrail, execute-IsTrail}
use zk_ai.Routing.Execute.Sound.{HasSoundPool, execute-HasSoundPool}
use zk_ai.Routing.Execute.Stream.{stream}
use zk_ai.Routing.Execute.Stream.Ends.{stream-Ends}
use zk_ai.Routing.Execute.Stream.Trail.{IsStreamTrail, stream-IsStreamTrail}
use zk_ai.Routing.Execute.Stream.Told.{IsUntold, IsToldAs}
use zk_ai.Routing.Execute.Stream.Closed.{stream-IsToldAs}
use zk_ai.Tests.Data.{classifier, retry_policy, lowest, wide_policy, first_key, second_key}

abbrev stored_keys : Dict CredentialRuntime
stored_keys = insert "key-a" first_key (insert "key-b" second_key [])

abbrev pool : CredentialPool
pool = record {
  credentials = stored_keys;
  by_provider = ("prov", "key-a" ∷ "key-b" ∷ []) ∷ [];
  policy = wide_policy;
  rotation = priority_rotation;
  affinity_enabled = true;
  affinity_ttl = 1800 * second;
  affinity_max_sessions = 4096;
  affinity = [];
  rate_limiter = none;
}

abbrev deployments : Deployments
deployments = record { cooldowns = []; health = []; affinity = [] }

abbrev two_candidates : List Candidate
two_candidates =
    record { deployment_id = "d1"; provider_id = "prov"; model = "m1"; eligible = true }
    ∷ record { deployment_id = "d2"; provider_id = "prov"; model = "m2"; eligible = true }
    ∷ []

abbrev job : Job
job = record {
  policy = retry_policy;
  classifier = classifier;
  max_request_seconds = 300 * second;
  session_key = some "chat-1";
  adapters = "prov" ∷ [];
  wall_start = 100 * second;
  plan_length = 2;
}

-- The first deployment times out, the second one answers.
abbrev upstream : Upstream
upstream = record {
  chat = λ deployment key number limit.
      if str_eq deployment "d1"
      then (5 * second, Reply.raised (Exn.asyncio_timeout "late"))
      else (second, Reply.response 120);
  stream = λ deployment key number limit.
      if str_eq deployment "d1"
      then (5 * second, Feed.refused (Exn.asyncio_timeout "late"), 0)
      else (
        second,
        Feed.opened (record { characters = 12; usage_total = none })
            (record { characters = 30; usage_total = some 57 } ∷ []) none,
        2 * second,
      );
  estimated_input_tokens = 40;
  cooldown_draw = λ number. lowest;
  delay_draw = λ number. lowest;
}

execute-Ends_example :
    Ends (
      execute job upstream
        (suc job.policy.max_total_attempts)
        two_candidates
        false
        pool
        deployments)
execute-Ends_example = execute-Ends job upstream two_candidates false pool deployments

execute-IsTrail_example :
    OutcomeHolds
      (IsTrail job.policy)
      (λ _. IsTrail job.policy)
      (execute job upstream 13 two_candidates false pool deployments)
execute-IsTrail_example = execute-IsTrail job upstream 13 two_candidates false pool deployments

no_entries : AllEntries []
unfolding lookup
no_entries k c found = absurd (ground (arith, found))

pool_sound : IsSoundPool pool
pool_sound =
    AllEntries-insert (insert "key-b" second_key []) "key-a" first_key
      (AllEntries-insert [] "key-b" second_key no_entries
        (refl, (inr refl, (omega arith, omega arith))))
      (refl, (inr refl, (omega arith, omega arith)))

execute-HasSoundPool_example :
    OutcomeHolds HasSoundPool
      (λ _. HasSoundPool)
      (execute job upstream 13 two_candidates false pool deployments)
execute-HasSoundPool_example =
    execute-HasSoundPool job upstream 13 two_candidates false pool deployments pool_sound

stream-Ends_example :
    Ends (
      stream job upstream (suc job.policy.max_total_attempts) two_candidates false pool deployments)
stream-Ends_example = stream-Ends job upstream two_candidates false pool deployments

stream-IsStreamTrail_example :
    OutcomeHolds
      (IsTrail job.policy)
      (IsStreamTrail job.policy)
      (stream job upstream 13 two_candidates false pool deployments)
stream-IsStreamTrail_example =
    stream-IsStreamTrail job upstream 13 two_candidates false pool deployments

stream-IsToldAs_example :
    OutcomeHolds IsUntold
      (IsToldAs job upstream)
      (stream job upstream 13 two_candidates false pool deployments)
stream-IsToldAs_example = stream-IsToldAs job upstream 13 two_candidates false pool deployments

-- Two requests a minute for each key.
abbrev limiter : RateLimiter
limiter = record {
  rules = ("prov", capped (60 * second) 2 "credential" ∷ []) ∷ [];
  buckets = [];
  dirty = false;
}

admissions-answers_example :
    admissions "prov" "key-a" [] limiter (5 ∷ 7 ∷ 9 ∷ 700000 ∷ [])
    ≡ answers (60 * second) 2 [] (5 ∷ 7 ∷ 9 ∷ 700000 ∷ [])
unfolding lookup
admissions-answers_example =
    admissions-answers "prov" "key-a" [] (60 * second) 2 "credential" limiter
      (5 ∷ 7 ∷ 9 ∷ 700000 ∷ []) refl refl
      (omega arith, (omega arith, (omega arith, (omega arith, tt))))

-- The third request is refused, and the one after the window is admitted.
answered : answers (60 * second) 2 [] (5 ∷ 7 ∷ 9 ∷ 700000 ∷ []) ≡ true ∷ true ∷ false ∷ true ∷ []
answered = refl

abbrev entries : Providers
entries =
    (
      "prov",
      record {
        window_seconds = some (60 * second);
        max_requests = some 2;
        max_tokens = some 0;
        scope = "credential";
      }
          ∷ record {
            window_seconds = some (60 * second);
            max_requests = none;
            max_tokens = none;
            scope = "account";
          }
          ∷ [],
    )
    ∷ ("other", [])
    ∷ []

configure-rules_example :
    (rules_of (configure limiter entries) "prov" ≡ rules_or (lookup "prov" entries) [])
    × All IsRule (rules_of (configure limiter entries) "prov")
    × ((configure limiter entries).buckets ≡ limiter.buckets)
configure-rules_example = configure-rules limiter entries "prov" (refl, (refl, tt))
