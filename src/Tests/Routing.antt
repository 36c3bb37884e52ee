-- ===== src/Tests/Routing.antt =====
-- Quotas, deployments and the scheduler's decisions at concrete inputs.
use zk_ai.Prelude.{
  ℕ, suc, ◌*◌, ◌≤◌, ◌<◌, ◌≡◌, ◌≢◌, ◌⊎◌, refl, String, Bool, true, false, not, Option, none, some,
  List, [], ◌∷◌, All, length,
}
use mathlib.Core.List.{Perm}
use zk_ai.Prelude.Round.{second}
use zk_ai.Prelude.Dict.{lookup}
use zk_ai.Retry.Info.{ErrorInfo}
use zk_ai.Retry.Classifier.{by_status}
use zk_ai.Routing.Limits.{
  RateLimitRule, Bucket, RateLimiter, empty_bucket, prune, remaining, admit, is_spent, own_time,
  hit_time, rules_of, key_of,
}
use zk_ai.Routing.Limits.Admission.{Within, admit-remaining, admit-Within}
use zk_ai.Routing.Deployments.{Deployments, DeploymentHealth, Candidate, apply_deployment_affinity}
use zk_ai.Routing.Deployments.Preference.{SameFront, apply_deployment_affinity-reorders}
use zk_ai.Routing.Decide.{
  Next, decide, normalize_throttle, exhausted, attempt_timeout, wait_for_credential,
}
use zk_ai.Retry.Policy.{should_retry}
use zk_ai.Routing.Decide.Outcomes.{decide-abort, exhausted_blameless}
use zk_ai.Tests.Data.{classifier, retry_policy, rejected, failed}

abbrev timed_out : ErrorInfo
timed_out = by_status classifier 408 "late" none

decide-abort_example :
    ((timed_out.switch_credential ≡ false) × (timed_out.switch_provider ≡ false))
    × (should_retry retry_policy timed_out 1 ≡ false)
unfolding by_status decide zk_ai.Routing.Decide.is_abort zk_ai.Retry.Info.is_request_error
    should_retry zk_ai.Retry.Actions.is_actionable
decide-abort_example = decide-abort retry_policy timed_out 1 refl refl refl

exhausted_blameless_example :
    ((exhausted (failed ∷ rejected ∷ [])).http_status ≢ 401)
    × ((exhausted (failed ∷ rejected ∷ [])).http_status ≢ 403)
exhausted_blameless_example =
    exhausted_blameless classifier (failed ∷ rejected ∷ []) 401 "bad key" none refl

abbrev bucket : Bucket
bucket = record { hits = 10 ∷ 20 ∷ 30 ∷ []; token_hits = (10, 700) ∷ (30, 50) ∷ [] }

-- Two requests a minute for each key.
abbrev rule : RateLimitRule
rule = record {
  window_seconds = 60 * second;
  max_requests = some 2;
  max_tokens = none;
  scope = "credential";
}

abbrev limiter : List ℕ → RateLimiter
limiter hits = record {
  rules = ("prov", rule ∷ []) ∷ [];
  buckets = ("prov|credential|60|key-a", record empty_bucket { hits = hits }) ∷ [];
  dirty = false;
}

admit-remaining_example :
    (admit (limiter (5 ∷ [])) "prov" "key-a" [] 9).1
    ≡ not (is_spent (remaining (limiter (5 ∷ [])) "prov" "key-a" [] 9).1)
admit-remaining_example = admit-remaining (limiter (5 ∷ [])) "prov" "key-a" [] 9

admit-Within_example :
    All
      (Within
        (key_of (limiter (5 ∷ [])) "prov" "key-a" [])
        9
        (admit (limiter (5 ∷ [])) "prov" "key-a" [] 9).0.buckets)
      (rule ∷ [])
unfolding admit lookup zk_ai.Routing.Limits.check zk_ai.Routing.Limits.headroom
    zk_ai.Routing.Limits.bucket_key zk_ai.Prelude.Text.decimal zk_ai.Prelude.Dict.insert prune
    zk_ai.Routing.Limits.drop_expired
admit-Within_example =
    admit-Within (limiter (5 ∷ [])) "prov" "key-a" [] 9
      (admit (limiter (5 ∷ [])) "prov" "key-a" [] 9).0 (tt, tt) refl

abbrev failing : DeploymentHealth
failing = record {
  consecutive_failures = 2;
  quarantined_until = 0;
  last_error_type = "timeout";
  last_failure_at = 100;
}

abbrev deployments : Deployments
deployments = record {
  cooldowns = [];
  health = ("d1", failing) ∷ [];
  affinity = ("chat-1", ("d2", 90000)) ∷ [];
}

abbrev two_candidates : List Candidate
two_candidates =
    record { deployment_id = "d1"; provider_id = "prov"; model = "m1"; eligible = true }
    ∷ record { deployment_id = "d2"; provider_id = "prov"; model = "m2"; eligible = true }
    ∷ []

apply_deployment_affinity-reorders_example :
    Perm
      (apply_deployment_affinity deployments two_candidates (some "chat-1") false 150).1.0
      two_candidates
    × (false ≡ true
        → SameFront
            (apply_deployment_affinity deployments two_candidates (some "chat-1") false 150).1.0
            two_candidates)
apply_deployment_affinity-reorders_example =
    apply_deployment_affinity-reorders deployments two_candidates (some "chat-1") false 150
