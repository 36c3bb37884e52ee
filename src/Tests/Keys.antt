-- ===== src/Tests/Keys.antt =====
-- The state of single keys and the cooldown policy at concrete inputs.
use zk_ai.Prelude.{
  ◌+◌, ◌*◌, ◌≤◌, ◌<◌, ◌≡◌, ◌≢◌, refl, true, false, Option, none, some, arith, leb, String, str_eq,
  [], if◌then◌else◌,
}
use zk_ai.Prelude.Round.{second}
use zk_ai.Credentials.Cooldown.{default_policy, rate_limit_cooldown, positive}
use zk_ai.Credentials.Cooldown.Bounds.{rate_limit_cooldown_bounds}
use zk_ai.Credentials.Runtime.{CredentialStatus, is_usable}
use zk_ai.Credentials.Config.{CredentialConfig, build_runtime, from_config, env_reference}
use zk_ai.Prelude.Text.{slice_to}
use zk_ai.Credentials.Health.{on_success, on_failure, mark_disabled, refresh, throttle_duration}
use zk_ai.Credentials.Health.Failures.{
  is_blamed, status_after, blank_error, on_failure-status_after, throttled_until, fatal_until,
}
use zk_ai.Credentials.Health.Recovery.{disabled_undone}
use zk_ai.Credentials.Health.Lifecycle.{IsSound, Event, step, Reachable, Reachable-IsSound}
use zk_ai.Retry.Classifier.{by_status}
use zk_ai.Tests.Data.{lowest, first_key, rate_limited, rejected}

rate_limit_cooldown_bounds_example :
    (second ≤ rate_limit_cooldown default_policy 5 (some (70 * second)) lowest)
    × (rate_limit_cooldown default_policy 5 (some (70 * second)) lowest ≤ 103500 * 100)
    × (positive (some (70 * second)) ≢ none
        → rate_limit_cooldown default_policy 5 (some (70 * second)) lowest ≤ 900 * second)
rate_limit_cooldown_bounds_example =
    rate_limit_cooldown_bounds default_policy 5 (some (70 * second)) lowest 103500 (omega arith)
      (omega arith)

on_failure-status_after_example :
    ((on_failure default_policy first_key rejected 50 lowest).0.status
      ≡ status_after first_key rejected)
    × (is_blamed rejected ≡ false
        → blank_error (on_failure default_policy first_key rejected 50 lowest).0
          ≡ blank_error first_key)
    × (is_blamed rejected ≡ true
        → ((on_failure default_policy first_key rejected 50 lowest).0.failure_count ≡ 1)
          × ((on_failure default_policy first_key rejected 50 lowest).0.consecutive_failures ≡ 1))
    × (rejected.error_type ≡ "overloaded"
        → 1 < first_key.max_consecutive_failures
        → (on_failure default_policy first_key rejected 50 lowest).0.status ≡ first_key.status)
on_failure-status_after_example =
    on_failure-status_after default_policy first_key rejected 50 lowest

throttled_until_example :
    is_usable
      (refresh default_policy (on_failure default_policy first_key rate_limited 50 lowest).0 70).0
      false
      70
    ≡ leb (50 + throttle_duration default_policy first_key rate_limited 50 lowest) 70
throttled_until_example =
    throttled_until default_policy first_key rate_limited 50 lowest 70 (omega arith)
      (unfold by_status in refl) (unfold by_status in refl)

fatal_until_example :
    is_usable
      (refresh default_policy (on_failure default_policy first_key rejected 50 lowest).0 70).0
      false
      70
    ≡ leb (50 + 300 * second) 70
fatal_until_example =
    fatal_until default_policy first_key rejected 50 lowest 70 (unfold by_status in refl)
      (unfold by_status in refl)

disabled_undone_example :
    (is_usable (mark_disabled first_key "leaked").0 true 5 ≡ false)
    × ((on_success (mark_disabled first_key "leaked").0 8 5).0.enabled ≡ false)
    × (is_usable
          (refresh default_policy (on_success (mark_disabled first_key "leaked").0 8 5).0 6).0
          false
          6
        ≡ true)
disabled_undone_example = disabled_undone default_policy first_key "leaked" 8 5 6

-- A key of the configuration, whose variable is set.
abbrev configured : CredentialConfig
configured = record {
  id = "key-a";
  provider_id = some "prov";
  env = some "KEY_A";
  env_var = none;
  value = none;
  enabled = true;
  priority = 100;
  weight = 1000;
  tags = [];
  max_consecutive_failures = 3;
}

abbrev resolve : String → Option String × String
resolve reference = if str_eq reference "${KEY_A}" then (some "sk-1", "env") else (none, "missing")

configured-built :
    ((build_runtime resolve false configured).status ≡ CredentialStatus.healthy)
    × ((build_runtime resolve false configured).secret ≡ some "sk-1")
    × ((build_runtime resolve false configured).secret_ref ≡ some "${KEY_A}")
unfolding build_runtime from_config env_reference slice_to
configured-built = (refl, refl, refl)

Reachable-IsSound_example : IsSound (
    step default_policy
      (step default_policy
        (build_runtime resolve false configured)
        (Event.failure rate_limited 50 lowest))
      (Event.tick 60))
Reachable-IsSound_example = Reachable-IsSound default_policy _ (
    Reachable.next _ (Event.tick 60) (
      Reachable.next _ (Event.failure rate_limited 50 lowest)
        (Reachable.registered resolve false configured)))
