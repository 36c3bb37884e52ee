-- ===== src/Tests/Data.antt =====
-- Data for the tests: a classifier, a draw, policies, keys and failures.
use zk_ai.Prelude.{ℕ, ◌≤◌, true, false, none, [], ◌∷◌, arith, ◌*◌}
use zk_ai.Prelude.Round.{Uniform, second}
use zk_ai.Retry.Classifier.{ErrorClassifier, by_status}
use zk_ai.Retry.Info.{ErrorInfo}
use zk_ai.Retry.Backoff.{BackoffCalculator}
use zk_ai.Retry.Policy.{RetryPolicy}
use zk_ai.Credentials.Cooldown.{CooldownPolicy, default_policy}
use zk_ai.Credentials.Runtime.{CredentialRuntime, CredentialStatus, new_runtime}

-- The defaults of the configuration, with no letters beyond ASCII.
abbrev pub classifier : ErrorClassifier
classifier = record {
  default_cooldown = 15 * second;
  rate_limit_cooldown = 60 * second;
  deployment_cooldown = 30 * second;
  wide = λ _. false;
}

abbrev low_ge : (n : ℕ) → n ≤ n
low_ge n = omega arith

-- A generator that always draws the lower end.
abbrev pub lowest : Uniform
lowest = record {
  sample = λ low high. low;
  sample_ge = λ low high h. low_ge low;
  sample_le = λ low high h. h;
}

abbrev pub backoff : BackoffCalculator
backoff = record {
  base_delay = second;
  max_delay = 30 * second;
  multiplier = 2;
  jitter = 0;
  jitter_mode = "none";
}

abbrev pub retry_policy : RetryPolicy
retry_policy = record {
  max_retries_per_credential = 1;
  max_credentials_per_deployment = 6;
  max_deployments = 5;
  max_total_attempts = 12;
  stream_open_retries = 2;
  attempt_timeout_floor = 60 * second;
  attempt_timeout_margin = 2 * second;
  retry_client_errors = false;
  respect_retry_after = true;
  backoff = backoff;
}

-- Rate limits of every kind count for the whole provider.
abbrev pub wide_policy : CooldownPolicy
wide_policy = record default_policy { throttle_scopes = ("unknown", "provider") ∷ [] }

abbrev pub steady_policy : CooldownPolicy
steady_policy = record default_policy { jitter = 0 }

abbrev pub first_key : CredentialRuntime
first_key = new_runtime "key-a" "prov"

abbrev pub second_key : CredentialRuntime
second_key = record (new_runtime "key-b" "prov") { priority = 200 }

abbrev pub dead_key : CredentialRuntime
dead_key = record (new_runtime "key-c" "prov") {
  status = CredentialStatus.disabled;
  enabled = false;
}

abbrev pub rate_limited : ErrorInfo
rate_limited = by_status classifier 429 "slow down" none

abbrev pub rejected : ErrorInfo
rejected = by_status classifier 401 "bad key" none

abbrev pub failed : ErrorInfo
failed = by_status classifier 503 "down" none
