-- ===== src/Credentials/Cooldown.antt =====
-- app/credentials/cooldown.py: how long a key rests after a failure. Durations are in ticks of
-- 0.1 ms, ratios in thousandths, and the multiplier is a whole number.
pub mod Bounds
pub mod Scopes
use zk_ai.Prelude.{
  ℕ, ◌+◌, ◌-◌, ◌*◌, ◌^◌, min, max, String, Bool, true, false, ◌&&◌, Option, none, some, List, [],
  ◌∷◌, str_eq, one_of, ltb, ◌==◌, if◌then◌else◌,
}
use zk_ai.Prelude.Dict.{Dict, lookup, insert}
use zk_ai.Prelude.Round.{Uniform, second, round_div}

-- `_VALID_SCOPES`
abbrev pub valid_scopes : List String
valid_scopes = "credential" ∷ "account" ∷ "provider" ∷ []

pub record CooldownPolicy : Type 0 where
  pub rate_limit_base : ℕ
  pub rate_limit_max : ℕ
  pub rate_limit_multiplier : ℕ
  pub rate_limit_decay : ℕ
  pub quota_cooldown : ℕ
  pub quota_cooldown_max : ℕ
  pub auth_cooldown : ℕ
  pub server_error_cooldown : ℕ
  pub deployment_cooldown : ℕ
  pub jitter : ℕ
  pub auto_recover_after : ℕ
  pub throttle_scopes : Dict String

-- The defaults of the dataclass.
abbrev pub default_policy : CooldownPolicy
default_policy = record {
  rate_limit_base = 60 * second;
  rate_limit_max = 900 * second;
  rate_limit_multiplier = 2;
  rate_limit_decay = 1800 * second;
  quota_cooldown = 1800 * second;
  quota_cooldown_max = 14400 * second;
  auth_cooldown = 0;
  server_error_cooldown = 15 * second;
  deployment_cooldown = 30 * second;
  jitter = 150;
  auto_recover_after = 300 * second;
  throttle_scopes =
      ("quota", "account")
      ∷ ("throughput", "account")
      ∷ ("frequency", "credential")
      ∷ ("unknown", "credential")
      ∷ [];
}

-- A scope that is not known counts as `credential`.
unfoldable pub valid_or_credential : String → String
valid_or_credential scope = if one_of scope valid_scopes then scope else "credential"

-- `from_mapping`, the table of scopes: what is supplied overrides, and a scope that is not known
-- counts as `credential`.
unfoldable pub merge_scopes : Dict String → List (String × String) → Dict String
merge_scopes merged [] = merged
merge_scopes merged ((kind, scope) ∷ supplied) =
    merge_scopes (insert kind (valid_or_credential scope) merged) supplied

abbrev pub scope_of : Option String → String
scope_of none = "credential"
scope_of (some scope) = valid_or_credential scope

unfoldable pub throttle_scope : CooldownPolicy → String → String
throttle_scope p kind = scope_of (lookup kind p.throttle_scopes)

-- `round(max(1.0, n / d), 2)`
unfoldable pub at_least_second : ℕ → ℕ → ℕ
at_least_second n d = round_div (max (second * d) n) (100 * d) * 100

-- `1 + random.uniform(-jitter, jitter)`, in thousandths
abbrev pub factor : CooldownPolicy → Uniform → ℕ
factor p rng = rng.sample (1000 - p.jitter) (1000 + p.jitter)

unfoldable pub apply_jitter : CooldownPolicy → ℕ → Uniform → ℕ
apply_jitter p seconds rng =
    if ltb 0 p.jitter && ltb second seconds
    then at_least_second (seconds * factor p rng) 1000
    else at_least_second seconds 1

-- `retry_after is not None and retry_after > 0`
abbrev pub positive : Option ℕ → Option ℕ
positive none = none
positive (some t) = if t == 0 then none else some t

-- The ladder: the base doubles (by the multiplier) with each 429 in a row, up to the maximum.
unfoldable pub ladder : CooldownPolicy → ℕ → ℕ
ladder p consecutive_rate_limits =
    min (p.rate_limit_base * p.rate_limit_multiplier ^ (consecutive_rate_limits - 1))
      p.rate_limit_max

unfoldable pub rate_limit_cooldown : CooldownPolicy → ℕ → Option ℕ → Uniform → ℕ
rate_limit_cooldown p consecutive_rate_limits retry_after rng = elim (positive retry_after) [
  | some t ↦ min (max t second) p.rate_limit_max
  | none ↦
      let base = ladder p consecutive_rate_limits in
      if ltb 0 p.jitter then at_least_second (base * factor p rng) 1000 else at_least_second base 1
]

-- The long rest after a plan's quota ran out.
unfoldable pub quota_rest : CooldownPolicy → Option ℕ → Uniform → ℕ
quota_rest p retry_after rng = elim (positive retry_after) [
  | some t ↦ apply_jitter p (min (max t p.quota_cooldown) p.quota_cooldown_max) rng
  | none ↦ apply_jitter p p.quota_cooldown rng
]

pub record CooldownCall : Type 0 where
  pub error_type : String
  pub scope : String
  pub retry_after : Option ℕ
  pub consecutive_rate_limits : ℕ
  pub configured : Option ℕ
  pub quota_exhausted : Bool

unfoldable pub cooldown_for : CooldownPolicy → CooldownCall → Uniform → ℕ
cooldown_for p a rng = elim (positive a.configured) [
  | some t ↦ t
  | none ↦
      if str_eq a.scope "deployment"
      then p.deployment_cooldown
      else if one_of a.error_type ("rate_limit_error" ∷ "overloaded" ∷ [])
      then (if a.quota_exhausted
          then quota_rest p a.retry_after rng
          else rate_limit_cooldown p a.consecutive_rate_limits a.retry_after rng)
      else if one_of a.error_type ("authentication_error" ∷ "permission_denied" ∷ [])
      then p.auth_cooldown
      else if one_of a.error_type ("upstream_error" ∷ "timeout" ∷ "connection_error" ∷ [])
      then p.server_error_cooldown
      else 0
]
