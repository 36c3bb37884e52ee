-- ===== src/Credentials/Runtime.antt =====
-- app/models/credential.py: the state of one API key. Times are in ticks of 0.1 ms, `weight` is in
-- thousandths, `latency_ema_ms` in thousandths of a millisecond, and `priority` is not negative.
use zk_ai.Prelude.{
  ℕ, ◌-◌, String, Bool, true, false, not, Option, none, some, List, leb, str_eq, if◌then◌else◌,
}
use zk_ai.Prelude.Text.{is_empty}

pub data CredentialStatus : Type 0 where
  healthy cooldown unhealthy disabled : CredentialStatus

-- `status.value`
unfoldable pub status_value : CredentialStatus → String
status_value CredentialStatus.healthy = "healthy"
status_value CredentialStatus.cooldown = "cooldown"
status_value CredentialStatus.unhealthy = "unhealthy"
status_value CredentialStatus.disabled = "disabled"

pub record CredentialRuntime : Type 0 where
  pub id : String
  pub provider_id : String
  pub enabled : Bool
  pub priority : ℕ
  pub weight : ℕ
  pub status : CredentialStatus
  pub max_consecutive_failures : ℕ
  pub tags : List String
  pub secret : Option String
  pub secret_source : String
  pub secret_ref : Option String
  pub last_used_at : Option ℕ
  pub last_success_at : Option ℕ
  pub last_error_at : Option ℕ
  pub cooldown_until : Option ℕ
  pub success_count : ℕ
  pub failure_count : ℕ
  pub rate_limit_count : ℕ
  pub consecutive_failures : ℕ
  pub consecutive_rate_limits : ℕ
  pub last_error_type : Option String
  pub last_error_detail : Option String
  pub disabled_reason : Option String
  pub last_rate_limit_at : Option ℕ
  pub in_flight : ℕ
  pub latency_ema_ms : ℕ

-- A new object with the defaults of the dataclass.
abbrev pub new_runtime : String → String → CredentialRuntime
new_runtime id provider_id = record {
  id = id;
  provider_id = provider_id;
  enabled = true;
  priority = 100;
  weight = 1000;
  status = CredentialStatus.healthy;
  max_consecutive_failures = 3;
  tags = List.[];
  secret = none;
  secret_source = "missing";
  secret_ref = none;
  last_used_at = none;
  last_success_at = none;
  last_error_at = none;
  cooldown_until = none;
  success_count = 0;
  failure_count = 0;
  rate_limit_count = 0;
  consecutive_failures = 0;
  consecutive_rate_limits = 0;
  last_error_type = none;
  last_error_detail = none;
  disabled_reason = none;
  last_rate_limit_at = none;
  in_flight = 0;
  latency_ema_ms = 0;
}

unfoldable pub is_configured : CredentialRuntime → Bool
is_configured c = elim c.secret [ none ↦ false | some s ↦ not (is_empty s) ]

-- `cooldown_until is None or cooldown_until <= moment`
abbrev pub is_over : Option ℕ → ℕ → Bool
is_over none moment = true
is_over (some until) moment = leb until moment

unfoldable pub is_usable : CredentialRuntime → Bool → ℕ → Bool
is_usable c allow_cooldown moment = elim c.status [
  | CredentialStatus.disabled ↦ false
  | CredentialStatus.unhealthy ↦ false
  | CredentialStatus.cooldown ↦ if is_over c.cooldown_until moment then true else allow_cooldown
  | CredentialStatus.healthy ↦ true
]

unfoldable pub cooldown_remaining : CredentialRuntime → ℕ → ℕ
cooldown_remaining c moment = elim c.cooldown_until [ none ↦ 0 | some until ↦ until - moment ]

unfoldable pub status_from_str : String → CredentialStatus
status_from_str value =
    if str_eq value "healthy"
    then CredentialStatus.healthy
    else if str_eq value "cooldown"
    then CredentialStatus.cooldown
    else if str_eq value "unhealthy"
    then CredentialStatus.unhealthy
    else if str_eq value "disabled"
    then CredentialStatus.disabled
    else CredentialStatus.healthy
