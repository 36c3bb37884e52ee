-- ===== src/Credentials/Health.antt =====
-- app/credentials/health.py: every change of a key's status. Each method returns the key as it
-- leaves it, beside the transition that it reports. `moment` is the time of the call.
pub mod Failures
pub mod Recovery
pub mod Lifecycle
use zk_ai.Prelude.{
  ℕ, ◌+◌, ◌-◌, ◌*◌, ◌/◌, ◌≡◌, String, Bool, true, false, Option, none, some, List, [], ◌∷◌, leb,
  ltb, ◌==◌, str_eq, one_of, if◌then◌else◌,
}
use zk_ai.Prelude.Text.{slice_to, is_empty, or_text, ◌⧺◌}
use zk_ai.Prelude.Round.{Uniform}
use zk_ai.Retry.Info.{ErrorClass, ErrorInfo, new_info}
use zk_ai.Credentials.Cooldown.{CooldownPolicy, CooldownCall, cooldown_for}
use zk_ai.Credentials.Runtime.{CredentialStatus, CredentialRuntime, is_over}

-- `CREDENTIAL_FATAL`
abbrev pub credential_fatal : List String
credential_fatal = "authentication_error" ∷ "permission_denied" ∷ []

-- `THROTTLE_ERRORS`
abbrev pub throttle_errors : List String
throttle_errors = "rate_limit_error" ∷ []

abbrev pub reason_auto_recovered : String
reason_auto_recovered = "自动恢复（冷却结束）"

pub record Transition : Type 0 where
  pub credential_id : String
  pub provider_id : String
  pub previous : CredentialStatus
  pub current : CredentialStatus
  pub reason : String
  pub cooldown_until : Option ℕ
  pub cooldown_seconds : ℕ

abbrev pub Move : Type 0
Move = CredentialRuntime × Transition

-- `Transition(...)` after the key `c` became `d`, without a cooldown.
abbrev pub moved : CredentialRuntime → CredentialRuntime → String → Move
moved c d reason = (
  d,
  record {
    credential_id = c.id;
    provider_id = c.provider_id;
    previous = c.status;
    current = d.status;
    reason = reason;
    cooldown_until = none;
    cooldown_seconds = 0;
  },
)

abbrev is_reason : Option String → String → Bool
is_reason none r = false
is_reason (some s) r = str_eq s r

-- The moving average of the latency: three tenths of the new value, or all of it at first.
unfoldable pub latency_ema : ℕ → ℕ → ℕ
latency_ema ema latency =
    if ltb 0 latency then (if ema == 0 then latency else (7 * ema + 3 * latency) / 10) else ema

unfoldable pub on_success : CredentialRuntime → ℕ → ℕ → Move
on_success c latency_ms moment =
    moved c
      (record c {
        success_count = c.success_count + 1;
        consecutive_failures = 0;
        consecutive_rate_limits = 0;
        last_success_at = some moment;
        status = CredentialStatus.healthy;
        cooldown_until = none;
        last_error_type = none;
        last_error_detail = none;
        disabled_reason =
            if is_reason c.disabled_reason reason_auto_recovered then none else c.disabled_reason;
        latency_ema_ms = latency_ema c.latency_ema_ms latency_ms;
      })
      "success"

-- What every failure records about itself.
abbrev note_error : CredentialRuntime → ErrorInfo → ℕ → CredentialRuntime
note_error c info moment = record c {
  last_error_at = some moment;
  last_error_type = some info.error_type;
  last_error_detail = some (slice_to 300 info.message);
}

-- 401 and 403: the key itself is unusable.
fatal : CredentialRuntime → ErrorInfo → Move
fatal c info =
    let reason =
      (if str_eq info.error_type "authentication_error" then "Key 无效（401 认证失败）" else "无权限（403）") in
    moved c
      (record c {
        consecutive_failures = c.consecutive_failures + 1;
        status = CredentialStatus.unhealthy;
        cooldown_until = none;
        disabled_reason = some reason;
      })
      reason

-- `last_rl is not None and moment - last_rl >= rate_limit_decay`
abbrev pub is_decayed : CooldownPolicy → Option ℕ → ℕ → Bool
is_decayed p none moment = false
is_decayed p (some last) moment = leb (last + p.rate_limit_decay) moment

-- The length of the run of 429s, this one included.
unfoldable pub next_rate_limits : CooldownPolicy → CredentialRuntime → ℕ → ℕ
next_rate_limits p c moment =
    (if is_decayed p c.last_rate_limit_at moment then 0 else c.consecutive_rate_limits) + 1

unfoldable pub throttle_duration : CooldownPolicy → CredentialRuntime → ErrorInfo → ℕ → Uniform → ℕ
throttle_duration p c info moment rng =
    cooldown_for p
      (record {
        error_type = info.error_type;
        scope = or_text info.cooldown_scope "credential";
        retry_after = info.retry_after;
        consecutive_rate_limits = next_rate_limits p c moment;
        configured = none;
        quota_exhausted = info.quota_exhausted;
      })
      rng

-- 429: the cooldown policy says for how long.
throttled : CooldownPolicy → CredentialRuntime → ErrorInfo → ℕ → Uniform → Move
throttled p c info moment rng =
    let duration = throttle_duration p c info moment rng in
    let until = (if ltb 0 duration then some (moment + duration) else none) in
    let d = record c {
      rate_limit_count = c.rate_limit_count + 1;
      last_rate_limit_at = some moment;
      consecutive_rate_limits = next_rate_limits p c moment;
      consecutive_failures = c.consecutive_failures + 1;
      status = CredentialStatus.cooldown;
      cooldown_until = until;
      disabled_reason = some (if info.quota_exhausted then "套餐额度耗尽长休" else "限流冷却中");
    } in
    (
      d,
      record {
        credential_id = c.id;
        provider_id = c.provider_id;
        previous = c.status;
        current = CredentialStatus.cooldown;
        reason = info.error_type ⧺ " cooldown";
        cooldown_until = until;
        cooldown_seconds = duration;
      },
    )

-- Transient failures count, and park the key only when they repeat.
transient : CooldownPolicy → CredentialRuntime → ErrorInfo → ℕ → Move
transient p c info moment =
    let failures = c.consecutive_failures + 1 in
    if leb c.max_consecutive_failures failures
    then parked failures
    else moved c (record c { consecutive_failures = failures }) ("transient:" ⧺ info.error_type)
  where
    duration : ℕ
    duration = if info.cooldown_seconds == 0 then p.server_error_cooldown else info.cooldown_seconds

    parked : ℕ → Move
    parked failures = (
      record c {
        consecutive_failures = failures;
        status = CredentialStatus.cooldown;
        cooldown_until = some (moment + duration);
        disabled_reason = some ("连续失败冷却（" ⧺ info.error_type ⧺ "）");
      },
      record {
        credential_id = c.id;
        provider_id = c.provider_id;
        previous = c.status;
        current = CredentialStatus.cooldown;
        reason = info.error_type ⧺ " repeated";
        cooldown_until = some (moment + duration);
        cooldown_seconds = 0;
      },
    )

-- The caller's errors and the gateway's own are recorded and cost the key nothing.
unfoldable pub on_failure : CooldownPolicy → CredentialRuntime → ErrorInfo → ℕ → Uniform → Move
unfolding fatal throttled transient
on_failure p c info moment rng =
    let noted = note_error c info moment in
    let counted = record noted { failure_count = noted.failure_count + 1 } in
    elim info.error_class [
      | ErrorClass.client ↦ moved c noted ("client-error:" ⧺ info.error_type)
      | ErrorClass.internal ↦ moved c noted ("internal:" ⧺ info.error_type)
      | _ ↦
          if one_of info.error_type credential_fatal
          then fatal counted info
          else if one_of info.error_type throttle_errors
          then throttled p counted info moment rng
          else transient p counted info moment
    ]

unfoldable pub mark_disabled : CredentialRuntime → String → Move
mark_disabled c reason =
    moved c
      (record c {
        status = CredentialStatus.disabled;
        enabled = false;
        disabled_reason = some reason;
      })
      reason

unfoldable pub mark_enabled : CredentialRuntime → Move
mark_enabled c =
    moved c
      (record c {
        status = CredentialStatus.healthy;
        enabled = true;
        disabled_reason = none;
        cooldown_until = none;
        consecutive_failures = 0;
        consecutive_rate_limits = 0;
      })
      "enabled"

-- `status in {UNHEALTHY, COOLDOWN}`
abbrev pub is_parked : CredentialStatus → Bool
is_parked CredentialStatus.unhealthy = true
is_parked CredentialStatus.cooldown = true
is_parked _ = false

pub record Probe : Type 0 where
  pub is_healthy : Bool
  pub detail : Option String
  pub error_type : Option String

abbrev text_or : Option String → String → String
text_or none d = d
text_or (some s) d = or_text s d

-- `error_type and error_type not in CREDENTIAL_FATAL`
abbrev pub is_temporary : Option String → Bool
is_temporary none = false
is_temporary (some t) =
    if is_empty t then false else if one_of t credential_fatal then false else true

-- The 401 or 403 that a failed probe without a temporary cause counts as.
probe_info : Probe → ErrorInfo
probe_info probe =
    new_info (text_or probe.error_type "authentication_error") ErrorClass.credential
      (if is_reason probe.error_type "permission_denied" then 403 else 401)
      (text_or probe.detail "health check failed")

unfoldable pub mark_from_health_check :
    CooldownPolicy → CredentialRuntime → Probe → ℕ → Uniform → Move
unfolding probe_info mark_enabled
mark_from_health_check p c probe moment rng =
    if probe.is_healthy
    then (if is_parked c.status then moved c (mark_enabled c).0 "健康检查通过" else moved c c "健康检查通过")
    else if is_temporary probe.error_type
    then moved c
        (record c {
          last_error_at = some moment;
          last_error_type = probe.error_type;
          last_error_detail = some (slice_to 300 (text_or probe.detail String.[]));
        })
        ("探测失败（临时性）：" ⧺ text_or probe.error_type String.[])
    else on_failure p c (probe_info probe) moment rng

-- `last_error is not None and moment - last_error >= auto_recover_after`
abbrev pub is_rested : CooldownPolicy → Option ℕ → ℕ → Bool
is_rested p none moment = false
is_rested p (some last) moment = leb (last + p.auto_recover_after) moment

-- The key after a rest. The other fields stay as they are.
rested : CredentialRuntime → CredentialRuntime
rested c = record c {
  status = CredentialStatus.healthy;
  consecutive_failures = 0;
  disabled_reason = some reason_auto_recovered;
}

served : CredentialRuntime → CredentialRuntime
unfolding rested
served c = record (rested c) { cooldown_until = none; consecutive_rate_limits = 0 }

-- The key, and a transition if it changed.
unfoldable pub refresh :
    CooldownPolicy → CredentialRuntime → ℕ → CredentialRuntime × Option Transition
unfolding rested served
refresh p c moment = elim c.status [
  | CredentialStatus.unhealthy ↦
      if is_rested p c.last_error_at moment
      then (rested c, some (moved c (rested c) "冷却结束，自动恢复").1)
      else (c, none)
  | CredentialStatus.cooldown ↦
      if is_over c.cooldown_until moment
      then (served c, some (moved c (served c) "冷却结束，已恢复可用").1)
      else (c, none)
  | _ ↦ (c, none)
]
