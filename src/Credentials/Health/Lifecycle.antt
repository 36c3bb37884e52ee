-- ===== src/Credentials/Health/Lifecycle.antt =====
-- The life of a key: how it is registered, everything that app/credentials/health.py and
-- app/credentials/pool.py do to it after that, and what holds of the key all the time.
use zk_ai.Prelude.{
  ℕ, ◌≤◌, ◌≡◌, ◌⊎◌, inl, inr, refl, String, str_eq, Bool, true, false, Option, none, some,
  if◌then◌else◌, arith,
}
use zk_ai.Prelude.Round.{Uniform}
use zk_ai.Retry.Info.{ErrorInfo}
use zk_ai.Credentials.Cooldown.{CooldownPolicy}
use zk_ai.Credentials.Runtime.{CredentialStatus, CredentialRuntime}
use zk_ai.Credentials.Config.{
  CredentialConfig, truthy, env_reference, from_config, inline_secret, with_reference, build_from,
  build_runtime, synthetic,
}
use zk_ai.Credentials.Pool.Reports.{taken, landed, park}
use zk_ai.Credentials.Health.{
  Probe, is_parked, is_temporary, on_success, on_failure, mark_disabled, mark_enabled,
  mark_from_health_check, refresh, Move, next_rate_limits,
}

-- Whether a key with the status may have the end of a cooldown noted.
abbrev pub may_cool : CredentialStatus → Bool
may_cool CredentialStatus.healthy = false
may_cool CredentialStatus.unhealthy = false
may_cool _ = true

-- A key that is healthy or unhealthy has no cooldown noted, and no run of failures or of rate
-- limits is longer than their total.
abbrev pub IsSound : CredentialRuntime → Type 0
IsSound c =
    ((may_cool c.status ≡ true) ⊎ (c.cooldown_until ≡ none))
    × ((c.consecutive_failures ≤ c.failure_count)
        × (c.consecutive_rate_limits ≤ c.rate_limit_count))

-- What may happen to a key in the pool: the methods of the health tracker, the lazy recovery, the
-- count of the requests in flight, and the parking by a rate limit of a key that shares the bucket.
pub data Event : Type 0 where
  success : ℕ → ℕ → Event
  failure : ErrorInfo → ℕ → Uniform → Event
  disable : String → Event
  enable : Event
  health_check : Probe → ℕ → Uniform → Event
  tick : ℕ → Event
  picked : ℕ → Event
  released : Event
  sibling_limited : CredentialRuntime → String → ℕ → Event

abbrev pub step : CooldownPolicy → CredentialRuntime → Event → CredentialRuntime
step p c (Event.success latency moment) = (on_success c latency moment).0
step p c (Event.failure info moment rng) = (on_failure p c info moment rng).0
step p c (Event.disable reason) = (mark_disabled c reason).0
step p c Event.enable = (mark_enabled c).0
step p c (Event.health_check probe moment rng) = (mark_from_health_check p c probe moment rng).0
step p c (Event.tick moment) = (refresh p c moment).0
step p c (Event.picked moment) = taken c moment
step p c Event.released = landed c
step p c (Event.sibling_limited leader scope until) = park leader scope until c

-- The keys that a sequence of events can lead to from a key as the pool registers it: one of the
-- configuration, or the one that stands for a provider without keys.
pub data Reachable (p : CooldownPolicy) : CredentialRuntime → Type 0 where
  registered :
      (resolve : String → Option String × String) (allow_inline_secrets : Bool)
      (config : CredentialConfig)
      → Reachable p (build_runtime resolve allow_inline_secrets config)
  keyless : (provider_id : String) → Reachable p (synthetic provider_id)
  next : (c : CredentialRuntime) (e : Event) → Reachable p c → Reachable p (step p c e)

from_config-IsSound :
    (config : CredentialConfig) (secret : Option String) (source : String)
    → IsSound (from_config config secret source)
unfolding from_config
from_config-IsSound config secret source = (inr refl, (omega arith, omega arith))

with_reference-IsSound :
    (config : CredentialConfig) (reference : String) (secret : Option String) (source : String)
    (missing : Bool)
    → str_eq source "missing" ≡ missing
    → IsSound (with_reference config reference (secret, source))
unfolding from_config
with_reference-IsSound config reference secret source true h =
    rw h (inl refl, (omega arith, omega arith))
with_reference-IsSound config reference secret source false h =
    rw h (inr refl, (omega arith, omega arith))

pub build_runtime-IsSound :
    (resolve : String → Option String × String) (allow_inline_secrets : Bool)
    (config : CredentialConfig)
    → IsSound (build_runtime resolve allow_inline_secrets config)
unfolding build_runtime
build_runtime-IsSound resolve allow config = built (env_reference config)
  where
    built : (o : Option String) → IsSound (build_from resolve allow config o)
    built none =
        let found = inline_secret allow config.enabled (truthy config.value) in
        from_config-IsSound config found.0 found.1
    built (some reference) =
        let found = resolve reference in
        with_reference-IsSound config reference found.0 found.1 (str_eq found.1 "missing") refl

on_failure-IsSound :
    (p : CooldownPolicy) (c : CredentialRuntime) (info : ErrorInfo) (moment : ℕ) (rng : Uniform)
    → IsSound c
    → IsSound (on_failure p c info moment rng).0
unfolding on_failure next_rate_limits
on_failure-IsSound p c info moment rng h = ground arith

if-IsSound : (b : Bool) (x y : Move) → IsSound x.0 → IsSound y.0 → IsSound (if b then x else y).0
if-IsSound true x y hx hy = hx
if-IsSound false x y hx hy = hy

enabled-IsSound : (c : CredentialRuntime) → IsSound (mark_enabled c).0
unfolding mark_enabled
enabled-IsSound c = ground arith

mark_from_health_check-IsSound :
    (p : CooldownPolicy) (c : CredentialRuntime) (probe : Probe) (moment : ℕ) (rng : Uniform)
    → IsSound c
    → IsSound (mark_from_health_check p c probe moment rng).0
unfolding mark_from_health_check
mark_from_health_check-IsSound p c probe moment rng h =
    if-IsSound probe.is_healthy _ _ (if-IsSound (is_parked c.status) _ _ (enabled-IsSound c) h)
      (if-IsSound (is_temporary probe.error_type) _ _ h (on_failure-IsSound p c _ moment rng h))

pub refresh-IsSound :
    (p : CooldownPolicy) (c : CredentialRuntime) (moment : ℕ)
    → IsSound c
    → IsSound (refresh p c moment).0
unfolding refresh
refresh-IsSound p c moment h = ground arith

park-IsSound :
    (leader : CredentialRuntime) (scope : String) (until : ℕ) (c : CredentialRuntime)
    → IsSound c
    → IsSound (park leader scope until c)
unfolding park
park-IsSound leader scope until c h = ground arith

pub step-IsSound :
    (p : CooldownPolicy) (c : CredentialRuntime) (e : Event) → IsSound c → IsSound (step p c e)
unfolding on_success mark_disabled mark_enabled
step-IsSound p c (Event.success latency moment) h = ground arith
step-IsSound p c (Event.failure info moment rng) h = on_failure-IsSound p c info moment rng h
step-IsSound p c (Event.disable reason) h = ground arith
step-IsSound p c Event.enable h = ground arith
step-IsSound p c (Event.health_check probe moment rng) h =
    mark_from_health_check-IsSound p c probe moment rng h
step-IsSound p c (Event.tick moment) h = refresh-IsSound p c moment h
step-IsSound p c (Event.picked moment) h = h
step-IsSound p c Event.released h = h
step-IsSound p c (Event.sibling_limited leader scope until) h = park-IsSound leader scope until c h

-- However calls succeed and fail, probes report, siblings are limited, the operator intervenes and
-- time passes: a key is sound from its registration on, whether it is one of the configuration, with
-- whatever secret is found, or stands for a provider without keys. While it is healthy or unhealthy
-- no end of a cooldown is noted, and no run of failures or of rate limits is longer than their total.
pub Reachable-IsSound : (p : CooldownPolicy) (c : CredentialRuntime) → Reachable p c → IsSound c
Reachable-IsSound p c (Reachable.registered resolve allow_inline_secrets config) =
    build_runtime-IsSound resolve allow_inline_secrets config
Reachable-IsSound p c (Reachable.keyless provider_id) = (inr refl, (omega arith, omega arith))
Reachable-IsSound p c (Reachable.next d e reached) =
    step-IsSound p d e (Reachable-IsSound p d reached)
