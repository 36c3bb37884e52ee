-- ===== src/Credentials/Pool.antt =====
-- app/credentials/pool.py: the pool of keys. Every method holds the pool's lock, so each is one
-- step on the state; `moment` is the time of the call. A method returns the pool as it leaves it.
-- The log lines are left out.
pub mod Reports
pub mod Waits
pub mod Sound
pub mod Reconcile
pub mod Parking
pub mod Pins
pub mod Selection
use zk_ai.Prelude.{
  ℕ, ◌+◌, ◌-◌, ◌≡◌, min, max, String, Bool, true, false, not, ◌&&◌, ◌||◌, Option, none, some, List,
  [], ◌∷◌, ◌++◌, map, length, leb, ltb, ◌==◌, str_eq, one_of, any_of, keep_if, if◌then◌else◌,
}
use zk_ai.Prelude.Dict.{Dict, lookup, insert, remove, values}
use zk_ai.Prelude.Text.{is_empty}
use zk_ai.Prelude.Round.{Uniform, second}
use zk_ai.Retry.Throttle.{kind_value}
use zk_ai.Retry.Info.{ErrorInfo, is_throttle}
use zk_ai.Credentials.Cooldown.{CooldownPolicy, throttle_scope}
use zk_ai.Credentials.Runtime.{CredentialStatus, CredentialRuntime, is_usable, cooldown_remaining}
use zk_ai.Credentials.Health.{
  Transition, Move, Probe, on_success, on_failure, mark_disabled, mark_enabled,
  mark_from_health_check, refresh,
}
use zk_ai.Credentials.Affinity.{Binding, bind, bound, names_session}
use zk_ai.Credentials.Rotation.{Rotation}
use zk_ai.Routing.Limits.{RateLimiter, account_of, remaining, is_spent}

pub record CredentialPool : Type 1 where
  pub credentials : Dict CredentialRuntime
  pub by_provider : Dict (List String)
  pub policy : CooldownPolicy
  pub rotation : Rotation
  pub affinity_enabled : Bool
  pub affinity_ttl : ℕ
  pub affinity_max_sessions : ℕ
  pub affinity : Dict Binding
  pub rate_limiter : Option RateLimiter

-- `CredentialPool(...)`, whose `affinity_ttl` and `affinity_max_sessions` are raised to a minimum.
abbrev pub new_pool : CooldownPolicy → Rotation → Bool → ℕ → ℕ → Option RateLimiter → CredentialPool
new_pool policy rotation affinity_enabled ttl max_sessions rate_limiter = record {
  credentials = [];
  by_provider = [];
  policy = policy;
  rotation = rotation;
  affinity_enabled = affinity_enabled;
  affinity_ttl = max 300000 ttl;
  affinity_max_sessions = max 16 max_sessions;
  affinity = [];
  rate_limiter = rate_limiter;
}

-- `apply_affinity_config`, with the values that the mapping has or else its defaults.
unfoldable pub apply_affinity_config : CredentialPool → Bool → ℕ → ℕ → CredentialPool
apply_affinity_config pool enabled ttl max_sessions = record pool {
  affinity_enabled = enabled;
  affinity_ttl = max 300000 ttl;
  affinity_max_sessions = max 16 max_sessions;
}

abbrev pub ids_or_none : Option (List String) → List String
ids_or_none none = []
ids_or_none (some ids) = ids

abbrev pub ids_of : CredentialPool → String → List String
ids_of pool provider_id = ids_or_none (lookup provider_id pool.by_provider)

abbrev pub one_or_none : Option CredentialRuntime → List CredentialRuntime
one_or_none none = []
one_or_none (some c) = c ∷ []

-- The keys with these ids that are in the pool.
unfoldable pub gather : List String → Dict CredentialRuntime → List CredentialRuntime
gather [] d = []
gather (id ∷ ids) d = one_or_none (lookup id d) ++ gather ids d

unfoldable pub for_provider : CredentialPool → String → List CredentialRuntime
unfolding gather
for_provider pool provider_id = gather (ids_of pool provider_id) pool.credentials

-- The loop of `candidates`: a key that is not excluded is refreshed, and kept if it is usable.
module _ (policy : CooldownPolicy) (excluded : List String) (allow_cooldown : Bool)
    (moment : ℕ) where
  abbrev pub sweep_one :
      String
      → Option CredentialRuntime
      → Dict CredentialRuntime
      → Dict CredentialRuntime × List CredentialRuntime
  sweep_one id none d = (d, [])
  sweep_one id (some c) d =
      let c' = (refresh policy c moment).0 in
      if one_of c.id excluded
      then (d, [])
      else (insert id c' d, if is_usable c' allow_cooldown moment then c' ∷ [] else [])

  unfoldable pub sweep :
      List String → Dict CredentialRuntime → Dict CredentialRuntime × List CredentialRuntime
  sweep [] d = (d, [])
  sweep (id ∷ ids) d =
      let first = sweep_one id (lookup id d) d in
      let rest = sweep ids first.0 in (rest.0, first.1 ++ rest.1)

-- `[c for c in usable if limiter.remaining(...) > 0]`: a look at the room prunes the buckets.
unfoldable pub with_room :
    String → ℕ → List CredentialRuntime → RateLimiter → RateLimiter × List CredentialRuntime
with_room provider_id moment [] limiter = (limiter, [])
with_room provider_id moment (c ∷ cs) limiter =
    let look = remaining limiter provider_id c.id c.tags moment in
    let rest = with_room provider_id moment cs look.0 in
    (rest.0, if is_spent look.1 then rest.1 else c ∷ rest.1)

abbrev pub limited :
    String
    → Bool
    → ℕ
    → List CredentialRuntime
    → Option RateLimiter
    → Option RateLimiter × List CredentialRuntime
limited provider_id return_cooldown moment usable none = (none, usable)
limited provider_id true moment usable (some limiter) = (some limiter, usable)
limited provider_id false moment usable (some limiter) =
    let rest = with_room provider_id moment usable limiter in (some rest.0, rest.1)

abbrev pub pin_or :
    Bool
    → CredentialRuntime
    → List CredentialRuntime
    → Option (CredentialRuntime × List CredentialRuntime)
    → Option (CredentialRuntime × List CredentialRuntime)
pin_or true c rest later = some (c, rest)
pin_or false c rest none = none
pin_or false c rest (some (pinned, others)) = some (pinned, c ∷ others)

-- `ordered.pop(index)` at the first key with the id.
unfoldable pub take_pinned :
    String → List CredentialRuntime → Option (CredentialRuntime × List CredentialRuntime)
take_pinned id [] = none
take_pinned id (c ∷ cs) = pin_or (str_eq c.id id) c cs (take_pinned id cs)

abbrev pub pinned_first :
    List CredentialRuntime
    → Option (CredentialRuntime × List CredentialRuntime)
    → List CredentialRuntime
pinned_first ordered none = ordered
pinned_first ordered (some (pinned, others)) = pinned ∷ others

abbrev pub pin : List CredentialRuntime → Option String → List CredentialRuntime
pin ordered none = ordered
pin ordered (some id) = pinned_first ordered (take_pinned id ordered)

-- The pins after the look at the session's, and the keys in their new order. Where the pinned key is
-- not among them, the code also looks at its room for the log, which prunes the windows of the limiter:
-- this is left out like the log.
abbrev pub apply_pin :
    List CredentialRuntime
    → Option String
    → ℕ
    → Dict Binding
    → Dict Binding × List CredentialRuntime
apply_pin [] session_key moment d = (d, [])
apply_pin (c ∷ cs) none moment d = (d, c ∷ cs)
apply_pin (c ∷ cs) (some session) moment d =
    let look = bound session moment d in (look.0, pin (c ∷ cs) look.1)

-- `_apply_affinity`
unfoldable pub apply_affinity :
    CredentialPool
    → List CredentialRuntime
    → Option String
    → ℕ
    → CredentialPool × List CredentialRuntime
apply_affinity pool ordered session_key moment =
    let named = (if pool.affinity_enabled then names_session session_key else none) in
    let pinned = apply_pin ordered named moment pool.affinity in
    (record pool { affinity = pinned.0 }, pinned.1)

unfoldable pub candidates :
    CredentialPool
    → String
    → List String
    → Bool
    → Option String
    → ℕ
    → CredentialPool × List CredentialRuntime
candidates pool provider_id exclude return_cooldown session_key moment =
    let swept =
      sweep pool.policy exclude return_cooldown moment (ids_of pool provider_id) pool.credentials in
    let room = limited provider_id return_cooldown moment swept.1 pool.rate_limiter in
    apply_affinity (record pool { credentials = swept.0; rate_limiter = room.0 })
      (pool.rotation.order room.1) session_key moment
