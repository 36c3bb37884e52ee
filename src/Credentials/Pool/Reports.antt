-- ===== src/Credentials/Pool/Reports.antt =====
-- app/credentials/pool.py: the methods that change one key, and the spreading of a rate limit to
-- the keys that share its bucket. A key that is not in the pool changes nothing.
use zk_ai.Prelude.{
  ℕ, ◌+◌, ◌-◌, String, Bool, true, false, not, ◌&&◌, ◌||◌, Option, none, some, List, [], ◌∷◌, ◌==◌,
  str_eq, if◌then◌else◌,
}
use zk_ai.Prelude.Dict.{Dict, lookup, insert}
use zk_ai.Prelude.Text.{is_empty}
use zk_ai.Prelude.Round.{Uniform}
use zk_ai.Retry.Throttle.{kind_value}
use zk_ai.Retry.Info.{ErrorInfo, is_throttle}
use zk_ai.Credentials.Cooldown.{throttle_scope}
use zk_ai.Credentials.Runtime.{CredentialStatus, CredentialRuntime}
use zk_ai.Credentials.Health.{
  Transition, Move, Probe, on_success, on_failure, mark_disabled, mark_enabled,
  mark_from_health_check,
}
use zk_ai.Credentials.Affinity.{bind, names_session}
use zk_ai.Credentials.Pool.{CredentialPool, ids_of, candidates}
use zk_ai.Routing.Limits.{account_of}

-- The pool after the key `id` became `c`.
abbrev pub store : CredentialPool → String → CredentialRuntime → CredentialPool
store pool id c = record pool { credentials = insert id c pool.credentials }

abbrev pub pin_session : CredentialPool → String → ℕ → String → CredentialPool
pin_session pool credential_id moment session = record pool {
  affinity =
      bind pool.affinity_max_sessions session (credential_id, moment + pool.affinity_ttl)
        pool.affinity;
}

abbrev pub note_named : CredentialPool → String → ℕ → Option String → CredentialPool
note_named pool credential_id moment none = pool
note_named pool credential_id moment (some session) =
    if is_empty credential_id then pool else pin_session pool credential_id moment session

unfoldable pub note_affinity : CredentialPool → Option String → String → ℕ → CredentialPool
note_affinity pool session_key credential_id moment =
    note_named pool credential_id moment
      (if pool.affinity_enabled then names_session session_key else none)

-- `last_used_at = moment` and `in_flight += 1`
abbrev pub taken : CredentialRuntime → ℕ → CredentialRuntime
taken c moment = record c { last_used_at = some moment; in_flight = c.in_flight + 1 }

abbrev pub pick_from :
    CredentialPool × List CredentialRuntime → ℕ → CredentialPool × Option CredentialRuntime
pick_from (pool, []) moment = (pool, none)
pick_from (pool, c ∷ cs) moment = (store pool c.id (taken c moment), some (taken c moment))

unfoldable pub pick :
    CredentialPool → String → List String → ℕ → CredentialPool × Option CredentialRuntime
pick pool provider_id exclude moment =
    pick_from (candidates pool provider_id exclude false none moment) moment

-- `if credential.in_flight > 0: credential.in_flight -= 1`
abbrev pub landed : CredentialRuntime → CredentialRuntime
landed c = record c { in_flight = c.in_flight - 1 }

-- What a method does to the key with the id, if it is there.
module _ (id : String) (pool : CredentialPool) where
  abbrev pub change :
      (CredentialRuntime → CredentialRuntime) → Option CredentialRuntime → CredentialPool
  change f none = pool
  change f (some c) = store pool id (f c)

  abbrev pub move :
      (CredentialRuntime → Move) → Option CredentialRuntime → CredentialPool × Option Transition
  move f none = (pool, none)
  move f (some c) = let m = f c in (store pool id m.0, some m.1)

unfoldable pub release : CredentialPool → String → CredentialPool
release pool id = change id pool landed (lookup id pool.credentials)

unfoldable pub report_success : CredentialPool → String → ℕ → ℕ → CredentialPool × Option Transition
report_success pool id latency_ms moment =
    move id pool (λ c. on_success (landed c) latency_ms moment) (lookup id pool.credentials)

unfoldable pub enable : CredentialPool → String → CredentialPool × Option Transition
enable pool id = move id pool mark_enabled (lookup id pool.credentials)

unfoldable pub disable : CredentialPool → String → String → CredentialPool × Option Transition
disable pool id reason = move id pool (λ c. mark_disabled c reason) (lookup id pool.credentials)

unfoldable pub apply_health_check :
    CredentialPool → String → Probe → ℕ → Uniform → CredentialPool × Option Transition
apply_health_check pool id probe moment rng =
    move id pool (λ c. mark_from_health_check pool.policy c probe moment rng)
      (lookup id pool.credentials)

-- An account-wide limit needs an account tag, or else it counts for the key alone.
abbrev pub narrowed : String → Option CredentialRuntime → String
narrowed scope none = scope
narrowed scope (some c) = elim (account_of c.tags) [
  | none ↦ if str_eq scope "account" then "credential" else scope
  | some tag ↦ scope
]

unfoldable pub effective_throttle_scope : CredentialPool → String → String → String
effective_throttle_scope pool id kind =
    narrowed (throttle_scope pool.policy kind) (lookup id pool.credentials)

-- `_account_tag_of(a) != _account_tag_of(b)`, negated.
abbrev pub same_tag : Option String → Option String → Bool
same_tag none none = true
same_tag (some a) (some b) = str_eq a b
same_tag _ _ = false

abbrev pub is_healthy_status : CredentialStatus → Bool
is_healthy_status CredentialStatus.healthy = true
is_healthy_status _ = false

-- The body of the loop of `_park_throttled_siblings`, for one sibling of the key `leader`.
unfoldable pub park : CredentialRuntime → String → ℕ → CredentialRuntime → CredentialRuntime
park leader scope until sibling =
    if str_eq sibling.id leader.id
      || ((str_eq scope "account"
            && not (same_tag (account_of sibling.tags) (account_of leader.tags)))
          || not (is_healthy_status sibling.status))
    then sibling
    else record sibling {
      status = CredentialStatus.cooldown;
      cooldown_until = some until;
      disabled_reason = some (if str_eq scope "provider" then "同供应商限流冷却中" else "同账号限流冷却中");
    }

abbrev pub park_one :
    CredentialRuntime
    → String
    → ℕ
    → String
    → Option CredentialRuntime
    → Dict CredentialRuntime
    → Dict CredentialRuntime
park_one leader scope until id none d = d
park_one leader scope until id (some sibling) d = insert id (park leader scope until sibling) d

unfoldable pub park_all :
    CredentialRuntime → String → ℕ → List String → Dict CredentialRuntime → Dict CredentialRuntime
park_all leader scope until [] d = d
park_all leader scope until (id ∷ ids) d =
    park_all leader scope until ids (park_one leader scope until id (lookup id d) d)

-- The end of the cooldown that spreads, if one does.
abbrev pub spreads : CredentialPool → CredentialRuntime → ErrorInfo → Transition → Option ℕ
spreads pool leader info transition =
    if transition.cooldown_seconds == 0
    then none
    else if not (is_throttle info.error_class)
    then none
    else if str_eq (effective_throttle_scope pool leader.id (kind_value info.throttle_kind))
        "credential"
    then none
    else transition.cooldown_until

abbrev pub park_until : CredentialPool → CredentialRuntime → String → Option ℕ → CredentialPool
park_until pool leader scope none = pool
park_until pool leader scope (some until) = record pool {
  credentials = park_all leader scope until (ids_of pool leader.provider_id) pool.credentials;
}

-- `_park_throttled_siblings`
unfoldable pub park_throttled_siblings :
    CredentialPool → CredentialRuntime → ErrorInfo → Transition → CredentialPool
park_throttled_siblings pool leader info transition =
    park_until pool leader (effective_throttle_scope pool leader.id (kind_value info.throttle_kind))
      (spreads pool leader info transition)

abbrev pub fail_at :
    CredentialPool
    → String
    → ErrorInfo
    → ℕ
    → Uniform
    → Option CredentialRuntime
    → CredentialPool × Option Transition
fail_at pool id info moment rng none = (pool, none)
fail_at pool id info moment rng (some c) =
    let m = on_failure pool.policy (landed c) info moment rng in
    (park_throttled_siblings (store pool id m.0) m.0 info m.1, some m.1)

unfoldable pub report_failure :
    CredentialPool → String → ErrorInfo → ℕ → Uniform → CredentialPool × Option Transition
report_failure pool id info moment rng =
    fail_at pool id info moment rng (lookup id pool.credentials)
