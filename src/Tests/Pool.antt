-- ===== src/Tests/Pool.antt =====
-- The pool at concrete inputs: two keys that are in service and one that is not.
use zk_ai.Prelude.{
  is_some, ◌⊎◌, ◌+◌, ◌*◌, ◌≤◌, ◌≡◌, refl, true, false, none, some, [], ◌∷◌, All, arith, length,
  one_of,
}
use zk_ai.Prelude.Round.{second}
use zk_ai.Prelude.Dict.{Dict, lookup}
use zk_ai.Retry.Classifier.{by_status}
use zk_ai.Credentials.Cooldown.{throttle_scope}
use zk_ai.Credentials.Runtime.{CredentialRuntime, CredentialStatus, is_usable, new_runtime}
use zk_ai.Credentials.Health.{Transition}
use zk_ai.Credentials.Rotation.{priority_rotation}
use zk_ai.Credentials.Pool.{CredentialPool, ids_of, for_provider, candidates, apply_affinity}
use zk_ai.Credentials.Pool.Reconcile.{
  ProviderConfig, IsWanted, reconcile, is_kept, reconcile-configured,
}
use zk_ai.Credentials.Pool.Waits.{next_available_in}
use zk_ai.Credentials.Pool.Waits.Exact.{IsExact, settled, offered, next_available_in-IsExact}
use zk_ai.Credentials.Pool.Reports.{
  park_throttled_siblings, effective_throttle_scope, pick, note_affinity,
}
use zk_ai.Credentials.Pool.Parking.{
  IsParkedOr, park_throttled_siblings-careful, park_throttled_siblings-provider,
}
use zk_ai.Credentials.Pool.Selection.{IsPicked, pick-IsPicked}
use zk_ai.Credentials.Pool.Pins.{FrontIs, note_affinity-leads}
use zk_ai.Tests.Data.{wide_policy, first_key, second_key, dead_key, rate_limited}

abbrev pool : CredentialPool
pool = record {
  credentials = ("key-a", first_key) ∷ ("key-b", second_key) ∷ ("key-c", dead_key) ∷ [];
  by_provider = ("prov", "key-a" ∷ "key-b" ∷ "key-c" ∷ []) ∷ [];
  policy = wide_policy;
  rotation = priority_rotation;
  affinity_enabled = true;
  affinity_ttl = 1800 * second;
  affinity_max_sessions = 4096;
  affinity = [];
  rate_limiter = none;
}

-- The transition of a key that cools down for a minute.
abbrev cooled : Transition
cooled = record {
  credential_id = "key-a";
  provider_id = "prov";
  previous = CredentialStatus.healthy;
  current = CredentialStatus.cooldown;
  reason = "rate_limit_error cooldown";
  cooldown_until = some (60 * second + 50);
  cooldown_seconds = 60 * second;
}

park_throttled_siblings-careful_example :
    IsParkedOr
      (some (60 * second + 50))
      true
      second_key
      (lookup "key-b" (park_throttled_siblings pool first_key rate_limited cooled).credentials)
unfolding lookup
park_throttled_siblings-careful_example =
    park_throttled_siblings-careful pool first_key rate_limited cooled "key-b" second_key refl

park_throttled_siblings-provider_example :
    (parked : CredentialRuntime) × ((lookup "key-b"
          (park_throttled_siblings pool first_key rate_limited cooled).credentials
        ≡ some parked)
      × ((parked.status ≡ CredentialStatus.cooldown)
          × (parked.cooldown_until ≡ some (60 * second + 50))))
unfolding zk_ai.Routing.Limits.account_of zk_ai.Credentials.Cooldown.valid_or_credential
    zk_ai.Retry.Throttle.kind_value by_status zk_ai.Retry.Throttle.classify_throttle
park_throttled_siblings-provider_example =
    park_throttled_siblings-provider pool first_key rate_limited cooled "key-b" second_key
      (60 * second + 50) (unfold by_status in refl) wide refl refl (unfold lookup in refl) member
      refl refl
  where
    wide : effective_throttle_scope pool "key-a" "unknown" ≡ "provider"
    wide = unfold effective_throttle_scope throttle_scope lookup in refl

    member : one_of "key-b" (ids_of pool "prov") ≡ true
    member = unfold lookup in refl

pick-IsPicked_example :
    IsPicked
      ("key-b" ∷ [])
      7
      pool
      (candidates pool "prov" ("key-b" ∷ []) false none 7).1
      (pick pool "prov" ("key-b" ∷ []) 7).0
      (pick pool "prov" ("key-b" ∷ []) 7).1
pick-IsPicked_example = pick-IsPicked pool "prov" ("key-b" ∷ []) 7

note_affinity-leads_example :
    FrontIs "key-a"
      (apply_affinity
        (note_affinity pool (some "chat-1") "key-a" 7)
        (second_key ∷ first_key ∷ [])
        (some "chat-1")
        9).1
note_affinity-leads_example =
    note_affinity-leads pool "chat-1" "key-a" 7 9 (second_key ∷ first_key ∷ []) refl refl refl
      (omega arith) (omega arith) refl

-- Both keys that are in service cool down.
abbrev parked_pool : CredentialPool
parked_pool = record pool {
  credentials =
      ("key-a", record first_key { status = CredentialStatus.cooldown; cooldown_until = some 700 })
      ∷ (
        "key-b",
        record second_key { status = CredentialStatus.cooldown; cooldown_until = some 500 },
      )
      ∷ [];
}

next_available_in-IsExact_example :
    let result = next_available_in parked_pool "prov" 100 in
    let keys = settled (for_provider result.0 "prov") in
    ((offered parked_pool.policy keys 100 ≡ true) × (result.1 ≡ none))
    ⊎ ((offered parked_pool.policy keys 100 ≡ false)
        × IsExact (offered parked_pool.policy keys) 100 result.1)
next_available_in-IsExact_example = next_available_in-IsExact parked_pool "prov" 100

parked_pool-wait : (next_available_in parked_pool "prov" 100).1 ≡ some 400
unfolding next_available_in lookup zk_ai.Prelude.Dict.insert
    zk_ai.Credentials.Pool.Waits.refresh_all zk_ai.Credentials.Health.refresh
    zk_ai.Credentials.Pool.gather zk_ai.Credentials.Pool.Waits.shortest_wait is_usable
    zk_ai.Credentials.Runtime.cooldown_remaining
parked_pool-wait = refl

-- One key cools down for another 1510 s, the other is unhealthy and recovers by itself in 10 s.
abbrev recovering_pool : CredentialPool
recovering_pool = record pool {
  credentials =
      (
        "key-a",
        record first_key {
          status = CredentialStatus.cooldown;
          cooldown_until = some (1800 * second);
        },
      )
      ∷ ("key-b", record second_key { status = CredentialStatus.unhealthy; last_error_at = some 0 })
      ∷ [];
}

-- The wait that is answered, and what a selection after 10 s would find.
recovering_pool-wait :
    let result = next_available_in recovering_pool "prov" (290 * second) in
    (result.1 ≡ some (1510 * second))
    × (offered recovering_pool.policy (for_provider result.0 "prov") (300 * second) ≡ true)
unfolding next_available_in lookup zk_ai.Prelude.Dict.insert for_provider
    zk_ai.Credentials.Pool.Waits.refresh_all zk_ai.Credentials.Health.refresh
    zk_ai.Credentials.Pool.gather zk_ai.Credentials.Pool.Waits.shortest_wait is_usable
    zk_ai.Credentials.Runtime.cooldown_remaining
recovering_pool-wait = (refl, refl)

-- A provider with one key, and one that needs none, for which the pool has made up a key.
abbrev providers : Dict ProviderConfig
providers =
    ("prov", record { credential_ids = "key-a" ∷ [] })
    ∷ ("ollama", record { credential_ids = [] })
    ∷ []

abbrev local_key : CredentialRuntime
local_key = new_runtime "ollama-local" "ollama"

abbrev mixed_pool : CredentialPool
mixed_pool = record pool {
  credentials = ("key-a", first_key) ∷ ("key-b", second_key) ∷ ("ollama-local", local_key) ∷ [];
  by_provider = ("prov", "key-a" ∷ "key-b" ∷ []) ∷ ("ollama", "ollama-local" ∷ []) ∷ [];
}

reconcile-configured_example :
    (lookup "key-a" mixed_pool.credentials ≡ some first_key
      → IsWanted providers "key-a" first_key
      → lookup "key-a" (reconcile mixed_pool providers).0.credentials ≡ some first_key)
    × (lookup "key-a" (reconcile mixed_pool providers).0.credentials ≡ some first_key
        → IsWanted providers "key-a" first_key)
    × All
        (λ id. is_some (lookup id (reconcile mixed_pool providers).0.credentials) ≡ true)
        (ids_of (reconcile mixed_pool providers).0 "ollama")
reconcile-configured_example = reconcile-configured mixed_pool providers "key-a" "ollama" first_key

-- The provider that needs no key is left without the one it had.
mixed_pool-keyless :
    (lookup "ollama-local" mixed_pool.credentials ≡ some local_key)
    × (lookup "ollama-local" (reconcile mixed_pool providers).0.credentials ≡ none)
unfolding lookup reconcile zk_ai.Credentials.Pool.Reconcile.keep_configured is_kept
    zk_ai.Credentials.Pool.Reconcile.configured_ids
mixed_pool-keyless = (refl, refl)
