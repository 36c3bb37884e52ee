-- ===== src/Credentials/Pool/Waits.antt =====
-- app/credentials/pool.py: how long until a key is free, the operator's reset, and the statistics.
pub mod Exact
use zk_ai.Prelude.{
  ℕ, ◌+◌, min, String, Bool, true, false, Option, none, some, List, [], ◌∷◌, map, any_of, keep_if,
  if◌then◌else◌,
}
use zk_ai.Prelude.Dict.{Dict, lookup, insert, keys}
use zk_ai.Credentials.Cooldown.{CooldownPolicy}
use zk_ai.Credentials.Runtime.{CredentialStatus, CredentialRuntime, is_usable, cooldown_remaining}
use zk_ai.Credentials.Health.{mark_enabled, refresh}
use zk_ai.Credentials.Pool.{CredentialPool, ids_of, gather}

abbrev pub is_cooling : CredentialStatus → Bool
is_cooling CredentialStatus.cooldown = true
is_cooling _ = false

abbrev pub refresh_one :
    CooldownPolicy
    → ℕ
    → String
    → Option CredentialRuntime
    → Dict CredentialRuntime
    → Dict CredentialRuntime
refresh_one policy moment id none d = d
refresh_one policy moment id (some c) d = insert id (refresh policy c moment).0 d

unfoldable pub refresh_all :
    CooldownPolicy → ℕ → List String → Dict CredentialRuntime → Dict CredentialRuntime
refresh_all policy moment [] d = d
refresh_all policy moment (id ∷ ids) d =
    refresh_all policy moment ids (refresh_one policy moment id (lookup id d) d)

-- `min` with the least of the others, if there are others.
abbrev pub sooner : ℕ → Option ℕ → ℕ
sooner n none = n
sooner n (some m) = min n m

-- `min(waiting) if waiting else None`
abbrev pub least : List ℕ → Option ℕ
least [] = none
least (n ∷ ns) = some (sooner n (least ns))

-- The remaining cooldowns of the parked keys, unless a key is usable.
unfoldable pub shortest_wait : List CredentialRuntime → ℕ → Option ℕ
shortest_wait cs moment =
    if any_of (λ c. is_usable c false moment) cs
    then none
    else least (map (λ c. cooldown_remaining c moment) (keep_if (λ c. is_cooling c.status) cs))

unfoldable pub next_available_in : CredentialPool → String → ℕ → CredentialPool × Option ℕ
unfolding gather shortest_wait
next_available_in pool provider_id moment =
    let d = refresh_all pool.policy moment (ids_of pool provider_id) pool.credentials in
    (record pool { credentials = d }, shortest_wait (gather (ids_of pool provider_id) d) moment)

abbrev pub reset_one :
    String → Option CredentialRuntime → Dict CredentialRuntime → Dict CredentialRuntime × ℕ
reset_one id none d = (d, 0)
reset_one id (some c) d =
    if is_cooling c.status then (insert id (mark_enabled c).0 d, 1) else (d, 0)

unfoldable pub reset_all : List String → Dict CredentialRuntime → Dict CredentialRuntime × ℕ
reset_all [] d = (d, 0)
reset_all (id ∷ ids) d =
    let first = reset_one id (lookup id d) d in
    let rest = reset_all ids first.0 in (rest.0, first.1 + rest.1)

abbrev pub targets : CredentialPool → Option String → List String
targets pool none = keys pool.credentials
targets pool (some provider_id) = ids_of pool provider_id

-- The pool, and how many keys were reset.
unfoldable pub invalidate_cooldowns : CredentialPool → Option String → CredentialPool × ℕ
invalidate_cooldowns pool provider_id =
    let reset = reset_all (targets pool provider_id) pool.credentials in
    (record pool { credentials = reset.0 }, reset.1)
