-- ===== src/Credentials/Pool/Reconcile.antt =====
-- app/credentials/pool.py: `reconcile`, which drops what has left the configuration.
use zk_ai.Prelude.{
  ℕ, ◌+◌, ◌≡◌, refl, String, Bool, true, false, ◌&&◌, ◌||◌, inl, inr, Bool-cases, Option, some,
  List, [], ◌∷◌, ◌++◌, one_of, keep_if, is_some, All, if◌then◌else◌, arith, str_eq, eq_iff,
}
use zk_ai.Prelude.Dict.{Dict, lookup, keys, values}
use zk_ai.Credentials.Runtime.{CredentialRuntime}
use zk_ai.Credentials.Pool.{CredentialPool, ids_of, ids_or_none}

-- The configuration of a provider, as far as the method reads it.
pub record ProviderConfig : Type 0 where
  pub credential_ids : List String

-- `{c.id for p in providers.values() for c in p.credentials}`
unfoldable pub configured_ids : List ProviderConfig → List String
configured_ids [] = []
configured_ids (p ∷ ps) = p.credential_ids ++ configured_ids ps

unfoldable pub is_kept : Dict ProviderConfig → String → CredentialRuntime → Bool
is_kept providers id c =
    one_of c.provider_id (keys providers) && one_of id (configured_ids (values providers))

-- The first loop, with the number of keys that are removed.
unfoldable pub keep_configured :
    Dict ProviderConfig → Dict CredentialRuntime → Dict CredentialRuntime × ℕ
keep_configured providers [] = ([], 0)
keep_configured providers ((id, c) ∷ d) =
    let rest = keep_configured providers d in
    if is_kept providers id c then ((id, c) ∷ rest.0, rest.1) else (rest.0, rest.1 + 1)

-- The second loop.
unfoldable pub keep_listed :
    Dict ProviderConfig → Dict CredentialRuntime → Dict (List String) → Dict (List String)
keep_listed providers d [] = []
keep_listed providers d ((provider_id, ids) ∷ by_provider) =
    let rest = keep_listed providers d by_provider in
    if one_of provider_id (keys providers)
    then (provider_id, keep_if (λ id. is_some (lookup id d)) ids) ∷ rest
    else rest

unfoldable pub reconcile : CredentialPool → Dict ProviderConfig → CredentialPool × ℕ
reconcile pool providers =
    let kept = keep_configured providers pool.credentials in
    (
      record pool {
        credentials = kept.0;
        by_provider = keep_listed providers kept.0 pool.by_provider;
      },
      kept.1,
    )

lookup-kept :
    (d : Dict CredentialRuntime) (providers : Dict ProviderConfig) (k : String)
    (c : CredentialRuntime)
    → lookup k d ≡ some c
    → is_kept providers k c ≡ true
    → lookup k (keep_configured providers d).0 ≡ some c
unfolding lookup keep_configured
lookup-kept [] providers k c at_k kept = ground arith
lookup-kept ((id, e) ∷ d) providers k c at_k kept =
    ground (arith, eq_iff id k, lookup-kept d providers k c)

kept-lookup :
    (d : Dict CredentialRuntime) (providers : Dict ProviderConfig) (k : String)
    (c : CredentialRuntime)
    → lookup k (keep_configured providers d).0 ≡ some c
    → is_kept providers k c ≡ true
unfolding lookup keep_configured
kept-lookup [] providers k c found = ground arith
kept-lookup ((id, e) ∷ d) providers k c found =
    ground (arith, eq_iff id k, kept-lookup d providers k c)

All-keep_if : (p : String → Bool) (ids : List String) → All (λ id. p id ≡ true) (keep_if p ids)
All-keep_if p [] = tt
All-keep_if p (id ∷ ids) = keep (p id) refl (All-keep_if p ids)
  where
    keep :
        (b : Bool)
        → p id ≡ b
        → All (λ x. p x ≡ true) (keep_if p ids)
        → All (λ x. p x ≡ true) (if b then id ∷ keep_if p ids else keep_if p ids)
    keep true h rest = (h, rest)
    keep false h rest = rest

-- Are all the listed ids in the pool?
AllHere : Dict CredentialRuntime → Option (List String) → Type 0
AllHere d listed = All (λ id. is_some (lookup id d) ≡ true) (ids_or_none listed)

keep_listed-AllHere :
    (by_provider : Dict (List String)) (providers : Dict ProviderConfig)
    (d : Dict CredentialRuntime) (p : String)
    → AllHere d (lookup p (keep_listed providers d by_provider))
unfolding lookup keep_listed AllHere
keep_listed-AllHere [] providers d p = tt
keep_listed-AllHere ((provider_id, ids) ∷ by_provider) providers d p =
    listed (one_of provider_id (keys providers)) (str_eq provider_id p) refl
      (keep_listed-AllHere by_provider providers d p)
  where
    rest : Dict (List String)
    rest = keep_listed providers d by_provider

    listed :
        (b same : Bool)
        → str_eq provider_id p ≡ same
        → All (λ id. is_some (lookup id d) ≡ true) (ids_or_none (lookup p rest))
        → All
            (λ id. is_some (lookup id d) ≡ true)
            (ids_or_none (
              lookup p (
                if b
                then (provider_id, keep_if (λ id. is_some (lookup id d)) ids) ∷ rest
                else rest)))
    listed false same h others = others
    listed true true h others = rw h (All-keep_if (λ id. is_some (lookup id d)) ids)
    listed true false h others = rw h others

-- Some provider of the configuration lists the id.
pub data Lists (id : String) : Dict ProviderConfig → Type 0 where
  here :
      {provider_id : String} {provider : ProviderConfig} {providers : Dict ProviderConfig}
      → one_of id provider.credential_ids ≡ true
      → Lists id ((provider_id, provider) ∷ providers)
  later :
      {provider_id : String} {provider : ProviderConfig} {providers : Dict ProviderConfig}
      → Lists id providers
      → Lists id ((provider_id, provider) ∷ providers)

-- The provider of the key is configured, and some provider lists its id, be it another one.
abbrev pub IsWanted : Dict ProviderConfig → String → CredentialRuntime → Type 0
IsWanted providers id c = (is_some (lookup c.provider_id providers) ≡ true) × Lists id providers

one_of_append :
    (id : String) (xs ys : List String) → one_of id (xs ++ ys) ≡ (one_of id xs || one_of id ys)
one_of_append id [] ys = refl
one_of_append id (x ∷ xs) ys = ground (arith, one_of_append id xs ys)

one_of-keys :
    (id : String) (providers : Dict ProviderConfig)
    → one_of id (keys providers) ≡ is_some (lookup id providers)
unfolding lookup
one_of-keys id [] = refl
one_of-keys id ((k, p) ∷ providers) =
    ground (arith, eq_iff id k, eq_iff k id, one_of-keys id providers)

Lists-configured_ids :
    (id : String) (providers : Dict ProviderConfig)
    → Lists id providers
    → one_of id (configured_ids (values providers)) ≡ true
unfolding configured_ids
Lists-configured_ids id [] listed = elim listed [ ]
Lists-configured_ids id ((k, p) ∷ providers) (Lists.here listed) =
    ground (arith, one_of_append id p.credential_ids (configured_ids (values providers)), listed)
Lists-configured_ids id ((k, p) ∷ providers) (Lists.later listed) = ground (
  arith,
  one_of_append id p.credential_ids (configured_ids (values providers)),
  Lists-configured_ids id providers listed,
)

configured_ids-Lists :
    (id : String) (providers : Dict ProviderConfig)
    → one_of id (configured_ids (values providers)) ≡ true
    → Lists id providers
unfolding configured_ids
configured_ids-Lists id [] h = absurd (ground (arith, h))
configured_ids-Lists id ((k, p) ∷ providers) h = elim (Bool-cases (one_of id p.credential_ids)) [
  | inl listed ↦ Lists.here listed
  | inr unlisted ↦
      let there : one_of id (configured_ids (values providers)) ≡ true = ground (
        arith,
        one_of_append id p.credential_ids (configured_ids (values providers)),
        h,
        unlisted,
      ) in
      Lists.later (configured_ids-Lists id providers there)
]

IsWanted-is_kept :
    (providers : Dict ProviderConfig) (id : String) (c : CredentialRuntime)
    → IsWanted providers id c
    → is_kept providers id c ≡ true
unfolding is_kept
IsWanted-is_kept providers id c h =
    ground (arith, one_of-keys c.provider_id providers, h.0, Lists-configured_ids id providers h.1)

is_kept-IsWanted :
    (providers : Dict ProviderConfig) (id : String) (c : CredentialRuntime)
    → is_kept providers id c ≡ true
    → IsWanted providers id c
unfolding is_kept
is_kept-IsWanted providers id c h = (
  ground (arith, one_of-keys c.provider_id providers, h),
  configured_ids-Lists id providers (ground (arith, h)),
)

-- Reconciling keeps a key, exactly as it is, if its provider is configured and some provider of the
-- configuration lists its id, be it another provider; it keeps no other key, so a key that the pool
-- made up for a provider without keys is lost; and every id that is still listed for a provider is
-- that of a key in the pool.
pub reconcile-configured :
    (pool : CredentialPool) (providers : Dict ProviderConfig) (k p : String) (c : CredentialRuntime)
    → let result = (reconcile pool providers).0 in
      (lookup k pool.credentials ≡ some c
        → IsWanted providers k c
        → lookup k result.credentials ≡ some c)
      × (lookup k result.credentials ≡ some c → IsWanted providers k c)
      × All (λ id. is_some (lookup id result.credentials) ≡ true) (ids_of result p)
unfolding reconcile AllHere
reconcile-configured pool providers k p c = (
  λ at_k configured.
      lookup-kept pool.credentials providers k c at_k (IsWanted-is_kept providers k c configured),
  λ found. is_kept-IsWanted providers k c (kept-lookup pool.credentials providers k c found),
  keep_listed-AllHere pool.by_provider providers (keep_configured providers pool.credentials).0 p,
)
