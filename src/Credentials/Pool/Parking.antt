-- ===== src/Credentials/Pool/Parking.antt =====
-- Which keys a rate limit of one key takes out of service with it.
use zk_ai.Prelude.{
  ℕ, ◌≡◌, ◌⊎◌, inl, inr, refl, sym, ap, subst, ◌∙◌, String, Bool, true, false, not, Option, none,
  some, List, [], ◌∷◌, ◌==◌, str_eq, one_of, if◌then◌else◌, arith, eq_iff, Bool-cases,
}
use zk_ai.Prelude.Dict.{Dict, lookup, lookup-insert}
use zk_ai.Retry.Throttle.{kind_value}
use zk_ai.Retry.Info.{ErrorInfo, is_throttle}
use zk_ai.Credentials.Runtime.{CredentialStatus, CredentialRuntime}
use zk_ai.Credentials.Health.{Transition}
use zk_ai.Credentials.Pool.{CredentialPool, ids_of}
use zk_ai.Credentials.Pool.Reports.{
  park, park_one, park_all, park_until, park_throttled_siblings, spreads, effective_throttle_scope,
  is_healthy_status,
}

module _ (leader : CredentialRuntime) (scope : String) (until : ℕ) where
  abbrev park_in : Option CredentialRuntime → Option CredentialRuntime
  park_in none = none
  park_in (some c) = some (park leader scope until c)

  -- A key that is parked is not parked again.
  park-park :
      (c : CredentialRuntime)
      → park leader scope until (park leader scope until c) ≡ park leader scope until c
  unfolding park
  park-park c = ground arith

  park_in-park_in : (o : Option CredentialRuntime) → park_in (park_in o) ≡ park_in o
  park_in-park_in none = refl
  park_in-park_in (some c) = ap some (park-park c)

  same_name : (id k : String) → str_eq k id ≡ str_eq id k
  same_name id k = ground (arith, eq_iff id k, eq_iff k id)

  lookup-park_one :
      (id k : String) (o : Option CredentialRuntime) (d : Dict CredentialRuntime)
      → lookup id d ≡ o
      → lookup k (park_one leader scope until id o d)
        ≡ (if str_eq id k then park_in (lookup k d) else lookup k d)
  lookup-park_one id k none d at_id = elim (Bool-cases (str_eq id k)) [
    | inl same ↦
        let at_k = ap (λ x. lookup x d) (sym ((eq_iff id k).0 same)) ∙ at_id in rw (same, at_k)
    | inr other ↦ rw other
  ]
  lookup-park_one id k (some c) d at_id =
      lookup-insert id k (park leader scope until c) d ∙ (elim (Bool-cases (str_eq id k)) [
        | inl same ↦
            let at_k = ap (λ x. lookup x d) (sym ((eq_iff id k).0 same)) ∙ at_id in rw (same, at_k)
        | inr other ↦ rw other
      ])

  -- What becomes of the key `k`.
  lookup-park_all :
      (ids : List String) (d : Dict CredentialRuntime) (k : String)
      → lookup k (park_all leader scope until ids d)
        ≡ (if one_of k ids then park_in (lookup k d) else lookup k d)
  unfolding park_all
  lookup-park_all [] d k = refl
  lookup-park_all (id ∷ ids) d k =
      let once = lookup-park_one id k (lookup id d) d refl in
      let rest = lookup-park_all ids (park_one leader scope until id (lookup id d) d) k in
      let twice = park_in-park_in (lookup k d) in ground (arith, same_name id k)

park-status :
    (leader : CredentialRuntime) (scope : String) (until : ℕ) (c : CredentialRuntime)
    → (park leader scope until c ≡ c)
      ⊎ (c.status ≡ CredentialStatus.healthy)
        × (((park leader scope until c).status ≡ CredentialStatus.cooldown)
            × ((park leader scope until c).cooldown_until ≡ some until))
unfolding park
park-status leader scope until c = ground arith

-- A key after the parking: as it was, or parked with the leader.
abbrev pub IsParkedOr : Option ℕ → Bool → CredentialRuntime → Option CredentialRuntime → Type 0
IsParkedOr until member s after =
    (after ≡ some s)
    ⊎ ((member ≡ true) × (s.status ≡ CredentialStatus.healthy))
      × ((parked : CredentialRuntime) × ((after ≡ some parked)
            × ((parked.status ≡ CredentialStatus.cooldown) × (parked.cooldown_until ≡ until))))

park_in-IsParkedOr :
    (leader : CredentialRuntime) (scope : String) (until : ℕ) (member : Bool)
    (s : CredentialRuntime)
    → IsParkedOr (some until) member s (if member then some (park leader scope until s) else some s)
park_in-IsParkedOr leader scope until false s = inl refl
park_in-IsParkedOr leader scope until true s = elim (park-status leader scope until s) [
  | inl same ↦ inl (ap some same)
  | inr h ↦ inr ((refl, h.0), (park leader scope until s, (refl, h.1)))
]

park_until-IsParkedOr :
    (pool : CredentialPool) (leader : CredentialRuntime) (scope : String) (end : Option ℕ)
    (k : String) (s : CredentialRuntime)
    → lookup k pool.credentials ≡ some s
    → IsParkedOr end
        (one_of k (ids_of pool leader.provider_id))
        s
        (lookup k (park_until pool leader scope end).credentials)
park_until-IsParkedOr pool leader scope none k s at_k = inl at_k
park_until-IsParkedOr pool leader scope (some until) k s at_k =
    let ids = ids_of pool leader.provider_id in
    let after : lookup k (park_all leader scope until ids pool.credentials)
        ≡ (if one_of k ids then some (park leader scope until s) else some s) =
      lookup-park_all leader scope until ids pool.credentials k
      ∙ ap (λ o. if one_of k ids then park_in leader scope until o else o) at_k in
    subst (IsParkedOr (some until) (one_of k ids) s) (sym after)
      (park_in-IsParkedOr leader scope until (one_of k ids) s)

spreads-until :
    (pool : CredentialPool) (leader : CredentialRuntime) (info : ErrorInfo)
    (transition : Transition)
    → (spreads pool leader info transition ≡ none)
      ⊎ (spreads pool leader info transition ≡ transition.cooldown_until)
spreads-until pool leader info transition = ground arith

-- A rate limit spreads with care. Every other key either stays exactly as it was, in particular one
-- that is disabled, unhealthy, already cooling down or of another provider, or it was healthy
-- and cools down until the very moment that the reported key does.
pub park_throttled_siblings-careful :
    (pool : CredentialPool) (leader : CredentialRuntime) (info : ErrorInfo)
    (transition : Transition) (k : String) (s : CredentialRuntime)
    → lookup k pool.credentials ≡ some s
    → IsParkedOr transition.cooldown_until
        (one_of k (ids_of pool leader.provider_id))
        s
        (lookup k (park_throttled_siblings pool leader info transition).credentials)
unfolding park_throttled_siblings
park_throttled_siblings-careful pool leader info transition k s at_k =
    let scope = effective_throttle_scope pool leader.id (kind_value info.throttle_kind) in
    elim (spreads-until pool leader info transition) [
      | inl stays ↦
          inl (ap (λ o. lookup k (park_until pool leader scope o).credentials) stays ∙ at_k)
      | inr same ↦
          subst
            (λ o.
              IsParkedOr transition.cooldown_until (one_of k (ids_of pool leader.provider_id)) s
                (lookup k (park_until pool leader scope o).credentials))
            (sym same) (park_until-IsParkedOr pool leader scope transition.cooldown_until k s at_k)
    ]

park-provider :
    (leader : CredentialRuntime) (until : ℕ) (s : CredentialRuntime)
    → str_eq s.id leader.id ≡ false
    → is_healthy_status s.status ≡ true
    → ((park leader "provider" until s).status ≡ CredentialStatus.cooldown)
      × ((park leader "provider" until s).cooldown_until ≡ some until)
unfolding park
park-provider leader until s other healthy = ground arith

-- Under a provider-wide limit, a 429 that parks the reported key parks every healthy key of its
-- provider until the same moment.
pub park_throttled_siblings-provider :
    (pool : CredentialPool) (leader : CredentialRuntime) (info : ErrorInfo)
    (transition : Transition) (k : String) (s : CredentialRuntime) (until : ℕ)
    → is_throttle info.error_class ≡ true
    → effective_throttle_scope pool leader.id (kind_value info.throttle_kind) ≡ "provider"
    → (transition.cooldown_seconds == 0) ≡ false
    → transition.cooldown_until ≡ some until
    → lookup k pool.credentials ≡ some s
    → one_of k (ids_of pool leader.provider_id) ≡ true
    → str_eq s.id leader.id ≡ false
    → is_healthy_status s.status ≡ true
    → (parked : CredentialRuntime) × ((lookup k
            (park_throttled_siblings pool leader info transition).credentials
          ≡ some parked)
        × ((parked.status ≡ CredentialStatus.cooldown) × (parked.cooldown_until ≡ some until)))
unfolding park_throttled_siblings
park_throttled_siblings-provider pool leader info transition k s until throttle wide long ends at_k
      member other healthy =
    (park leader "provider" until s, (after, park-provider leader until s other healthy))
  where
    spread : spreads pool leader info transition ≡ some until
    spread =
        ap
          (λ b.
            if b
            then none
            else if not (is_throttle info.error_class)
            then none
            else if str_eq (effective_throttle_scope pool leader.id (kind_value info.throttle_kind))
                "credential"
            then none
            else transition.cooldown_until)
          long
        ∙ ap
            (λ b.
              if not b
              then none
              else if str_eq
                  (effective_throttle_scope pool leader.id (kind_value info.throttle_kind))
                  "credential"
              then none
              else transition.cooldown_until)
            throttle
        ∙ ap (λ x. if str_eq x "credential" then none else transition.cooldown_until) wide
        ∙ ends

    after :
        lookup k
          (park_until pool leader
            (effective_throttle_scope pool leader.id (kind_value info.throttle_kind))
            (spreads pool leader info transition)).credentials
        ≡ some (park leader "provider" until s)
    after =
        ap
          (λ o.
            lookup k
              (park_until pool leader
                (effective_throttle_scope pool leader.id (kind_value info.throttle_kind))
                o).credentials)
          spread
        ∙ ap (λ x. lookup k (park_until pool leader x (some until)).credentials) wide
        ∙ lookup-park_all leader "provider" until (ids_of pool leader.provider_id) pool.credentials
            k
        ∙ ap
            (λ b.
              if b
              then park_in leader "provider" until (lookup k pool.credentials)
              else lookup k pool.credentials)
            member
        ∙ ap (park_in leader "provider" until) at_k
