-- ===== src/Routing/Aliases/Problems.antt =====
-- What it means that the table of aliases has no problems.
use zk_ai.Prelude.{
  ◌≡◌, ◌≢◌, ◌↔◌, ◌⊎◌, inl, inr, refl, String, true, List, [], ◌∷◌, ◌++◌, All, one_of, arith,
  Bool-cases,
}
use zk_ai.Routing.Aliases.{
  ModelAliasConfig, AliasRegistry, is_alias, all, target_problems, alias_problems, problems_of,
  validate,
}

module _ (registry : AliasRegistry) (model_ids : List String) where
  -- The target is a model or an alias.
  abbrev pub IsKnown : String → Type 0
  IsKnown target = (one_of target model_ids ≡ true) ⊎ (is_alias registry target ≡ true)

  -- The alias has targets, and all of them are known.
  abbrev pub IsUsable : ModelAliasConfig → Type 0
  IsUsable alias = (alias.targets ≢ []) × All IsKnown alias.targets

  no_target_problems :
      (name : String) (targets : List String)
      → target_problems registry model_ids name targets ≡ []
      → All IsKnown targets
  unfolding target_problems
  no_target_problems name [] h = tt
  no_target_problems name (t ∷ targets) h = elim (Bool-cases (one_of t model_ids)) [
    | inl known ↦ (inl known, no_target_problems name targets (rw known at h))
    | inr unknown ↦ elim (Bool-cases (is_alias registry t)) [
      | inl there ↦ (inr there, no_target_problems name targets (rw (unknown, there) at h))
      | inr gone ↦ absurd (ground (arith, h, unknown, gone))
    ]
  ]

  targets_known :
      (name : String) (targets : List String)
      → All IsKnown targets
      → target_problems registry model_ids name targets ≡ []
  unfolding target_problems
  targets_known name [] h = refl
  targets_known name (t ∷ targets) h = elim h.0 [
    | inl known ↦ rw known (targets_known name targets h.1)
    | inr there ↦ ground (arith, there, targets_known name targets h.1)
  ]

  append-empty : (xs ys : List String) → (xs ++ ys ≡ []) ↔ ((xs ≡ []) × (ys ≡ []))
  append-empty [] ys = ground arith
  append-empty (x ∷ xs) ys = ground arith

  alias_problems-usable :
      (alias : ModelAliasConfig) (name : String) (targets : List String)
      → (alias_problems registry model_ids name targets ≡ [])
        ↔ ((targets ≢ []) × All IsKnown targets)
  alias_problems-usable alias name [] = (λ h. absurd (ground (arith, h)), λ h. absurd (h.0 refl))
  alias_problems-usable alias name (t ∷ targets) = (
    λ h. (ground arith, no_target_problems name (t ∷ targets) h),
    λ h. targets_known name (t ∷ targets) h.1,
  )

  no_problems :
      (aliases : List ModelAliasConfig)
      → (problems_of registry model_ids aliases ≡ []) ↔ All IsUsable aliases
  unfolding problems_of
  no_problems [] = (λ _. tt, λ _. refl)
  no_problems (a ∷ aliases) =
      let split =
        append-empty (alias_problems registry model_ids a.name a.targets)
          (problems_of registry model_ids aliases) in
      let first = alias_problems-usable a a.name a.targets in
      let rest = no_problems aliases in
      (λ h. (first.0 (split.0 h).0, rest.0 (split.0 h).1), λ h. split.1 (first.1 h.0, rest.1 h.1))

-- `validate` finds no problem exactly if each alias of the table has targets and each target of
-- each alias is a model or an alias of the table.
pub validate-IsUsable :
    (registry : AliasRegistry) (model_ids : List String)
    → (validate registry model_ids ≡ []) ↔ All (IsUsable registry model_ids) (all registry)
validate-IsUsable registry model_ids = no_problems registry model_ids (all registry)
