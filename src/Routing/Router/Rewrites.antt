-- ===== src/Routing/Router/Rewrites.antt =====
-- The rewriting of a request by its shape.
use zk_ai.Prelude.{
  ◌≡◌, refl, sym, subst, ◌⊎◌, inl, inr, String, str_eq, eq_iff, Bool, true, false, not, ◌&&◌, some,
  List, [], ◌∷◌, keep_if, any_of, one_of, is_some, leb, ◌==◌, arith, Bool-cases,
}
use zk_ai.Prelude.Dict.{Dict, lookup, keys}
use zk_ai.Routing.Aliases.{names, expand}
use zk_ai.Routing.Capability.{ChatRequest}
use zk_ai.Routing.AgentAuto.{
  rewrite_model, available_alias, alias_by_shape, agent_auto_alias, rewrite_targets,
  has_tool_result, tool_turn_is_mechanical, long_context_tokens, bulk_tool_tokens,
}
use zk_ai.Routing.Router.{
  Router, model_ids, Resolved, resolved, targets_of, resolve_model_ids, has_any, servable_aliases,
  served_name,
}

-- The name leads to models.
abbrev pub IsResolved {ℓ} : {A : Type ℓ} → Resolved A → Type 0
IsResolved (resolved a) = Unit
IsResolved Resolved.alias_not_found = ⊥
IsResolved Resolved.model_not_found = ⊥

-- Only `zk-auto` is rewritten, to one of the targets.
alias_by_shape-cases :
    (request : ChatRequest)
    → (alias_by_shape request ≡ request.model)
      ⊎ ((request.model ≡ agent_auto_alias)
          × (one_of (alias_by_shape request) rewrite_targets ≡ true))
unfolding alias_by_shape
alias_by_shape-cases request = elim (Bool-cases (str_eq request.model agent_auto_alias)) [
  | inr other ↦ inl (rw other refl)
  | inl auto ↦ elim (Bool-cases (any_of (λ m. m.has_image) request.messages)) [
    | inl image ↦ inr ((eq_iff request.model agent_auto_alias).0 auto, rw (auto, image) refl)
    | inr no_image ↦
        elim (Bool-cases (has_tool_result request.messages && tool_turn_is_mechanical)) [
          | inl tool ↦
              inr ((eq_iff request.model agent_auto_alias).0 auto, rw (auto, no_image, tool) refl)
          | inr no_tool ↦
              elim (Bool-cases (leb long_context_tokens request.estimated_input_tokens)) [
                | inl long ↦ inr (
                  (eq_iff request.model agent_auto_alias).0 auto,
                  rw (auto, no_image, no_tool, long) refl,
                )
                | inr short ↦
                    elim (Bool-cases (
                      not (request.tools == 0)
                      && leb bulk_tool_tokens request.estimated_input_tokens)) [
                        | inl bulk ↦ inr (
                          (eq_iff request.model agent_auto_alias).0 auto,
                          rw (auto, no_image, no_tool, short, bulk) refl,
                        )
                        | inr light ↦ inl (rw (auto, no_image, no_tool, short, light) refl)
                      ]
              ]
        ]
  ]
]

module _ (router : Router) where
  keep_if-servable :
      (test : String → Bool) (name : String) (ns : List String)
      → one_of name (keep_if test ns) ≡ true
      → (test name ≡ true) × (one_of name ns ≡ true)
  keep_if-servable test name [] h = absurd (ground (arith, h))
  keep_if-servable test name (n ∷ ns) h = elim (Bool-cases (test n)) [
    | inl servable ↦ elim (Bool-cases (str_eq name n)) [
      | inl same ↦
          (subst (λ x. test x ≡ true) (sym ((eq_iff name n).0 same)) servable, ground (arith, same))
      | inr other ↦
          let more : one_of name (keep_if test ns) ≡ true = rw (servable, other) at h in
          let found = keep_if-servable test name ns more in (found.0, ground (arith, found.1))
    ]
    | inr gone ↦
        let more : one_of name (keep_if test ns) ≡ true = rw gone at h in
        let found = keep_if-servable test name ns more in (found.0, ground (arith, found.1))
  ]

  one_of-is_some :
      {V : Type 0} (name : String) (d : Dict V)
      → one_of name (keys d) ≡ true
      → is_some (lookup name d) ≡ true
  unfolding lookup
  one_of-is_some name [] h = absurd (ground (arith, h))
  one_of-is_some name ((j, v) ∷ d) h = elim (Bool-cases (str_eq j name)) [
    | inl same ↦ rw same refl
    | inr other ↦
        rw other (one_of-is_some name d (ground (arith, h, other, eq_iff name j, eq_iff j name)))
  ]

  targets_of-IsResolved :
      (name : String) (ids : List String) → has_any ids ≡ true → IsResolved (targets_of name ids)
  targets_of-IsResolved name [] h = absurd (ground (arith, h))
  targets_of-IsResolved name (id ∷ ids) h = tt

  -- An alias that is servable leads to models.
  servable-IsResolved :
      (name : String)
      → one_of name (servable_aliases router) ≡ true
      → IsResolved (resolve_model_ids router name)
  unfolding servable_aliases resolve_model_ids
  servable-IsResolved name h =
      let found =
        keep_if-servable (λ n. has_any (expand router.registry (model_ids router) n)) name
          (names router.registry) h in
      let there = one_of-is_some name router.registry.aliases found.1 in
      elim (Bool-cases (is_some (lookup name router.models))) [
        | inl model ↦ rw model tt
        | inr none_there ↦ rw (none_there, there) (targets_of-IsResolved name _ found.0)
      ]

  available_alias-IsResolved :
      (request : ChatRequest) (rewritten : String)
      → (rewritten ≡ request.model)
        ⊎ ((request.model ≡ agent_auto_alias) × (one_of rewritten rewrite_targets ≡ true))
      → one_of request.model rewrite_targets ≡ false
      → IsResolved (resolve_model_ids router request.model)
      → IsResolved
          (resolve_model_ids router (available_alias rewritten (some (servable_aliases router))))
  available_alias-IsResolved request rewritten (inl same) free h =
      let kept : one_of rewritten rewrite_targets ≡ false =
        subst (λ n. one_of n rewrite_targets ≡ false) (sym same) free in
      rw kept (subst (λ n. IsResolved (resolve_model_ids router n)) (sym same) h)
  available_alias-IsResolved request rewritten (inr target) free h =
      elim (Bool-cases (one_of rewritten (servable_aliases router))) [
        | inl there ↦ rw (target.1, there) (servable-IsResolved rewritten there)
        | inr gone ↦
            rw (target.1, gone) (subst (λ n. IsResolved (resolve_model_ids router n)) target.0 h)
      ]

-- The rewriting never takes the models away from a request: if the name that the client sent leads
-- to models, and is not itself one of the two targets, so does the name that is served.
pub served_name-IsResolved :
    (router : Router) (request : ChatRequest)
    → one_of request.model rewrite_targets ≡ false
    → IsResolved (resolve_model_ids router request.model)
    → IsResolved (resolve_model_ids router (served_name router request))
unfolding served_name rewrite_model
served_name-IsResolved router request free h =
    available_alias-IsResolved router request (alias_by_shape request)
      (alias_by_shape-cases request) free h
