-- ===== src/Routing/Router/Plans.antt =====
-- What every plan is like.
use zk_ai.Prelude.{
  ℕ, suc, ◌≡◌, refl, sym, subst, String, Bool, true, false, ◌&&◌, Option, none, some, List, [], ◌∷◌,
  ◌++◌, All, All-append, any_of, arith, if◌then◌else◌,
}
use mathlib.Core.List.{Perm}
use mathlib.Core.List.Perm
use zk_ai.Prelude.Dict.{lookup}
use zk_ai.Prelude.Sort.{All-Perm}
use zk_ai.Routing.Aliases.{AliasStrategy, ModelAliasConfig}
use zk_ai.Routing.Capability.{
  ModelConfig, DeploymentConfig, ProviderConfig, ChatRequest, CapabilityRequirement,
}
use zk_ai.Routing.Strategy.{RoutingCandidate, Cursor, order}
use zk_ai.Routing.Strategy.Orders.{EligibleFirst, order-Perm}
use zk_ai.Routing.Router.{
  Router, Resolved, resolved, Targets, has_any, candidate_under, deployments_of, model_candidates,
  candidates_from, relax, FrontModelOutcome, is_front, front_model_of, RoutingDecision, Oracles,
  arrange, arrange_or_relax, pins_first, strategy_of, alias_of, decide_plan, plan_targets, plan,
  resolve_model_ids, served_name,
}
use zk_ai.Routing.Router.Front.{
  Moves, Promotes, promote_front_model-Promotes, promote_front_model-Perm,
}

-- The model and the provider are enabled.
abbrev pub is_on : RoutingCandidate → Bool
is_on c = c.model.enabled && c.provider.enabled

abbrev pub AllOn : List RoutingCandidate → Type 0
AllOn cs = All (λ c. is_on c ≡ true) cs

if-AllOn :
    (b : Bool) (cs : List RoutingCandidate) → (b ≡ true → AllOn cs) → AllOn (if b then cs else [])
if-AllOn true cs h = h refl
if-AllOn false cs h = tt

module _ (router : Router) (requirement : CapabilityRequirement) where
  candidate_under-AllOn :
      (model : ModelConfig) (deployment : DeploymentConfig) (index : ℕ)
      (provider : Option ProviderConfig)
      → model.enabled ≡ true
      → AllOn (candidate_under router requirement model deployment index provider)
  candidate_under-AllOn model deployment index none on = tt
  candidate_under-AllOn model deployment index (some provider) on =
      if-AllOn provider.enabled _ (λ enabled. (ground (arith, on, enabled), tt))

  deployments_of-AllOn :
      (model : ModelConfig) (index : ℕ) (deployments : List DeploymentConfig)
      → model.enabled ≡ true
      → AllOn (deployments_of router requirement model index deployments)
  unfolding deployments_of
  deployments_of-AllOn model index [] on = tt
  deployments_of-AllOn model index (d ∷ ds) on =
      All-append (λ c. is_on c ≡ true)
        (candidate_under router requirement model d index (lookup d.provider_id router.providers)) _
        (candidate_under-AllOn model d index (lookup d.provider_id router.providers) on)
        (deployments_of-AllOn model index ds on)

  model_candidates-AllOn :
      (index : ℕ) (model : Option ModelConfig)
      → AllOn (model_candidates router requirement index model)
  model_candidates-AllOn index none = tt
  model_candidates-AllOn index (some model) =
      if-AllOn model.enabled _ (deployments_of-AllOn model index model.deployments)

  candidates_from-AllOn :
      (ids : List String) (index : ℕ) → AllOn (candidates_from router requirement index ids)
  unfolding candidates_from
  candidates_from-AllOn [] index = tt
  candidates_from-AllOn (id ∷ ids) index =
      All-append (λ c. is_on c ≡ true)
        (model_candidates router requirement index (lookup id router.models)) _
        (model_candidates-AllOn index (lookup id router.models))
        (candidates_from-AllOn ids (suc index))

relax-AllOn :
    (requirement : CapabilityRequirement) (cs : List RoutingCandidate)
    → AllOn cs
    → AllOn (relax requirement cs)
unfolding relax
relax-AllOn requirement [] h = tt
relax-AllOn requirement (c ∷ cs) h = (h.0, relax-AllOn requirement cs h.1)

All-without :
    (xs ys : List RoutingCandidate) (c : RoutingCandidate)
    → All (λ d. d.eligible ≡ false) (xs ++ c ∷ ys)
    → All (λ d. d.eligible ≡ false) (xs ++ ys)
All-without [] ys c h = h.1
All-without (x ∷ xs) ys c h = (h.0, All-without xs ys c h.1)

EligibleFirst-without :
    (xs ys : List RoutingCandidate) (c : RoutingCandidate)
    → EligibleFirst (xs ++ c ∷ ys)
    → EligibleFirst (xs ++ ys)
EligibleFirst-without [] ys c h = h.1
EligibleFirst-without (x ∷ xs) ys c h =
    (λ e. All-without xs ys c (h.0 e), EligibleFirst-without xs ys c h.1)

-- The promotion of a candidate that passes the gates keeps these in front.
Promotes-EligibleFirst :
    (wanted : Option String) (unavailable : List String) (ordered result : List RoutingCandidate)
    (outcome : FrontModelOutcome)
    → Promotes wanted unavailable ordered result outcome
    → EligibleFirst ordered
    → EligibleFirst result
Promotes-EligibleFirst wanted unavailable ordered [] (FrontModelOutcome.applied model) h e =
    elim h [ ]
Promotes-EligibleFirst wanted unavailable ordered (found ∷ others) (FrontModelOutcome.applied model)
      h e =
    let moved : Moves model unavailable ordered found others = h.1 in
    let leads : is_front model unavailable found ≡ true = moved.leads in
    (
      λ blocked. absurd (ground (arith, leads, blocked)),
      subst EligibleFirst (sym moved.is_now)
          (EligibleFirst-without moved.before moved.after found (subst EligibleFirst moved.was e)),
    )
Promotes-EligibleFirst wanted unavailable ordered result (FrontModelOutcome.parked model) h e =
    subst EligibleFirst (sym h.0) e
Promotes-EligibleFirst wanted unavailable ordered result FrontModelOutcome.untouched h e =
    subst EligibleFirst (sym h.0) e

-- A plan of these candidates: it has some if they are any, those that pass the gates stand first, and
-- the model and the provider of each are enabled.
abbrev pub IsPlan : List RoutingCandidate → Type 0
IsPlan cs = (has_any cs ≡ true) × EligibleFirst cs × AllOn cs

Perm-has_any : (xs ys : List RoutingCandidate) → Perm xs ys → has_any ys ≡ true → has_any xs ≡ true
Perm-has_any [] ys p h = absurd (ground (arith, h, Perm.nil-eq p))
Perm-has_any (x ∷ xs) ys p h = refl

arrange-IsPlan :
    (oracles : Oracles) (unavailable : List String) (alias : Option ModelAliasConfig)
    (strategy : AliasStrategy) (cs : List RoutingCandidate) (cursor : Cursor)
    → has_any cs ≡ true
    → AllOn cs
    → IsPlan (arrange oracles unavailable alias strategy cs cursor).0
unfolding arrange
arrange-IsPlan oracles unavailable alias strategy cs cursor some_there on =
    let ranked = (order strategy oracles.choices (pins_first alias) cs cursor).0 in
    let sorted = order-Perm strategy oracles.choices (pins_first alias) cs cursor in
    let moved = Perm.trans (promote_front_model-Perm ranked alias unavailable) sorted.0 in
    (
      Perm-has_any _ cs moved some_there,
      Promotes-EligibleFirst (front_model_of alias) unavailable ranked _ _
          (promote_front_model-Promotes ranked alias unavailable) sorted.1,
      All-Perm is_on true _ cs moved on,
    )

relax-has_any :
    (requirement : CapabilityRequirement) (cs : List RoutingCandidate)
    → has_any cs ≡ true
    → has_any (relax requirement cs) ≡ true
unfolding relax
relax-has_any requirement [] h = h
relax-has_any requirement (c ∷ cs) h = refl

if-IsPlan :
    (b : Bool) (x y : (List RoutingCandidate × FrontModelOutcome) × Cursor)
    → IsPlan x.0.0
    → IsPlan y.0.0
    → IsPlan (if b then x else y).0.0
if-IsPlan true x y hx hy = hx
if-IsPlan false x y hx hy = hy

arrange_or_relax-IsPlan :
    (oracles : Oracles) (unavailable : List String) (alias : Option ModelAliasConfig)
    (strategy : AliasStrategy) (requirement : CapabilityRequirement) (cs : List RoutingCandidate)
    (cursor : Cursor)
    → has_any cs ≡ true
    → AllOn cs
    → IsPlan (arrange_or_relax oracles unavailable alias strategy requirement cs cursor).0.0
unfolding arrange_or_relax
arrange_or_relax-IsPlan oracles unavailable alias strategy requirement cs cursor some_there on =
    if-IsPlan (any_of (λ c. c.eligible) (arrange oracles unavailable alias strategy cs cursor).0) _
      _ (arrange-IsPlan oracles unavailable alias strategy cs cursor some_there on)
      (arrange-IsPlan oracles unavailable alias strategy (relax requirement cs) _
        (relax-has_any requirement cs some_there) (relax-AllOn requirement cs on))

abbrev pub Plans : Resolved (RoutingDecision × Cursor) → Type 0
Plans (resolved (decision, cursor)) = IsPlan decision.candidates
Plans Resolved.alias_not_found = Unit
Plans Resolved.model_not_found = Unit

decide_plan-Plans :
    (router : Router) (oracles : Oracles) (unavailable : List String) (request : ChatRequest)
    (targets : Targets) (requirement : CapabilityRequirement) (cs : List RoutingCandidate)
    (cursor : Cursor)
    → AllOn cs
    → Plans (decide_plan router oracles unavailable request targets requirement cs cursor)
decide_plan-Plans router oracles unavailable request targets requirement [] cursor on = tt
decide_plan-Plans router oracles unavailable request targets requirement (c ∷ cs) cursor on =
    let alias = alias_of router targets.alias_name in
    arrange_or_relax-IsPlan oracles unavailable alias
      (strategy_of alias (lookup targets.first router.models)) requirement (c ∷ cs) cursor refl on

plan_targets-Plans :
    (router : Router) (oracles : Oracles) (unavailable : List String) (request : ChatRequest)
    (cursor : Cursor) (found : Resolved Targets)
    → Plans (plan_targets router oracles unavailable request cursor found)
plan_targets-Plans router oracles unavailable request cursor Resolved.alias_not_found = tt
plan_targets-Plans router oracles unavailable request cursor Resolved.model_not_found = tt
plan_targets-Plans router oracles unavailable request cursor (resolved targets) =
    decide_plan-Plans router oracles unavailable request targets _ _ cursor
      (candidates_from-AllOn router _ (targets.first ∷ targets.others) 0)

-- A plan that the router answers is never empty; the candidates that pass the gates stand before
-- those that do not, also after the front model is promoted and when the gates are relaxed; and each
-- is of an enabled model and an enabled provider.
pub plan-Plans :
    (router : Router) (oracles : Oracles) (unavailable : List String) (request : ChatRequest)
    (cursor : Cursor)
    → Plans (plan router oracles unavailable request cursor)
unfolding plan
plan-Plans router oracles unavailable request cursor =
    plan_targets-Plans router oracles unavailable request cursor
      (resolve_model_ids router (served_name router request))
