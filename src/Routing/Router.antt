-- ===== src/Routing/Router.antt =====
-- app/routing/router.py: from the name of a model to the plan of a request, and the front model of an
-- alias. The adapters, the texts of the reason and of the messages, and the previews are left out.
pub mod Front
pub mod Plans
pub mod Rewrites
use zk_ai.Prelude.{
  ℕ, zero, suc, String, str_eq, Bool, true, false, not, ◌&&◌, ◌||◌, Option, none, some, List, [],
  ◌∷◌, ◌++◌, keep_if, any_of, one_of, is_some, if◌then◌else◌,
}
use zk_ai.Prelude.Text.{is_empty}
use zk_ai.Prelude.Dict.{Dict, lookup}
use zk_ai.Routing.Aliases.{
  AliasStrategy, ModelAliasConfig, AliasRegistry, get, is_alias, names, expand,
}
use zk_ai.Routing.Capability.{
  ModelConfig, DeploymentConfig, ProviderConfig, ChatRequest, Hints, CapabilityRequirement,
  infer_requirement, score_candidate,
}
use zk_ai.Routing.AgentAuto.{rewrite_model}
use zk_ai.Prelude.Bands.{Choices}
use zk_ai.Routing.Strategy.{RoutingCandidate, from_scorecard, Cursor, order, get_strategy}
use zk_ai.Routing.Deployments.{Candidate}

-- The configuration and the aliases; the models and the providers are filed under their ids.
pub record Router : Type 0 where
  pub models : Dict ModelConfig
  pub providers : Dict ProviderConfig
  pub registry : AliasRegistry

abbrev pub model_ids : Router → List String
model_ids router = zk_ai.Prelude.Dict.keys router.models

-- A result, `AliasNotFoundError` or `ModelNotFoundError`.
pub data Resolved {ℓ} (A : Type ℓ) : Type ℓ where
  resolved : A → Resolved A
  alias_not_found model_not_found : Resolved A

-- The models of a name, and the alias if it is one.
pub record Targets : Type 0 where
  pub first : String
  pub others : List String
  pub alias_name : Option String

abbrev pub targets_of : String → List String → Resolved Targets
targets_of requested [] = Resolved.alias_not_found
targets_of requested (first ∷ others) =
    resolved (record { first = first; others = others; alias_name = some requested })

unfoldable pub resolve_model_ids : Router → String → Resolved Targets
resolve_model_ids router requested =
    if is_some (lookup requested router.models)
    then resolved (record { first = requested; others = []; alias_name = none })
    else if is_alias router.registry requested
    then targets_of requested (expand router.registry (model_ids router) requested)
    else Resolved.model_not_found

abbrev pub has_any {ℓ} : {A : Type ℓ} → List A → Bool
has_any [] = false
has_any (_ ∷ _) = true

-- `_servable_aliases`
unfoldable pub servable_aliases : Router → List String
servable_aliases router =
    keep_if (λ name. has_any (expand router.registry (model_ids router) name))
      (names router.registry)

module _ (router : Router) (requirement : CapabilityRequirement) where
  abbrev pub candidate_under :
      ModelConfig → DeploymentConfig → ℕ → Option ProviderConfig → List RoutingCandidate
  candidate_under model deployment index none = []
  candidate_under model deployment index (some provider) =
      if provider.enabled
      then from_scorecard model deployment provider (score_candidate model deployment requirement)
          index
        ∷ []
      else []

  -- The loop over the deployments of a model.
  unfoldable pub deployments_of : ModelConfig → ℕ → List DeploymentConfig → List RoutingCandidate
  deployments_of model index [] = []
  deployments_of model index (deployment ∷ deployments) =
      candidate_under model deployment index (lookup deployment.provider_id router.providers)
      ++ deployments_of model index deployments

  abbrev pub model_candidates : ℕ → Option ModelConfig → List RoutingCandidate
  model_candidates index none = []
  model_candidates index (some model) =
      if model.enabled then deployments_of model index model.deployments else []

  -- The loop over the models, which are numbered.
  unfoldable pub candidates_from : ℕ → List String → List RoutingCandidate
  candidates_from index [] = []
  candidates_from index (id ∷ ids) =
      model_candidates index (lookup id router.models) ++ candidates_from (suc index) ids

-- The deployment without its request gate, under a requirement without minimums.
abbrev pub relaxed_card : CapabilityRequirement → RoutingCandidate → RoutingCandidate
relaxed_card requirement c =
    from_scorecard c.model c.deployment c.provider
      (score_candidate c.model (record c.deployment { request_requires = [] })
        (record requirement { minimums = [] }))
      c.target_index

unfoldable pub relax : CapabilityRequirement → List RoutingCandidate → List RoutingCandidate
relax requirement [] = []
relax requirement (c ∷ candidates) = relaxed_card requirement c ∷ relax requirement candidates

-- Is the candidate the front model, one that the scheduler will call?
abbrev pub is_front : String → List String → RoutingCandidate → Bool
is_front wanted unavailable c =
    str_eq c.model.id wanted && c.eligible && not (one_of c.deployment.id unavailable)

abbrev pub is_parked_front : String → List String → RoutingCandidate → Bool
is_parked_front wanted unavailable c =
    str_eq c.model.id wanted && c.eligible && one_of c.deployment.id unavailable

-- The candidate that is promoted, and the others in their order.
abbrev pub taken_or :
    Bool
    → RoutingCandidate
    → List RoutingCandidate
    → Option (RoutingCandidate × List RoutingCandidate)
    → Option (RoutingCandidate × List RoutingCandidate)
taken_or true c rest later = some (c, rest)
taken_or false c rest none = none
taken_or false c rest (some (found, others)) = some (found, c ∷ others)

unfoldable pub take_front :
    String → List String → List RoutingCandidate → Option (RoutingCandidate × List RoutingCandidate)
take_front wanted unavailable [] = none
take_front wanted unavailable (c ∷ cs) =
    taken_or (is_front wanted unavailable c) c cs (take_front wanted unavailable cs)

-- `FrontModelOutcome`: the model that leads, or that its deployments are parked, or nothing.
pub data FrontModelOutcome : Type 0 where
  applied : String → FrontModelOutcome
  parked : String → FrontModelOutcome
  untouched : FrontModelOutcome

abbrev pub put_front :
    String
    → List String
    → List RoutingCandidate
    → Option (RoutingCandidate × List RoutingCandidate)
    → List RoutingCandidate × FrontModelOutcome
put_front wanted unavailable ordered none = (
  ordered,
  (if any_of (is_parked_front wanted unavailable) ordered
      then FrontModelOutcome.parked wanted
      else FrontModelOutcome.untouched),
)
put_front wanted unavailable ordered (some (found, others)) =
    (found ∷ others, FrontModelOutcome.applied wanted)

-- `if alias is None or not alias.front_model`
abbrev pub front_model_of : Option ModelAliasConfig → Option String
front_model_of none = none
front_model_of (some alias) = elim alias.front_model [
  | none ↦ none
  | some wanted ↦ if is_empty wanted then none else some wanted
]

abbrev pub promote_wanted :
    List RoutingCandidate → List String → Option String → List RoutingCandidate × FrontModelOutcome
promote_wanted ordered unavailable none = (ordered, FrontModelOutcome.untouched)
promote_wanted ordered unavailable (some wanted) =
    put_front wanted unavailable ordered (take_front wanted unavailable ordered)

-- `_promote_front_model`: the order, which the code changes in place, and the outcome.
unfoldable pub promote_front_model :
    List RoutingCandidate
    → Option ModelAliasConfig
    → List String
    → List RoutingCandidate × FrontModelOutcome
promote_front_model ordered alias unavailable =
    promote_wanted ordered unavailable (front_model_of alias)

-- What is in a decision, but for the texts.
pub record RoutingDecision : Type 0 where
  pub requested_model : String
  pub alias : Option String
  pub resolved_models : List String
  pub strategy : AliasStrategy
  pub requirement : CapabilityRequirement
  pub candidates : List RoutingCandidate
  pub front : FrontModelOutcome

-- What lies outside: the regular expressions, and the draws of the weighted strategy.
pub record Oracles : Type 0 where
  pub hints : Hints
  pub choices : Choices

abbrev pub strategy_of : Option ModelAliasConfig → Option ModelConfig → AliasStrategy
strategy_of none none = AliasStrategy.capability
strategy_of none (some model) = get_strategy model.strategy
strategy_of (some alias) model = alias.strategy

abbrev pub pins_first : Option ModelAliasConfig → Bool
pins_first none = false
pins_first (some alias) = alias.pin_first

module _ (oracles : Oracles) (unavailable : List String) (alias : Option ModelAliasConfig)
    (strategy : AliasStrategy) where
  -- `strategy.order` and `_promote_front_model`.
  unfoldable pub arrange :
      List RoutingCandidate → Cursor → List RoutingCandidate × FrontModelOutcome
  arrange candidates cursor =
      promote_front_model (order strategy oracles.choices (pins_first alias) candidates cursor).0
        alias unavailable

  -- The cursor after the order.
  abbrev pub cursor_after : List RoutingCandidate → Cursor → Cursor
  cursor_after candidates cursor =
      (order strategy oracles.choices (pins_first alias) candidates cursor).1

  -- The safety valve: if no candidate passes the gates, they are ranked without the gates of the
  -- request. The outcome that is told is that of the first promotion.
  unfoldable pub arrange_or_relax :
      CapabilityRequirement
      → List RoutingCandidate
      → Cursor
      → (List RoutingCandidate × FrontModelOutcome) × Cursor
  arrange_or_relax requirement candidates cursor =
      let ordered = arrange candidates cursor in
      let cursor = cursor_after candidates cursor in
      let relaxed = relax requirement candidates in
      if any_of (λ c. c.eligible) ordered.0
      then (ordered, cursor)
      else (((arrange relaxed cursor).0, ordered.1), cursor_after relaxed cursor)

-- The name of a request after `rewrite_model`.
unfoldable pub served_name : Router → ChatRequest → String
served_name router request = rewrite_model request (some (servable_aliases router))

-- The alias of resolved targets.
abbrev pub alias_of : Router → Option String → Option ModelAliasConfig
alias_of router none = none
alias_of router (some name) = get router.registry name

abbrev pub decide_plan :
    Router
    → Oracles
    → List String
    → ChatRequest
    → Targets
    → CapabilityRequirement
    → List RoutingCandidate
    → Cursor
    → Resolved (RoutingDecision × Cursor)
decide_plan router oracles unavailable request targets requirement [] cursor =
    Resolved.model_not_found
decide_plan router oracles unavailable request targets requirement (c ∷ cs) cursor =
    let alias = alias_of router targets.alias_name in
    let strategy = strategy_of alias (lookup targets.first router.models) in
    let arranged =
      arrange_or_relax oracles unavailable alias strategy requirement (c ∷ cs) cursor in
    resolved (
      record {
        requested_model = request.model;
        alias = targets.alias_name;
        resolved_models = targets.first ∷ targets.others;
        strategy = strategy;
        requirement = requirement;
        candidates = arranged.0.0;
        front = arranged.0.1;
      },
      arranged.1,
    )

abbrev pub plan_targets :
    Router
    → Oracles
    → List String
    → ChatRequest
    → Cursor
    → Resolved Targets
    → Resolved (RoutingDecision × Cursor)
plan_targets router oracles unavailable request cursor Resolved.alias_not_found =
    Resolved.alias_not_found
plan_targets router oracles unavailable request cursor Resolved.model_not_found =
    Resolved.model_not_found
plan_targets router oracles unavailable request cursor (resolved targets) =
    let requirement =
      infer_requirement oracles.hints request (alias_of router targets.alias_name)
        (lookup targets.first router.models) in
    decide_plan router oracles unavailable request targets requirement
      (candidates_from router requirement 0 (targets.first ∷ targets.others)) cursor

unfoldable pub plan :
    Router → Oracles → List String → ChatRequest → Cursor → Resolved (RoutingDecision × Cursor)
plan router oracles unavailable request cursor =
    plan_targets router oracles unavailable request cursor
      (resolve_model_ids router (served_name router request))

-- What the scheduler reads of a candidate.
abbrev pub as_candidate : RoutingCandidate → Candidate
as_candidate c = record {
  deployment_id = c.deployment.id;
  provider_id = c.deployment.provider_id;
  model = c.deployment.model;
  eligible = c.eligible;
}
