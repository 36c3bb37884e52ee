-- ===== src/Routing/Strategy.antt =====
-- app/routing/strategy.py: the order in which the candidates of a request are tried. `order`, the
-- field that numbers them for display, is left out. `rng.choices` is a parameter.
pub mod Orders
pub mod Rotation
use zk_ai.Prelude.{
  ℕ, zero, suc, ◌+◌, ◌%◌, max, String, str_eq, Bool, true, false, not, Option, none, some, List, [],
  ◌∷◌, ◌++◌, map, ltb, ◌==◌, length, take, drop, keep_if, if◌then◌else◌,
}
use zk_ai.Prelude.Text.{◌⧺◌, codes}
use zk_ai.Prelude.Sort.{sort_by, ascending, descending, text_before}
use zk_ai.Prelude.Dict.{Dict, lookup, insert}
use zk_ai.Prelude.Bands.{Choices, rotate, sorted_bands, draw_bands}
use zk_ai.Routing.Aliases.{AliasStrategy}
use zk_ai.Routing.Capability.{
  ModelConfig, DeploymentConfig, ProviderConfig, ScoreCard, FailedGate, is_eligible,
}

pub record RoutingCandidate : Type 0 where
  pub model : ModelConfig
  pub deployment : DeploymentConfig
  pub provider : ProviderConfig
  pub score : ℕ
  pub cost : ℕ
  pub speed : ℕ
  pub eligible : Bool
  pub gates_failed : List FailedGate
  pub target_index : ℕ

-- `from_scorecard`
abbrev pub from_scorecard :
    ModelConfig → DeploymentConfig → ProviderConfig → ScoreCard → ℕ → RoutingCandidate
from_scorecard model deployment provider card target_index = record {
  model = model;
  deployment = deployment;
  provider = provider;
  score = card.total;
  cost = card.cost;
  speed = card.speed;
  eligible = is_eligible card.gates_failed;
  gates_failed = card.gates_failed;
  target_index = target_index;
}

unfoldable pub label : RoutingCandidate → String
label c =
    c.model.id ⧺ " -> " ⧺ c.deployment.id ⧺ " (" ⧺ c.deployment.provider_id ⧺ "/"
    ⧺ c.deployment.model ⧺ ")"

abbrev pub priority_of : RoutingCandidate → ℕ
priority_of c = c.deployment.priority

-- The keys by which the strategies sort.
abbrev pub Order : Type 0
Order = RoutingCandidate → RoutingCandidate → Bool

abbrev pub by_label : Order
by_label a b = text_before (codes (label a)) (codes (label b))

-- `(c.target_index, -c.deployment.priority, c.label)`
abbrev pub by_target : Order
by_target = ascending (λ c. c.target_index) (descending priority_of by_label)

-- `(-c.score, -c.deployment.priority, c.label)`
abbrev pub by_score : Order
by_score = descending (λ c. c.score) (descending priority_of by_label)

-- `(-breakdown["cost"], -c.score, c.label)`
abbrev pub by_cost : Order
by_cost = descending (λ c. c.cost) (descending (λ c. c.score) by_label)

abbrev pub by_speed : Order
by_speed = descending (λ c. c.speed) (descending (λ c. c.score) by_label)

-- `(-c.deployment.priority, -c.score, c.label)`
abbrev pub by_priority : Order
by_priority = descending priority_of (descending (λ c. c.score) by_label)

-- `_partition`
abbrev pub eligible_of : List RoutingCandidate → List RoutingCandidate
eligible_of candidates = keep_if (λ c. c.eligible) candidates

abbrev pub blocked_of : List RoutingCandidate → List RoutingCandidate
blocked_of candidates = keep_if (λ c. not c.eligible) candidates

abbrev pub is_head : RoutingCandidate → Bool
is_head c = c.target_index == 0

-- The eligible candidates under `CapabilitySelection`: a pinned target leads.
unfoldable pub capability_order : Bool → List RoutingCandidate → List RoutingCandidate
capability_order false eligible = sort_by by_score eligible
capability_order true eligible =
    sort_by by_score (keep_if is_head eligible)
    ++ sort_by by_score (keep_if (λ c. not (is_head c)) eligible)

-- `RoundRobinSelection._cursor`, which all requests share.
abbrev pub Cursor : Type 0
Cursor = Dict ℕ

abbrev pub cursor_at : String → Cursor → ℕ
cursor_at key cursor = elim (lookup key cursor) [ none ↦ 0 | some offset ↦ offset ]

-- The eligible candidates under `RoundRobinSelection`, sorted before: the rotation of the model that
-- ranks first, and the next offset.
unfoldable pub round_robin_order : List RoutingCandidate → Cursor → List RoutingCandidate × Cursor
round_robin_order [] cursor = ([], cursor)
round_robin_order (first ∷ others) cursor =
    let ranked = first ∷ others in
    let key = first.model.id in
    let offset = cursor_at key cursor % length ranked in
    (rotate offset ranked, insert key ((offset + 1) % length ranked) cursor)

-- `max(0.001, item.deployment.weight)`
abbrev pub drawn_weight : RoutingCandidate → ℕ
drawn_weight item = max 1 item.deployment.weight

-- The eligible candidates under `WeightedSelection`.
unfoldable pub weighted_order : Choices → List RoutingCandidate → List RoutingCandidate
weighted_order choices eligible =
    draw_bands drawn_weight choices (sorted_bands priority_of eligible)

-- The candidates that pass the gates, in the order of the strategy.
unfoldable pub rank_eligible :
    AliasStrategy → Choices → Bool → List RoutingCandidate → Cursor → List RoutingCandidate × Cursor
rank_eligible AliasStrategy.priority choices pin_first eligible cursor =
    (sort_by by_target eligible, cursor)
rank_eligible AliasStrategy.capability choices pin_first eligible cursor =
    (capability_order pin_first eligible, cursor)
rank_eligible AliasStrategy.cost choices pin_first eligible cursor =
    (sort_by by_cost eligible, cursor)
rank_eligible AliasStrategy.speed choices pin_first eligible cursor =
    (sort_by by_speed eligible, cursor)
rank_eligible AliasStrategy.round_robin choices pin_first eligible cursor =
    round_robin_order (sort_by by_priority eligible) cursor
rank_eligible AliasStrategy.weighted choices pin_first eligible cursor =
    (weighted_order choices eligible, cursor)

-- The others follow, for all strategies but one in the order of their labels.
abbrev pub rank_blocked : AliasStrategy → List RoutingCandidate → List RoutingCandidate
rank_blocked AliasStrategy.priority blocked = sort_by by_target blocked
rank_blocked _ blocked = sort_by by_label blocked

-- `order` of each strategy.
unfoldable pub order :
    AliasStrategy → Choices → Bool → List RoutingCandidate → Cursor → List RoutingCandidate × Cursor
order strategy choices pin_first candidates cursor =
    let ranked = rank_eligible strategy choices pin_first (eligible_of candidates) cursor in
    (ranked.0 ++ rank_blocked strategy (blocked_of candidates), ranked.1)

-- `get_strategy`: an unknown name is `capability`.
unfoldable pub get_strategy : String → AliasStrategy
get_strategy name =
    if str_eq name "priority"
    then AliasStrategy.priority
    else if str_eq name "cost"
    then AliasStrategy.cost
    else if str_eq name "speed"
    then AliasStrategy.speed
    else if str_eq name "round_robin"
    then AliasStrategy.round_robin
    else if str_eq name "weighted"
    then AliasStrategy.weighted
    else AliasStrategy.capability
