-- ===== src/Tests/Plans.antt =====
-- Aliases, scores, strategies and plans at concrete inputs.
use zk_ai.Prelude.{
  ℕ, suc, ◌+◌, ◌*◌, ◌%◌, ◌≤◌, ◌≡◌, ◌↔◌, refl, String, Bool, true, false, none, some, Option, List,
  [], ◌∷◌, All, one_of, length,
}
use mathlib.Core.List.{Perm}
use zk_ai.Prelude.Dict.{Dict, lookup, keys}
use zk_ai.Routing.Aliases.{
  AliasStrategy, ModelAliasConfig, AliasRegistry, new_registry, all, expand, validate, get,
}
use zk_ai.Routing.Aliases.Expansion.{Reaches, expand-Reaches}
use zk_ai.Routing.Aliases.Problems.{IsUsable, validate-IsUsable}
use zk_ai.Routing.Capability.{
  ModelConfig, DeploymentConfig, ProviderConfig, ChatMessage, ChatRequest, Hints,
  CapabilityRequirement, infer_requirement, inferred, score_candidate, is_eligible,
  effective_capabilities, context_fits, get_or_zero, gate_weight, alias_weights, weigh_gates,
}
use zk_ai.Routing.Capability.Gates.{MeetsAll, score_candidate-gates}
use zk_ai.Routing.Capability.Weights.{Floors, infer_requirement-Floors}
use zk_ai.Routing.Strategy.{
  RoutingCandidate, from_scorecard, cursor_at, order, rank_eligible, round_robin_order,
}
use zk_ai.Routing.Strategy.Orders.{
  EligibleFirst, order-Perm, IsOrdered, EarlierTarget, HigherScore, Cheaper, Faster,
  rank_eligible-IsOrdered,
}
use zk_ai.Routing.Strategy.Rotation.{first_of, get_elem?, after_requests, round_robin_order-turns}
use zk_ai.Routing.Router.{
  Router, Resolved, resolve_model_ids, served_name, FrontModelOutcome, promote_front_model,
  front_model_of, Oracles, plan,
}
use zk_ai.Routing.Router.Front.{promote_front_model-callable}
use zk_ai.Routing.Router.Plans.{Plans, plan-Plans}
use zk_ai.Routing.Router.Rewrites.{IsResolved, served_name-IsResolved}
use zk_ai.Routing.Deployments.{Deployments, deployment_cooling_down, unavailable_deployments}

abbrev alias_named : String → List String → ModelAliasConfig
alias_named name targets = record {
  name = name;
  targets = targets;
  strategy = AliasStrategy.capability;
  enabled = true;
  requires = ("tool_use", 3000) ∷ [];
  weights = ("coding", 6000) ∷ [];
  pin_first = false;
  front_model = some "small";
}

-- An alias with a nested one, and one that leads back.
abbrev registry : AliasRegistry
registry = new_registry (
    alias_named "zk-auto" ("big" ∷ "zk-long" ∷ [])
    ∷ alias_named "zk-long" ("small" ∷ "zk-auto" ∷ [])
    ∷ [])

abbrev known : List String
known = "big" ∷ "small" ∷ []

expand-Reaches_example :
    (one_of "small" (expand registry known "zk-auto") ≡ true)
    ↔ Reaches registry known 9 "zk-auto" "small"
expand-Reaches_example = expand-Reaches registry known "zk-auto" "small"

expanded : expand registry known "zk-auto" ≡ "big" ∷ "small" ∷ []
unfolding zk_ai.Routing.Aliases.expand_within zk_ai.Routing.Aliases.collect get lookup
    zk_ai.Prelude.Dict.insert
expanded = refl

validate-IsUsable_example :
    (validate registry known ≡ []) ↔ All (IsUsable registry known) (all registry)
validate-IsUsable_example = validate-IsUsable registry known

abbrev provider : ProviderConfig
provider = record { id = "prov"; enabled = true }

abbrev deployment : String → String → ℕ → DeploymentConfig
deployment id model priority = record {
  id = id;
  provider_id = "prov";
  model = model;
  enabled = true;
  priority = priority;
  weight = 1000;
  context_window = 128000;
  capabilities = [];
  request_requires = ("reasoning", 3000) ∷ [];
}

abbrev model_with : String → ℕ → DeploymentConfig → ModelConfig
model_with id coding d = record {
  id = id;
  enabled = true;
  context_window = 128000;
  capabilities = ("coding", coding) ∷ ("tool_use", 5000) ∷ [];
  deployments = d ∷ [];
  strategy = "";
}

abbrev big : ModelConfig
big = model_with "big" 9500 (deployment "d-big" "big-1" 100)

abbrev small : ModelConfig
small = model_with "small" 6000 (deployment "d-small" "small-1" 100)

abbrev hints : Hints
hints = record { code = λ text. false; reasoning = λ text. true }

abbrev request : ChatRequest
request = record {
  model = "zk-auto";
  messages =
      record { role = "user"; text = "explain"; has_image = false; has_tool_call_id = false } ∷ [];
  tools = 2;
  response_format = false;
  estimated_input_tokens = 30000;
}

abbrev needs : CapabilityRequirement
needs = infer_requirement hints request (some (alias_named "zk-auto" [])) (some big)

score_candidate-gates_example :
    (is_eligible (score_candidate big (deployment "d-big" "big-1" 100) needs).gates_failed ≡ true)
    ↔ (MeetsAll (effective_capabilities big (deployment "d-big" "big-1" 100)) needs.minimums
        × (context_fits (deployment "d-big" "big-1" 100) big needs ≡ true)
        × (true ≡ true)
        × MeetsAll needs.weights (("reasoning", 3000) ∷ []))
score_candidate-gates_example = score_candidate-gates big (deployment "d-big" "big-1" 100) needs

infer_requirement-Floors_example :
    let before = (inferred hints request).weights in
    ((name : String) → get_or_zero name before ≤ get_or_zero name needs.weights)
    × ((name : String)
        → one_of name (keys needs.minimums) ≡ true
        → gate_weight ≤ get_or_zero name needs.weights)
    × Floors (("coding", 6000) ∷ []) (weigh_gates (keys needs.minimums) before) needs.weights
infer_requirement-Floors_example =
    infer_requirement-Floors hints request (some (alias_named "zk-auto" [])) (some big)

abbrev scored : ModelConfig → DeploymentConfig → ℕ → RoutingCandidate
scored model d index = from_scorecard model d provider (score_candidate model d needs) index

abbrev ranked : List RoutingCandidate
ranked =
    scored big (deployment "d-big" "big-1" 100) 0
    ∷ scored small (deployment "d-small" "small-1" 100) 1
    ∷ []

order-Perm_example :
    Perm (order AliasStrategy.weighted (λ draw weights. 1) false ranked []).0 ranked
    × EligibleFirst (order AliasStrategy.weighted (λ draw weights. 1) false ranked []).0
order-Perm_example = order-Perm AliasStrategy.weighted (λ draw weights. 1) false ranked []

rank_eligible-IsOrdered_example :
    let plan = λ (strategy : AliasStrategy).
      (rank_eligible strategy (λ draw weights. 0) false ranked []).0 in
    IsOrdered EarlierTarget (plan AliasStrategy.priority)
    × IsOrdered HigherScore (plan AliasStrategy.capability)
    × IsOrdered Cheaper (plan AliasStrategy.cost)
    × IsOrdered Faster (plan AliasStrategy.speed)
rank_eligible-IsOrdered_example = rank_eligible-IsOrdered (λ draw weights. 0) ranked []

round_robin_order-turns_example :
    first_of (round_robin_order ranked (after_requests 3 ranked [])).0
    ≡ get_elem? ((cursor_at "big" [] + 3) % length ranked) ranked
round_robin_order-turns_example =
    round_robin_order-turns 3 (scored big (deployment "d-big" "big-1" 100) 0)
      (scored small (deployment "d-small" "small-1" 100) 1 ∷ []) []

abbrev router : Router
router = record {
  models = ("big", big) ∷ ("small", small) ∷ [];
  providers = ("prov", provider) ∷ [];
  registry = registry;
}

abbrev oracles : Oracles
oracles = record { hints = hints; choices = λ draw weights. 0 }

plan-Plans_example : Plans (plan router oracles ("d-big" ∷ []) request [])
plan-Plans_example = plan-Plans router oracles ("d-big" ∷ []) request []

served_name-IsResolved_example : IsResolved (resolve_model_ids router (served_name router request))
unfolding resolve_model_ids lookup zk_ai.Prelude.Dict.insert zk_ai.Routing.Aliases.expand_within
    zk_ai.Routing.Aliases.collect get
served_name-IsResolved_example = served_name-IsResolved router request refl tt

-- A deployment that failed too often is in quarantine.
abbrev deployments : Deployments
deployments = record {
  cooldowns = ("d-big", 900) ∷ [];
  health =
      (
        "d-other",
        record {
          consecutive_failures = 3;
          quarantined_until = 5000;
          last_error_type = "timeout";
          last_failure_at = 100;
        },
      )
      ∷ [];
  affinity = [];
}

promote_front_model-callable_example :
    (deployment_cooling_down deployments "d-small" 150 ≡ false)
    × ((scored small (deployment "d-small" "small-1" 100) 1).eligible ≡ true)
    × (small.id ≡ "small")
unfolding zk_ai.Routing.Router.take_front promote_front_model unavailable_deployments
    deployment_cooling_down lookup score_candidate zk_ai.Routing.Capability.failed_gates
    effective_capabilities context_fits infer_requirement inferred
    zk_ai.Routing.Capability.read_messages zk_ai.Routing.Capability.user_text_parts weigh_gates
    zk_ai.Routing.Capability.raise_floors zk_ai.Routing.Capability.minimum_failures
    zk_ai.Routing.Capability.request_gate_failures zk_ai.Prelude.Dict.insert
promote_front_model-callable_example =
    promote_front_model-callable deployments 150 (some (alias_named "zk-auto" [])) ranked
      (scored big (deployment "d-big" "big-1" 100) 0 ∷ [])
      (scored small (deployment "d-small" "small-1" 100) 1) "small" refl
