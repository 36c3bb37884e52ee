-- ===== src/Routing/Capability.antt =====
-- app/routing/capability.py: what a request needs, and the score and the gates of a deployment for
-- it, with the models and deployments of app/models/provider.py and what is read of a request of
-- app/models/request.py. Scores and weights are in thousandths, and so whole numbers; a total is in
-- millionths. The regular expressions and the estimate of the tokens are parameters.
pub mod Gates
pub mod Weights
use zk_ai.Prelude.{
  ℕ, ◌+◌, ◌*◌, ◌/◌, ◌-◌, min, max, String, str_eq, Bool, true, false, not, ◌&&◌, ◌||◌, Option, none,
  some, List, [], ◌∷◌, ◌++◌, map, ltb, leb, ◌==◌, one_of, any_of, is_some, if◌then◌else◌,
}
use zk_ai.Prelude.Text.{◌⧺◌, decimal}
use zk_ai.Prelude.Round.{round_div}
use zk_ai.Prelude.Dict.{Dict, lookup, insert, values}
use zk_ai.Routing.Aliases.{AliasStrategy, ModelAliasConfig}

abbrev pub capability_names : List String
capability_names =
    "coding" ∷ "reasoning" ∷ "tool_use" ∷ "vision" ∷ "long_context" ∷ "structured_output" ∷ "speed"
    ∷ "cost" ∷ []

-- `d.get(name, 0.0)`
abbrev pub get_or_zero : String → Dict ℕ → ℕ
get_or_zero name d = elim (lookup name d) [ none ↦ 0 | some value ↦ value ]

pub record ProviderConfig : Type 0 where
  pub id : String
  pub enabled : Bool

pub record DeploymentConfig : Type 0 where
  pub id : String
  pub provider_id : String
  pub model : String
  pub enabled : Bool
  pub priority : ℕ
  pub weight : ℕ
  pub context_window : ℕ
  pub capabilities : Dict ℕ
  pub request_requires : Dict ℕ

pub record ModelConfig : Type 0 where
  pub id : String
  pub enabled : Bool
  pub context_window : ℕ
  pub capabilities : Dict ℕ
  pub deployments : List DeploymentConfig
  -- what `strip` and `lower` leave of it; empty for none
  pub strategy : String

-- `CapabilityScores(**base).as_dict()`: a score for each of the names, at most 10, with the override
-- of the deployment before that of the model.
abbrev pub score_of : ModelConfig → DeploymentConfig → String → ℕ
score_of model deployment name = min 10000 (elim (lookup name deployment.capabilities) [
  | none ↦ get_or_zero name model.capabilities
  | some value ↦ value
])

unfoldable pub effective_capabilities : ModelConfig → DeploymentConfig → Dict ℕ
effective_capabilities model deployment =
    map (λ name. (name, score_of model deployment name)) capability_names

pub record ChatMessage : Type 0 where
  pub role : String
  pub text : String
  pub has_image : Bool
  pub has_tool_call_id : Bool

-- A request, with its `estimated_input_tokens`.
pub record ChatRequest : Type 0 where
  pub model : String
  pub messages : List ChatMessage
  pub tools : ℕ
  pub response_format : Bool
  pub estimated_input_tokens : ℕ

-- `_CODE_HINTS.search` and `_REASONING_HINTS.search`
pub record Hints : Type 0 where
  pub code : String → Bool
  pub reasoning : String → Bool

pub record CapabilityRequirement : Type 0 where
  pub weights : Dict ℕ
  pub minimums : Dict ℕ
  pub estimated_tokens : ℕ
  pub notes : List String

-- `LONG_CONTEXT_HINT`, `LONG_CONTEXT_HARD` and `GATE_WEIGHT`
abbrev pub long_context_hint : ℕ
long_context_hint = 24000

abbrev pub long_context_hard : ℕ
long_context_hard = 100000

abbrev pub gate_weight : ℕ
gate_weight = 8000

abbrev pub baseline : Dict ℕ
baseline =
    ("coding", 1000)
    ∷ ("reasoning", 1000)
    ∷ ("tool_use", 200)
    ∷ ("vision", 0)
    ∷ ("long_context", 300)
    ∷ ("structured_output", 200)
    ∷ ("speed", 400)
    ∷ ("cost", 400)
    ∷ []

abbrev pub blank : ℕ → CapabilityRequirement
blank estimated = record {
  weights = baseline;
  minimums = [];
  estimated_tokens = estimated;
  notes = [];
}

abbrev pub set_weight : String → ℕ → CapabilityRequirement → CapabilityRequirement
set_weight name value r = record r { weights = insert name value r.weights }

-- `weights[name] = max(weights.get(name, 0.0), value)`
abbrev pub raise_weight : String → ℕ → Dict ℕ → Dict ℕ
raise_weight name value weights = insert name (max (get_or_zero name weights) value) weights

abbrev pub add_note : String → CapabilityRequirement → CapabilityRequirement
add_note note r = record r { notes = r.notes ++ note ∷ [] }

-- `minimums.setdefault(name, 1.0)`
abbrev pub default_minimum : String → CapabilityRequirement → CapabilityRequirement
default_minimum name r = record r {
  minimums = if is_some (lookup name r.minimums) then r.minimums else insert name 1000 r.minimums;
}

-- What a message with an image adds. The code asks whether the note "vision" is there already.
abbrev pub note_image : CapabilityRequirement → CapabilityRequirement
note_image r = record r {
  minimums = insert "vision" 1000 r.minimums;
  notes =
      if one_of "vision" r.notes
      then r.notes
      else r.notes ++ "request contains an image -> vision required" ∷ [];
  weights = raise_weight "reasoning" 5000 r.weights;
}

-- The loop over the messages.
unfoldable pub read_messages : List ChatMessage → CapabilityRequirement → CapabilityRequirement
read_messages [] r = r
read_messages (m ∷ messages) r = read_messages messages (if m.has_image then note_image r else r)

-- The texts of the messages that count, and `"\n".join(...)`.
unfoldable pub user_text_parts : List ChatMessage → List String
user_text_parts [] = []
user_text_parts (m ∷ messages) =
    let rest = user_text_parts messages in
    if one_of m.role ("user" ∷ "system" ∷ "developer" ∷ []) then m.text ∷ rest else rest

abbrev pub join_lines : List String → String
join_lines [] = ""
join_lines (part ∷ []) = part
join_lines (part ∷ next ∷ parts) = part ⧺ "\n" ⧺ join_lines (next ∷ parts)

-- What is inferred from the request alone.
unfoldable pub inferred : Hints → ChatRequest → CapabilityRequirement
inferred hints request =
    let r = read_messages request.messages (blank request.estimated_input_tokens) in
    let combined = join_lines (user_text_parts request.messages) in
    let r =
      (if request.tools == 0
        then r
        else add_note (decimal request.tools ⧺ " tool(s) declared -> tool_use required")
            (default_minimum "tool_use" r)) in
    let r =
      (if request.response_format
        then add_note "response_format set -> structured_output required"
            (default_minimum "structured_output" r)
        else r) in
    let r =
      (if hints.code combined
        then add_note "code-like content detected -> coding weight raised"
            (set_weight "coding" 5000 r)
        else r) in
    let r =
      (if hints.reasoning combined
        then add_note "reasoning keywords detected -> reasoning weight raised"
            (set_weight "reasoning" 5000 r)
        else r) in
    let estimated = request.estimated_input_tokens in
    let r =
      (if leb long_context_hint estimated
        then add_note ("~" ⧺ decimal estimated ⧺ " input tokens -> long_context weight raised")
            (set_weight "long_context" 5000 r)
        else r) in
    if leb long_context_hard estimated
    then record r { minimums = insert "long_context" 1000 r.minimums }
    else r

abbrev pub write_all : Dict ℕ → Dict ℕ → Dict ℕ
write_all [] d = d
write_all ((name, value) ∷ entries) d = write_all entries (insert name value d)

-- A gate weighs at least `gate_weight`.
unfoldable pub weigh_gates : List String → Dict ℕ → Dict ℕ
weigh_gates [] weights = weights
weigh_gates (name ∷ names) weights = weigh_gates names (raise_weight name gate_weight weights)

-- The weights of the alias are floors of the weights that are there.
abbrev pub raise_known : String → ℕ → Dict ℕ → Bool → Dict ℕ
raise_known name value weights false = weights
raise_known name value weights true = raise_weight name value weights

unfoldable pub raise_floors : Dict ℕ → Dict ℕ → Dict ℕ
raise_floors [] weights = weights
raise_floors ((name, value) ∷ floors) weights =
    raise_floors floors (raise_known name value weights (is_some (lookup name weights)))

abbrev pub alias_requires : Option ModelAliasConfig → Dict ℕ
alias_requires none = []
alias_requires (some alias) = alias.requires

abbrev pub alias_weights : Option ModelAliasConfig → Dict ℕ
alias_weights none = []
alias_weights (some alias) = alias.weights

abbrev pub strategy_value : AliasStrategy → String
strategy_value AliasStrategy.priority = "priority"
strategy_value AliasStrategy.capability = "capability"
strategy_value AliasStrategy.cost = "cost"
strategy_value AliasStrategy.speed = "speed"
strategy_value AliasStrategy.round_robin = "round_robin"
strategy_value AliasStrategy.weighted = "weighted"

abbrev pub has_entries : Dict ℕ → Bool
has_entries [] = false
has_entries (_ ∷ _) = true

abbrev pub alias_notes : Option ModelAliasConfig → List String
alias_notes none = []
alias_notes (some alias) =
    if has_entries alias.weights || has_entries alias.requires
    then ("alias '"
        ⧺ alias.name
        ⧺ "' sets weight floors/gates (strategy="
        ⧺ strategy_value alias.strategy
        ⧺ ")")
      ∷ []
    else []

abbrev pub model_notes : ℕ → Option ModelConfig → List String
model_notes estimated none = []
model_notes estimated (some model) =
    if ltb model.context_window estimated
    then ("estimated "
        ⧺ decimal estimated
        ⧺ " tokens exceeds model context "
        ⧺ decimal model.context_window)
      ∷ []
    else []

unfoldable pub infer_requirement :
    Hints → ChatRequest → Option ModelAliasConfig → Option ModelConfig → CapabilityRequirement
infer_requirement hints request alias model =
    let r = inferred hints request in
    let minimums = write_all (alias_requires alias) r.minimums in
    record r {
      minimums = minimums;
      weights =
          raise_floors (alias_weights alias)
            (weigh_gates (zk_ai.Prelude.Dict.keys minimums) r.weights);
      notes = r.notes ++ (alias_notes alias ++ model_notes request.estimated_input_tokens model);
    }

-- `context_fits`: with 10% slack.
unfoldable pub context_fits : DeploymentConfig → ModelConfig → CapabilityRequirement → Bool
context_fits deployment model requirement =
    let window =
      (if deployment.context_window == 0
        then model.context_window
        else deployment.context_window) in
    requirement.estimated_tokens == 0 || leb (requirement.estimated_tokens * 9) (window * 10)

-- A gate that failed; its text is left out.
pub data FailedGate : Type 0 where
  minimum : String → FailedGate
  window : FailedGate
  disabled : FailedGate
  request : String → FailedGate

-- `request_gate_failures`
unfoldable pub request_gate_failures : CapabilityRequirement → Dict ℕ → List FailedGate
request_gate_failures requirement [] = []
request_gate_failures requirement ((name, wanted) ∷ gates) =
    let rest = request_gate_failures requirement gates in
    if ltb (get_or_zero name requirement.weights) wanted
    then FailedGate.request name ∷ rest
    else rest

unfoldable pub minimum_failures : Dict ℕ → Dict ℕ → List FailedGate
minimum_failures scores [] = []
minimum_failures scores ((name, least) ∷ minimums) =
    let rest = minimum_failures scores minimums in
    if ltb (get_or_zero name scores) least then FailedGate.minimum name ∷ rest else rest

abbrev pub sum_of : List ℕ → ℕ
sum_of [] = 0
sum_of (n ∷ ns) = n + sum_of ns

-- `normalized_weights`: the weight of a name and the sum of all, of which it is a part.
abbrev pub part_of : CapabilityRequirement → String → ℕ × ℕ
part_of requirement name =
    let total = sum_of (values requirement.weights) in
    if total == 0 then (1, 8) else (get_or_zero name requirement.weights, total)

-- The contribution of a name to the score, but for the divisor: the sum of the weights and 10000.
-- The divisor is that of every candidate of a request.
abbrev pub contribution : CapabilityRequirement → Dict ℕ → String → ℕ
contribution requirement scores name = (part_of requirement name).0 * get_or_zero name scores

abbrev pub contributions : CapabilityRequirement → Dict ℕ → List ℕ
contributions requirement scores = map (contribution requirement scores) capability_names

-- `round(total, 6)` of the contributions and of the bonus `min(0.05, priority / 2000)`.
abbrev pub total_score : CapabilityRequirement → Dict ℕ → ℕ → ℕ
total_score requirement scores priority =
    let divisor = (part_of requirement "coding").1 in
    round_div
      (sum_of (contributions requirement scores) * 100 + min 50000 (priority * 500) * divisor)
      divisor

pub record ScoreCard : Type 0 where
  pub total : ℕ
  pub cost : ℕ
  pub speed : ℕ
  pub gates_failed : List FailedGate

abbrev pub is_eligible : List FailedGate → Bool
is_eligible [] = true
is_eligible (_ ∷ _) = false

unfoldable pub failed_gates :
    ModelConfig → DeploymentConfig → CapabilityRequirement → List FailedGate
failed_gates model deployment requirement =
    minimum_failures (effective_capabilities model deployment) requirement.minimums
    ++ ((if context_fits deployment model requirement then [] else FailedGate.window ∷ [])
        ++ ((if deployment.enabled then [] else FailedGate.disabled ∷ [])
            ++ request_gate_failures requirement deployment.request_requires))

unfoldable pub score_candidate : ModelConfig → DeploymentConfig → CapabilityRequirement → ScoreCard
score_candidate model deployment requirement =
    let scores = effective_capabilities model deployment in
    record {
      total = total_score requirement scores deployment.priority;
      cost = contribution requirement scores "cost";
      speed = contribution requirement scores "speed";
      gates_failed = failed_gates model deployment requirement;
    }
