-- ===== src/Routing/AgentAuto.antt =====
-- app/routing/agent_auto.py: the alias that a request to `zk-auto` is served by, from its shape. The
-- reason and the log line are left out.
use zk_ai.Prelude.{
  ℕ, String, str_eq, Bool, true, not, ◌&&◌, ◌||◌, Option, none, some, List, [], ◌∷◌, leb, ◌==◌,
  one_of, any_of, if◌then◌else◌,
}
use zk_ai.Routing.Capability.{ChatMessage, ChatRequest}

abbrev pub agent_auto_alias : String
agent_auto_alias = "zk-auto"

abbrev pub alias_long : String
alias_long = "zk-long"

abbrev pub alias_vision : String
alias_vision = "zk-vision"

abbrev pub long_context_tokens : ℕ
long_context_tokens = 100000

abbrev pub bulk_tool_tokens : ℕ
bulk_tool_tokens = 24000

abbrev pub rewrite_targets : List String
rewrite_targets = alias_long ∷ alias_vision ∷ []

-- `TOOL_TURN_IS_MECHANICAL`
abbrev pub tool_turn_is_mechanical : Bool
tool_turn_is_mechanical = true

unfoldable pub has_tool_result : List ChatMessage → Bool
has_tool_result messages = any_of (λ m. str_eq m.role "tool" || m.has_tool_call_id) messages

-- `_available`
abbrev pub available_alias : String → Option (List String) → String
available_alias rewritten none = rewritten
available_alias rewritten (some known) =
    if not (one_of rewritten rewrite_targets) || one_of rewritten known
    then rewritten
    else agent_auto_alias

-- The alias that the shape of the request asks for.
unfoldable pub alias_by_shape : ChatRequest → String
alias_by_shape request =
    if not (str_eq request.model agent_auto_alias)
    then request.model
    else if any_of (λ m. m.has_image) request.messages
    then alias_vision
    else if has_tool_result request.messages && tool_turn_is_mechanical
    then alias_long
    else if leb long_context_tokens request.estimated_input_tokens
    then alias_long
    else if not (request.tools == 0) && leb bulk_tool_tokens request.estimated_input_tokens
    then alias_long
    else request.model

-- `rewrite_model(...).rewritten`
unfoldable pub rewrite_model : ChatRequest → Option (List String) → String
rewrite_model request known_aliases = available_alias (alias_by_shape request) known_aliases
