-- ===== src/Routing/Aliases.antt =====
-- app/routing/aliases.py: the table of model aliases, and its expansion to models. The aliases are
-- those of app/models/provider.py. The lock, the log lines and the order of `names`, which only
-- messages show, are left out.
pub mod Expansion
pub mod Problems
use zk_ai.Prelude.{
  ℕ, zero, suc, String, Bool, true, false, not, ◌&&◌, ◌||◌, Option, none, some, List, [], ◌∷◌, ◌++◌,
  map, one_of, is_some, length, if◌then◌else◌,
}
use zk_ai.Prelude.Text.{◌⧺◌}
use zk_ai.Prelude.Dict.{Dict, lookup, insert, remove, values, keys}

pub data AliasStrategy : Type 0 where
  priority capability cost speed round_robin weighted : AliasStrategy

-- Scores and weights are in thousandths.
pub record ModelAliasConfig : Type 0 where
  pub name : String
  pub targets : List String
  pub strategy : AliasStrategy
  pub enabled : Bool
  pub requires : Dict ℕ
  pub weights : Dict ℕ
  pub pin_first : Bool
  pub front_model : Option String

-- The items that are new, after those that were seen.
abbrev pub dedupe_into : List String → List String → List String
dedupe_into seen [] = seen
dedupe_into seen (x ∷ xs) = dedupe_into (if one_of x seen then seen else seen ++ x ∷ []) xs

-- `_dedupe`, and the end of `expand`: the first of each item, in their order.
abbrev pub dedupe : List String → List String
dedupe xs = dedupe_into [] xs

pub record AliasRegistry : Type 0 where
  pub aliases : Dict ModelAliasConfig

-- `{alias.name: alias for alias in aliases}`
abbrev pub by_name : Dict ModelAliasConfig → List ModelAliasConfig → Dict ModelAliasConfig
by_name table [] = table
by_name table (alias ∷ aliases) = by_name (insert alias.name alias table) aliases

-- `__init__`
abbrev pub new_registry : List ModelAliasConfig → AliasRegistry
new_registry aliases = record { aliases = by_name [] aliases }

-- `alias if alias and alias.enabled else None`
abbrev pub if_enabled : Option ModelAliasConfig → Option ModelAliasConfig
if_enabled none = none
if_enabled (some alias) = if alias.enabled then some alias else none

module _ (registry : AliasRegistry) where
  unfoldable pub get : String → Option ModelAliasConfig
  get name = if_enabled (lookup name registry.aliases)

  abbrev pub is_alias : String → Bool
  is_alias name = is_some (lookup name registry.aliases)

  abbrev pub names : List String
  names = keys registry.aliases

  abbrev pub all : List ModelAliasConfig
  all = values registry.aliases

  unfoldable pub upsert : ModelAliasConfig → AliasRegistry
  upsert alias = record { aliases = insert alias.name alias registry.aliases }

  -- `remove`, and whether the alias was there.
  unfoldable pub remove_alias : String → AliasRegistry × Bool
  remove_alias name = (record { aliases = remove name registry.aliases }, is_alias name)

  unfoldable pub enable_alias : String → Bool → AliasRegistry × Bool
  enable_alias name enabled = elim (lookup name registry.aliases) [
    | none ↦ (registry, false)
    | some alias ↦ (
      record { aliases = insert name (record alias { enabled = enabled }) registry.aliases },
      true,
    )
  ]

  unfoldable pub replace_all : List ModelAliasConfig → AliasRegistry × ℕ
  replace_all aliases = let table = by_name [] aliases in (record { aliases = table }, length table)

module _ (registry : AliasRegistry) (model_ids : List String) where
  -- The loop over the targets, with the expansion of a nested alias.
  unfoldable pub collect : (String → List String) → List String → List String
  collect nested [] = []
  collect nested (target ∷ targets) =
      let rest = collect nested targets in
      if one_of target model_ids
      then target ∷ rest
      else if is_some (get registry target)
      then nested target ++ rest
      else rest

  -- The alias, or a name that is none.
  abbrev pub expand_found : (String → List String) → String → Option ModelAliasConfig → List String
  expand_found nested name none = if one_of name model_ids then name ∷ [] else []
  expand_found nested name (some alias) = dedupe (collect nested alias.targets)

  -- `expand` with this many levels left: `_depth` is 9 less that.
  unfoldable pub expand_within : ℕ → String → List String
  expand_within zero name = []
  expand_within (suc levels) name = expand_found (expand_within levels) name (get registry name)

  -- `_depth > 8` ends the expansion, so there are 9 levels.
  abbrev pub expand : String → List String
  expand name = expand_within 9 name

  -- The problems of the targets of an alias.
  unfoldable pub target_problems : String → List String → List String
  target_problems name [] = []
  target_problems name (target ∷ targets) =
      let rest = target_problems name targets in
      if not (one_of target model_ids) && not (is_alias registry target)
      then ("alias '" ⧺ name ⧺ "' target '" ⧺ target ⧺ "' is unknown") ∷ rest
      else rest

  abbrev pub alias_problems : String → List String → List String
  alias_problems name [] = ("alias '" ⧺ name ⧺ "' has no targets") ∷ []
  alias_problems name (target ∷ targets) = target_problems name (target ∷ targets)

  unfoldable pub problems_of : List ModelAliasConfig → List String
  problems_of [] = []
  problems_of (alias ∷ aliases) = alias_problems alias.name alias.targets ++ problems_of aliases

  -- `validate`
  abbrev pub validate : List String
  validate = problems_of (all registry)
