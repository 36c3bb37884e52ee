-- ===== src/Routing/Aliases/Expansion.antt =====
-- What an alias expands to.
use zk_ai.Prelude.{
  ℕ, zero, suc, ◌≡◌, ◌↔◌, ◌⊎◌, inl, inr, refl, sym, ◌∙◌, subst, String, str_eq, eq_iff, Bool, true,
  false, ◌||◌, Option, none, some, List, [], ◌∷◌, ◌++◌, one_of, is_some, arith, Bool-cases,
}
use zk_ai.Routing.Aliases.{
  ModelAliasConfig, AliasRegistry, get, dedupe_into, collect, expand_found, expand_within, expand,
}

one_of-append :
    (s : String) (xs ys : List String) → one_of s (xs ++ ys) ≡ (one_of s xs || one_of s ys)
one_of-append s [] ys = refl
one_of-append s (x ∷ xs) ys = ground (arith, one_of-append s xs ys)

one_of-dedupe_into :
    (s : String) (seen xs : List String)
    → one_of s (dedupe_into seen xs) ≡ (one_of s seen || one_of s xs)
one_of-dedupe_into s seen [] = ground arith
one_of-dedupe_into s seen (x ∷ xs) = elim (Bool-cases (one_of x seen)) [
  | inl there ↦ rw there (one_of-dedupe_into s seen xs ∙ ground (arith, eq_iff s x, there))
  | inr new ↦
      rw new
        (one_of-dedupe_into s (seen ++ x ∷ []) xs ∙ ground (arith, one_of-append s seen (x ∷ [])))
]

-- No text stands twice in the list.
abbrev pub AllDistinct : List String → Type 0
AllDistinct [] = Unit
AllDistinct (x ∷ xs) = (one_of x xs ≡ false) × AllDistinct xs

AllDistinct-append :
    (xs : List String) (x : String)
    → AllDistinct xs
    → one_of x xs ≡ false
    → AllDistinct (xs ++ x ∷ [])
AllDistinct-append [] x h new = (refl, tt)
AllDistinct-append (y ∷ ys) x h new = (
  ground (arith, one_of-append y ys (x ∷ []), eq_iff y x, eq_iff x y, h.0, new),
  AllDistinct-append ys x h.1 (ground (arith, new)),
)

dedupe_into-AllDistinct :
    (xs seen : List String) → AllDistinct seen → AllDistinct (dedupe_into seen xs)
dedupe_into-AllDistinct [] seen h = h
dedupe_into-AllDistinct (x ∷ xs) seen h = elim (Bool-cases (one_of x seen)) [
  | inl there ↦ rw there (dedupe_into-AllDistinct xs seen h)
  | inr new ↦ rw new (dedupe_into-AllDistinct xs (seen ++ x ∷ []) (AllDistinct-append seen x h new))
]

-- The model `id` is reached from a name in so many levels: it is the name itself, which is no alias;
-- or a target of the alias; or it is reached from a target that is an alias and no model.
pub data Reaches (registry : AliasRegistry) (model_ids : List String)
    : ℕ → String → String → Type 0 where
  itself :
      {levels : ℕ} {name : String}
      → get registry name ≡ none
      → one_of name model_ids ≡ true
      → Reaches registry model_ids (suc levels) name name
  listed :
      {levels : ℕ} {name id : String} (alias : ModelAliasConfig)
      → get registry name ≡ some alias
      → one_of id alias.targets ≡ true
      → one_of id model_ids ≡ true
      → Reaches registry model_ids (suc levels) name id
  through :
      {levels : ℕ} {name id : String} (alias : ModelAliasConfig) (next : String)
      → get registry name ≡ some alias
      → one_of next alias.targets ≡ true
      → one_of next model_ids ≡ false
      → is_some (get registry next) ≡ true
      → Reaches registry model_ids levels next id
      → Reaches registry model_ids (suc levels) name id

module _ (registry : AliasRegistry) (model_ids : List String) where
  -- How a model comes into the list: as a target, or from a nested alias.
  abbrev Source : (String → List String) → List String → String → Type 0
  Source nested targets id =
      ((one_of id targets ≡ true) × (one_of id model_ids ≡ true))
      ⊎ ((next : String) × ((one_of next targets ≡ true)
            × (one_of next model_ids ≡ false)
            × (is_some (get registry next) ≡ true)
            × (one_of id (nested next) ≡ true)))

  later :
      (nested : String → List String) (t : String) (targets : List String) (id : String)
      → Source nested targets id
      → Source nested (t ∷ targets) id
  later nested t targets id (inl h) = inl (ground (arith, h.0), h.1)
  later nested t targets id (inr (next, h)) = inr (next, (ground (arith, h.0), h.1, h.2, h.3))

  or-cases : (a b : Bool) → (a || b) ≡ true → (a ≡ true) ⊎ (b ≡ true)
  or-cases true b h = inl refl
  or-cases false b h = inr h

  collect-source :
      (nested : String → List String) (targets : List String) (id : String)
      → one_of id (collect registry model_ids nested targets) ≡ true
      → Source nested targets id
  unfolding collect
  collect-source nested [] id h = absurd (ground (arith, h))
  collect-source nested (t ∷ targets) id h =
      let rest = collect-source nested targets id in
      elim (Bool-cases (one_of t model_ids)) [
        | inl known ↦
            elim (or-cases (str_eq id t) (one_of id (collect registry model_ids nested targets))
              (rw known at h)) [
                | inl same ↦ inl (
                  ground (arith, same),
                  subst (λ x. one_of x model_ids ≡ true) (sym ((eq_iff id t).0 same)) known,
                )
                | inr more ↦ later nested t targets id (rest more)
              ]
        | inr unknown ↦ elim (Bool-cases (is_some (get registry t))) [
          | inl there ↦
              elim (or-cases (one_of id (nested t))
                (one_of id (collect registry model_ids nested targets))
                (sym (one_of-append id (nested t) _) ∙ (rw (unknown, there) at h))) [
                  | inl inner ↦ inr (t, (ground (arith, eq_iff t t), unknown, there, inner))
                  | inr more ↦ later nested t targets id (rest more)
                ]
          | inr gone ↦ later nested t targets id (rest (rw (unknown, gone) at h))
        ]
      ]

  source-collect :
      (nested : String → List String) (targets : List String) (id : String)
      → Source nested targets id
      → one_of id (collect registry model_ids nested targets) ≡ true
  unfolding collect
  source-collect nested [] id (inl h) = absurd (ground (arith, h.0))
  source-collect nested [] id (inr (next, h)) = absurd (ground (arith, h.0))
  source-collect nested (t ∷ targets) id (inl h) = ground (
    arith,
    eq_iff id t,
    h.0,
    h.1,
    one_of-append id (nested t) (collect registry model_ids nested targets),
    λ (m : one_of id targets ≡ true). source-collect nested targets id (inl (m, h.1)),
  )
  source-collect nested (t ∷ targets) id (inr (next, h)) = ground (
    arith,
    eq_iff next t,
    h.0,
    h.1,
    h.2,
    h.3,
    one_of-append id (nested t) (collect registry model_ids nested targets),
    λ (m : one_of next targets ≡ true).
        source-collect nested targets id (inr (next, (m, h.1, h.2, h.3))),
  )

  source-Reaches :
      (levels : ℕ) (name id : String) (alias : ModelAliasConfig)
      → get registry name ≡ some alias
      → ((next : String)
          → one_of id (expand_within registry model_ids levels next) ≡ true
          → Reaches registry model_ids levels next id)
      → Source (expand_within registry model_ids levels) alias.targets id
      → Reaches registry model_ids (suc levels) name id
  source-Reaches levels name id alias found inner (inl h) = listed alias found h.0 h.1
  source-Reaches levels name id alias found inner (inr (next, h)) =
      through alias next found h.0 h.1 h.2 (inner next h.3)

  expand_found-Reaches :
      (levels : ℕ) (name id : String) (found : Option ModelAliasConfig)
      → get registry name ≡ found
      → ((next : String)
          → one_of id (expand_within registry model_ids levels next) ≡ true
          → Reaches registry model_ids levels next id)
      → one_of id
          (expand_found registry model_ids (expand_within registry model_ids levels) name found)
        ≡ true
      → Reaches registry model_ids (suc levels) name id
  expand_found-Reaches levels name id none found inner h =
      elim (Bool-cases (one_of name model_ids)) [
        | inl known ↦
            let same : id ≡ name = ground (arith, eq_iff id name, h, known) in
            subst (λ x. Reaches registry model_ids (suc levels) name x) (sym same)
              (itself found known)
        | inr unknown ↦ absurd (ground (arith, h, unknown))
      ]
  expand_found-Reaches levels name id (some alias) found inner h =
      source-Reaches levels name id alias found inner (
        collect-source (expand_within registry model_ids levels) alias.targets id
          (sym (one_of-dedupe_into id [] _) ∙ h))

expand_within-Reaches :
    (levels : ℕ) (registry : AliasRegistry) (model_ids : List String) (name id : String)
    → one_of id (expand_within registry model_ids levels name) ≡ true
    → Reaches registry model_ids levels name id
unfolding expand_within
expand_within-Reaches zero registry model_ids name id h = absurd (ground (arith, h))
expand_within-Reaches (suc levels) registry model_ids name id h =
    expand_found-Reaches registry model_ids levels name id (get registry name) refl
      (λ next. expand_within-Reaches levels registry model_ids next id) h

Reaches-expand_within :
    {registry : AliasRegistry} {model_ids : List String} {levels : ℕ} {name id : String}
    → Reaches registry model_ids levels name id
    → one_of id (expand_within registry model_ids levels name) ≡ true
unfolding expand_within
Reaches-expand_within {levels = zero} h = elim h [ ]
Reaches-expand_within {registry = registry} {model_ids = model_ids} {levels = suc levels}
      {name = name} {id = id} (itself none_found known) =
    rw (none_found, known) (ground (arith, eq_iff name name))
Reaches-expand_within {registry = registry} {model_ids = model_ids} {levels = suc levels}
      {name = name} {id = id} (listed alias found there known) =
    rw found (
      one_of-dedupe_into id [] _
      ∙ source-collect registry model_ids (expand_within registry model_ids levels) alias.targets id
          (inl (there, known)))
Reaches-expand_within {registry = registry} {model_ids = model_ids} {levels = suc levels}
      {name = name} {id = id} (through alias next found there unknown enabled h) =
    rw found (
      one_of-dedupe_into id [] _
      ∙ source-collect registry model_ids (expand_within registry model_ids levels) alias.targets id
          (inr (next, (there, unknown, enabled, Reaches-expand_within h))))

-- An alias expands to exactly the models that are reached from it in at most 9 levels: a target that
-- is a model, or what a target that is no model but an enabled alias reaches in its turn. A name
-- that is no enabled alias expands to itself if it is a model.
pub expand-Reaches :
    (registry : AliasRegistry) (model_ids : List String) (name id : String)
    → (one_of id (expand registry model_ids name) ≡ true) ↔ Reaches registry model_ids 9 name id
expand-Reaches registry model_ids name id =
    (expand_within-Reaches 9 registry model_ids name id, Reaches-expand_within)

expand_found-AllDistinct :
    (registry : AliasRegistry) (model_ids : List String) (f : String → List String) (name : String)
    (found : Option ModelAliasConfig)
    → AllDistinct (expand_found registry model_ids f name found)
expand_found-AllDistinct registry model_ids f name none =
    elim (Bool-cases (one_of name model_ids)) [
      | inl known ↦ rw known (refl, tt)
      | inr unknown ↦ rw unknown tt
    ]
expand_found-AllDistinct registry model_ids f name (some alias) =
    dedupe_into-AllDistinct (collect registry model_ids f alias.targets) [] tt

Reaches-known :
    {registry : AliasRegistry} {model_ids : List String} {levels : ℕ} {name id : String}
    → Reaches registry model_ids levels name id
    → one_of id model_ids ≡ true
Reaches-known (itself none_found known) = known
Reaches-known (listed alias found there known) = known
Reaches-known (through alias next found there unknown enabled h) = Reaches-known h

-- What an alias expands to are models, and none of them twice.
expand-AllDistinct :
    (registry : AliasRegistry) (model_ids : List String) (name : String)
    → AllDistinct (expand registry model_ids name)
      × ((id : String)
          → one_of id (expand registry model_ids name) ≡ true
          → one_of id model_ids ≡ true)
unfolding expand_within
expand-AllDistinct registry model_ids name = (
  expand_found-AllDistinct registry model_ids _ name (get registry name),
  λ id h. Reaches-known (expand_within-Reaches 9 registry model_ids name id h),
)
