-- ===== src/Routing/Capability/Weights.antt =====
-- What the gates and the alias do to the weights that are inferred from a request.
use zk_ai.Prelude.{
  ℕ, max, ◌≤◌, ◌≡◌, inl, inr, sym, subst, String, str_eq, eq_iff, Bool, true, false, Option, List,
  [], ◌∷◌, All, one_of, is_some, arith, Bool-cases,
}
use native.Mathlib.Nat.{le_trans}
use zk_ai.Prelude.Dict.{Dict, lookup, lookup-insert, keys}
use zk_ai.Routing.Aliases.{ModelAliasConfig}
use zk_ai.Routing.Capability.{
  ModelConfig, ChatRequest, Hints, get_or_zero, raise_weight, weigh_gates, raise_floors,
  raise_known, gate_weight, alias_weights, inferred, infer_requirement,
}

raise_weight_mono :
    (name j : String) (value : ℕ) (d : Dict ℕ)
    → get_or_zero j d ≤ get_or_zero j (raise_weight name value d)
raise_weight_mono name j value d =
    ground (arith, lookup-insert name j (max (get_or_zero name d) value) d, eq_iff name j)

raise_weight-reaches :
    (name : String) (value : ℕ) (d : Dict ℕ) → value ≤ get_or_zero name (raise_weight name value d)
raise_weight-reaches name value d =
    ground (arith, lookup-insert name name (max (get_or_zero name d) value) d, eq_iff name name)

raise_weight-knows :
    (name j : String) (value : ℕ) (d : Dict ℕ)
    → is_some (lookup j d) ≡ true
    → is_some (lookup j (raise_weight name value d)) ≡ true
raise_weight-knows name j value d h =
    ground (arith, lookup-insert name j (max (get_or_zero name d) value) d, eq_iff name j, h)

weigh_gates_mono :
    (names : List String) (j : String) (d : Dict ℕ)
    → get_or_zero j d ≤ get_or_zero j (weigh_gates names d)
unfolding weigh_gates
weigh_gates_mono [] j d = omega arith
weigh_gates_mono (name ∷ names) j d =
    le_trans (raise_weight_mono name j gate_weight d)
      (weigh_gates_mono names j (raise_weight name gate_weight d))

weigh_gates-reaches :
    (names : List String) (j : String) (d : Dict ℕ)
    → one_of j names ≡ true
    → gate_weight ≤ get_or_zero j (weigh_gates names d)
unfolding weigh_gates
weigh_gates-reaches [] j d h = absurd (ground (arith, h))
weigh_gates-reaches (name ∷ names) j d h = elim (Bool-cases (str_eq j name)) [
  | inl same ↦
      subst (λ x. gate_weight ≤ get_or_zero x (weigh_gates names (raise_weight name gate_weight d)))
        (sym ((eq_iff j name).0 same))
        (le_trans (raise_weight-reaches name gate_weight d)
          (weigh_gates_mono names name (raise_weight name gate_weight d)))
  | inr other ↦ weigh_gates-reaches names j (raise_weight name gate_weight d) (rw other at h)
]

raise_known_mono :
    (name j : String) (value : ℕ) (d : Dict ℕ) (known : Bool)
    → get_or_zero j d ≤ get_or_zero j (raise_known name value d known)
raise_known_mono name j value d false = omega arith
raise_known_mono name j value d true = raise_weight_mono name j value d

raise_known-knows :
    (name j : String) (value : ℕ) (d : Dict ℕ) (known : Bool)
    → is_some (lookup j d) ≡ true
    → is_some (lookup j (raise_known name value d known)) ≡ true
raise_known-knows name j value d false h = h
raise_known-knows name j value d true h = raise_weight-knows name j value d h

raise_floors_mono :
    (floors : Dict ℕ) (j : String) (d : Dict ℕ)
    → get_or_zero j d ≤ get_or_zero j (raise_floors floors d)
unfolding raise_floors
raise_floors_mono [] j d = omega arith
raise_floors_mono ((name, value) ∷ floors) j d =
    le_trans (raise_known_mono name j value d (is_some (lookup name d)))
      (raise_floors_mono floors j (raise_known name value d (is_some (lookup name d))))

-- Every weight of the list that is for a known dimension is a floor.
abbrev pub Floors : Dict ℕ → Dict ℕ → Dict ℕ → Type 0
Floors floors before after =
    All (λ floor. is_some (lookup floor.0 before) ≡ true → floor.1 ≤ get_or_zero floor.0 after)
      floors

Floors-earlier :
    (floors before d after : Dict ℕ)
    → ((j : String) → is_some (lookup j before) ≡ true → is_some (lookup j d) ≡ true)
    → Floors floors d after
    → Floors floors before after
Floors-earlier [] before d after knows h = tt
Floors-earlier (floor ∷ floors) before d after knows h =
    (λ there. h.0 (knows floor.0 there), Floors-earlier floors before d after knows h.1)

raise_floors-Floors : (floors d : Dict ℕ) → Floors floors d (raise_floors floors d)
unfolding raise_floors
raise_floors-Floors [] d = tt
raise_floors-Floors ((name, value) ∷ floors) d = (
  λ there. rw there (
      le_trans (raise_weight-reaches name value d)
        (raise_floors_mono floors name (raise_weight name value d))),
  Floors-earlier floors d (raise_known name value d (is_some (lookup name d))) _
      (λ j. raise_known-knows name j value d (is_some (lookup name d)))
      (raise_floors-Floors floors (raise_known name value d (is_some (lookup name d)))),
)

-- Gates and aliases only raise the weights that the request alone gives: none is lowered, each
-- dimension with a minimum weighs at least 8, and the weights of the alias are floors for the
-- dimensions that are known by then, not overrides: they cannot lower an inferred weight.
pub infer_requirement-Floors :
    (hints : Hints) (request : ChatRequest) (alias : Option ModelAliasConfig)
    (model : Option ModelConfig)
    → let r = infer_requirement hints request alias model in
      let before = (inferred hints request).weights in
      ((name : String) → get_or_zero name before ≤ get_or_zero name r.weights)
      × ((name : String)
          → one_of name (keys r.minimums) ≡ true
          → gate_weight ≤ get_or_zero name r.weights)
      × Floors (alias_weights alias) (weigh_gates (keys r.minimums) before) r.weights
unfolding infer_requirement
infer_requirement-Floors hints request alias model =
    let before = (inferred hints request).weights in
    let gates =
      keys (unfold infer_requirement in (infer_requirement hints request alias model).minimums) in
    let weighed = weigh_gates gates before in
    (
      λ name.
          le_trans (weigh_gates_mono gates name before)
            (raise_floors_mono (alias_weights alias) name weighed),
      λ name there.
          le_trans (weigh_gates-reaches gates name before there)
            (raise_floors_mono (alias_weights alias) name weighed),
      raise_floors-Floors (alias_weights alias) weighed,
    )
