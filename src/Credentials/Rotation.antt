-- ===== src/Credentials/Rotation.antt =====
-- app/credentials/rotation.py: the order in which keys are tried. `Rotation` is what the pool needs
-- of a strategy without a state of its own, and `priority_rotation` is the default strategy; the
-- two others without a state are in Sorted, and RoundRobin has the one with a cursor.
pub mod Sorted
pub mod RoundRobin
use zk_ai.Prelude.{
  ℕ, ◌≤◌, ◌≡◌, refl, Bool, true, false, not, Option, none, some, List, [], ◌∷◌, ltb, if◌then◌else◌,
  arith, All,
}
use mathlib.Core.List.{Perm}
use mathlib.Core.List.Perm
use zk_ai.Prelude.Text.{codes}
use zk_ai.Credentials.Runtime.{CredentialRuntime}

-- `CredentialRotation.order`
pub record Rotation : Type 1 where
  pub order : List CredentialRuntime → List CredentialRuntime
  pub order_perm : (keys : List CredentialRuntime) → Perm (order keys) keys
  pub order_all :
      (P : CredentialRuntime → Type 0) (keys : List CredentialRuntime)
      → All P keys
      → All P (order keys)

-- Python's order on texts, by their code points.
unfoldable pub codes_before : List ℕ → List ℕ → Bool
codes_before [] [] = false
codes_before [] (d ∷ ds) = true
codes_before (c ∷ cs) [] = false
codes_before (c ∷ cs) (d ∷ ds) =
    let rest = codes_before cs ds in if ltb c d then true else if ltb d c then false else rest

-- `last_used_at or 0.0`
abbrev pub used_at : Option ℕ → ℕ
used_at none = 0
used_at (some t) = t

-- `_priority_key(a) <= _priority_key(b)` on the tuples: the higher priority, the fewer failures,
-- the longer unused, the lower id.
unfoldable pub comes_first : CredentialRuntime → CredentialRuntime → Bool
comes_first a b =
    if ltb b.priority a.priority
    then true
    else if ltb a.priority b.priority
    then false
    else if ltb a.consecutive_failures b.consecutive_failures
    then true
    else if ltb b.consecutive_failures a.consecutive_failures
    then false
    else if ltb (used_at a.last_used_at) (used_at b.last_used_at)
    then true
    else if ltb (used_at b.last_used_at) (used_at a.last_used_at)
    then false
    else not (codes_before (codes b.id) (codes a.id))

abbrev pub place_if :
    Bool
    → CredentialRuntime
    → CredentialRuntime
    → List CredentialRuntime
    → List CredentialRuntime
    → List CredentialRuntime
place_if true key other rest placed = key ∷ other ∷ rest
place_if false key other rest placed = other ∷ placed

unfoldable pub place : CredentialRuntime → List CredentialRuntime → List CredentialRuntime
place key [] = key ∷ []
place key (other ∷ rest) = place_if (comes_first key other) key other rest (place key rest)

-- `sorted(credentials, key=...)`
unfoldable pub priority_order : List CredentialRuntime → List CredentialRuntime
priority_order [] = []
priority_order (key ∷ keys) = place key (priority_order keys)

place_if-perm :
    (b : Bool) (key other : CredentialRuntime) (rest placed : List CredentialRuntime)
    → Perm placed (key ∷ rest)
    → Perm (place_if b key other rest placed) (key ∷ other ∷ rest)
place_if-perm true key other rest placed h = Perm.rfl
place_if-perm false key other rest placed h =
    Perm.trans (Perm.cons other h) (Perm.swap key other rest)

place-perm :
    (keys : List CredentialRuntime) (key : CredentialRuntime) → Perm (place key keys) (key ∷ keys)
unfolding place
place-perm [] key = Perm.rfl
place-perm (other ∷ rest) key =
    place_if-perm (comes_first key other) key other rest (place key rest) (place-perm rest key)

pub priority_order-perm : (keys : List CredentialRuntime) → Perm (priority_order keys) keys
unfolding priority_order
priority_order-perm [] = Perm.rfl
priority_order-perm (key ∷ keys) =
    Perm.trans (place-perm (priority_order keys) key) (Perm.cons key (priority_order-perm keys))

module _ (P : CredentialRuntime → Type 0) where
  place_if-All :
      (b : Bool) (key other : CredentialRuntime) (rest placed : List CredentialRuntime)
      → P key
      → All P (other ∷ rest)
      → All P placed
      → All P (place_if b key other rest placed)
  place_if-All true key other rest placed hk h hp = (hk, h)
  place_if-All false key other rest placed hk h hp = (h.0, hp)

  pub place-All :
      (keys : List CredentialRuntime) (key : CredentialRuntime)
      → P key
      → All P keys
      → All P (place key keys)
  unfolding place
  place-All [] key hk h = (hk, tt)
  place-All (other ∷ rest) key hk h =
      place_if-All (comes_first key other) key other rest (place key rest) hk h
        (place-All rest key hk h.1)

  pub priority_order-All :
      (keys : List CredentialRuntime) → All P keys → All P (priority_order keys)
  unfolding priority_order
  priority_order-All [] h = tt
  priority_order-All (key ∷ keys) h =
      place-All (priority_order keys) key h.0 (priority_order-All keys h.1)

abbrev pub priority_rotation : Rotation
priority_rotation = record {
  order = priority_order;
  order_perm = priority_order-perm;
  order_all = priority_order-All;
}

-- Each key has at least the priority of all the keys after it.
abbrev pub IsRanked : List CredentialRuntime → Type 0
IsRanked [] = Unit
IsRanked (key ∷ keys) = All (λ other. other.priority ≤ key.priority) keys × IsRanked keys

comes_first-priority : (a b : CredentialRuntime) → comes_first a b ≡ true → b.priority ≤ a.priority
unfolding comes_first
comes_first-priority a b h = ground arith

comes_first-not : (a b : CredentialRuntime) → comes_first a b ≡ false → a.priority ≤ b.priority
unfolding comes_first
comes_first-not a b h = ground arith

All-lower :
    (keys : List CredentialRuntime) (n m : ℕ)
    → n ≤ m
    → All (λ other. other.priority ≤ n) keys
    → All (λ other. other.priority ≤ m) keys
All-lower [] n m h below = tt
All-lower (key ∷ keys) n m h below = (omega (arith, below.0), All-lower keys n m h below.1)

place_if-IsRanked :
    (b : Bool) (key other : CredentialRuntime) (rest : List CredentialRuntime)
    → comes_first key other ≡ b
    → IsRanked (other ∷ rest)
    → IsRanked (place key rest)
    → IsRanked (place_if b key other rest (place key rest))
place_if-IsRanked true key other rest same h placed =
    let le = comes_first-priority key other same in
    ((le, All-lower rest other.priority key.priority le h.0), h)
place_if-IsRanked false key other rest same h placed = (
  place-All (λ x. x.priority ≤ other.priority) rest key (comes_first-not key other same) h.0,
  placed,
)

place-IsRanked :
    (keys : List CredentialRuntime) (key : CredentialRuntime)
    → IsRanked keys
    → IsRanked (place key keys)
unfolding place
place-IsRanked [] key h = (tt, tt)
place-IsRanked (other ∷ rest) key h =
    place_if-IsRanked (comes_first key other) key other rest refl h (place-IsRanked rest key h.1)

priority_order-IsRanked : (keys : List CredentialRuntime) → IsRanked (priority_order keys)
unfolding priority_order
priority_order-IsRanked [] = tt
priority_order-IsRanked (key ∷ keys) =
    place-IsRanked (priority_order keys) key (priority_order-IsRanked keys)

-- The default strategy tries every key it is given, once for each time it is given, and no key
-- before one of a higher priority.
priority_order-ranks :
    (keys : List CredentialRuntime)
    → Perm (priority_order keys) keys × IsRanked (priority_order keys)
priority_order-ranks keys = (priority_order-perm keys, priority_order-IsRanked keys)
