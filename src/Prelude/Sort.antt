-- ===== src/Prelude/Sort.antt =====
-- Python's `list.sort` by a key, as a stable sort by a Boolean order of the items, and the orders
-- that keys of several parts give.
use Prim.Native.Nat.{ℕ}
use mathlib.Core.Path.{◌≡◌, refl, ap, ◌∙◌}
use mathlib.Core.Logic.{inl, inr, ∥∥₁_elim}
use mathlib.Core.Bool.{Bool, true, false, not, ◌&&◌, ◌||◌, Bool-set}
use mathlib.Core.List.{
  List, [], ◌∷◌, ◌++◌, Perm, Mem, not-mem-nil, eq-or-mem_of_mem-cons, mem-cons_self,
  mem-cons_of_mem,
}
use mathlib.Core.List.Perm
use mathlib.Core.List.Permᴰ
use native.Mathlib.Omega.{arith}
use zk_ai.Prelude.Tests.{ltb, ◌==◌, if◌then◌else◌, Bool-cases}
use zk_ai.Prelude.Lists.{All, keep_if}

module _ {A : Type 0} (before : A → A → Bool) where
  unfoldable pub insert_by : A → List A → List A
  insert_by x [] = x ∷ []
  insert_by x (y ∷ ys) = let rest = insert_by x ys in if before y x then y ∷ rest else x ∷ y ∷ ys

  unfoldable pub sort_by : List A → List A
  sort_by [] = []
  sort_by (x ∷ xs) = insert_by x (sort_by xs)

  -- The order is that of some rank: what is not before another is not, by a third.
  pub record IsRank : Type 0 where
    pub asymmetric : (x y : A) → before x y ≡ true → before y x ≡ false
    pub steps : (x y z : A) → before y x ≡ false → before z y ≡ false → before z x ≡ false

  -- No item stands after one that it is before.
  abbrev pub IsSorted : List A → Type 0
  IsSorted [] = Unit
  IsSorted (x ∷ xs) = All (λ y. before y x ≡ false) xs × IsSorted xs

  insert_by-Perm : (x : A) (xs : List A) → Perm (insert_by x xs) (x ∷ xs)
  unfolding insert_by
  insert_by-Perm x [] = Perm.rfl
  insert_by-Perm x (y ∷ ys) = elim (Bool-cases (before y x)) [
    | inl first ↦ rw first (Perm.trans (Perm.cons y (insert_by-Perm x ys)) (Perm.swap x y ys))
    | inr not_first ↦ rw not_first Perm.rfl
  ]

  pub sort_by-Perm : (xs : List A) → Perm (sort_by xs) xs
  unfolding sort_by
  sort_by-Perm [] = Perm.rfl
  sort_by-Perm (x ∷ xs) = Perm.trans (insert_by-Perm x (sort_by xs)) (Perm.cons x (sort_by-Perm xs))

  insert_by-All : (P : A → Type 0) (x : A) (xs : List A) → P x → All P xs → All P (insert_by x xs)
  unfolding insert_by
  insert_by-All P x [] h hs = (h, tt)
  insert_by-All P x (y ∷ ys) h hs = elim (Bool-cases (before y x)) [
    | inl first ↦ rw first (hs.0, insert_by-All P x ys h hs.1)
    | inr not_first ↦ rw not_first (h, (hs.0, hs.1))
  ]

  pub sort_by-All : (P : A → Type 0) (xs : List A) → All P xs → All P (sort_by xs)
  unfolding sort_by
  sort_by-All P [] h = tt
  sort_by-All P (x ∷ xs) h = insert_by-All P x (sort_by xs) h.0 (sort_by-All P xs h.1)

  module _ (rank : IsRank) where
    All-steps :
        (x y : A) (ys : List A)
        → before y x ≡ false
        → All (λ z. before z y ≡ false) ys
        → All (λ z. before z x ≡ false) ys
    All-steps x y [] h hs = tt
    All-steps x y (z ∷ zs) h hs = (rank.steps x y z h hs.0, All-steps x y zs h hs.1)

    insert_by-IsSorted : (x : A) (xs : List A) → IsSorted xs → IsSorted (insert_by x xs)
    unfolding insert_by
    insert_by-IsSorted x [] h = (tt, tt)
    insert_by-IsSorted x (y ∷ ys) h = elim (Bool-cases (before y x)) [
      | inl first ↦ rw first (
        insert_by-All (λ z. before z y ≡ false) x ys (rank.asymmetric y x first) h.0,
        insert_by-IsSorted x ys h.1,
      )
      | inr not_first ↦ rw not_first ((not_first, All-steps x y ys not_first h.0), (h.0, h.1))
    ]

    pub sort_by-IsSorted : (xs : List A) → IsSorted (sort_by xs)
    unfolding sort_by
    sort_by-IsSorted [] = tt
    sort_by-IsSorted (x ∷ xs) = insert_by-IsSorted x (sort_by xs) (sort_by-IsSorted xs)

-- A key with one more part in front.
abbrev pub then_by : ℕ → ℕ → Bool → Bool
then_by x y rest = ltb x y || (x == y && rest)

module _ {A : Type 0} (key : A → ℕ) (rest : A → A → Bool) where
  -- By the key, the smaller first.
  abbrev pub ascending : A → A → Bool
  ascending a b = then_by (key a) (key b) (rest a b)

  -- By `-key`, the greater first.
  abbrev pub descending : A → A → Bool
  descending a b = then_by (key b) (key a) (rest a b)

  pub ascending-IsRank : IsRank rest → IsRank ascending
  ascending-IsRank h = record {
    asymmetric = λ x y f. ground (arith, h.asymmetric x y, f);
    steps = λ x y z f g. ground (arith, h.steps x y z, f, g);
  }

  pub descending-IsRank : IsRank rest → IsRank descending
  descending-IsRank h = record {
    asymmetric = λ x y f. ground (arith, h.asymmetric x y, f);
    steps = λ x y z f g. ground (arith, h.steps x y z, f, g);
  }

-- Texts in the order of their code points.
abbrev pub text_before : List ℕ → List ℕ → Bool
text_before xs [] = false
text_before [] (y ∷ ys) = true
text_before (x ∷ xs) (y ∷ ys) = then_by x y (text_before xs ys)

text_before-asymmetric : (xs ys : List ℕ) → text_before xs ys ≡ true → text_before ys xs ≡ false
text_before-asymmetric [] [] h = refl
text_before-asymmetric [] (y ∷ ys) h = refl
text_before-asymmetric (x ∷ xs) [] h = absurd (ground (arith, h))
text_before-asymmetric (x ∷ xs) (y ∷ ys) h = ground (arith, text_before-asymmetric xs ys, h)

text_before-steps :
    (xs ys zs : List ℕ)
    → text_before ys xs ≡ false
    → text_before zs ys ≡ false
    → text_before zs xs ≡ false
text_before-steps [] ys zs h k = refl
text_before-steps (x ∷ xs) [] zs h k = absurd (ground (arith, h))
text_before-steps (x ∷ xs) (y ∷ ys) [] h k = absurd (ground (arith, k))
text_before-steps (x ∷ xs) (y ∷ ys) (z ∷ zs) h k = ground (arith, text_before-steps xs ys zs, h, k)

pub text_before-IsRank :
    {A : Type 0} (text : A → List ℕ) → IsRank (λ a b. text_before (text a) (text b))
text_before-IsRank text = record {
  asymmetric = λ x y. text_before-asymmetric (text x) (text y);
  steps = λ x y z. text_before-steps (text x) (text y) (text z);
}

module _ {A : Type 0} (f : A → Bool) (b : Bool) where
  All-mem : (xs : List A) (a : A) → All (λ x. f x ≡ b) xs → Mem a xs → f a ≡ b
  All-mem [] a h m = absurd (not-mem-nil m)
  All-mem (x ∷ xs) a h m =
      ∥∥₁_elim (eq-or-mem_of_mem-cons m) (Bool-set (f a) b)
        (λ c. elim c [ inl same ↦ ap f same ∙ h.0 | inr later ↦ All-mem xs a h.1 later ])

  All-of : (xs : List A) → ((a : A) → Mem a xs → f a ≡ b) → All (λ x. f x ≡ b) xs
  All-of [] h = tt
  All-of (x ∷ xs) h = (h x mem-cons_self, All-of xs (λ a m. h a (mem-cons_of_mem x m)))

  pub All-Perm : (xs ys : List A) → Perm xs ys → All (λ x. f x ≡ b) ys → All (λ x. f x ≡ b) xs
  All-Perm xs ys p h = All-of xs (λ a m. All-mem ys a h (Perm.subset p a m))

module _ {A : Type 0} (p : A → Bool) where
  pub keep_if-All : (xs : List A) → All (λ x. p x ≡ true) (keep_if p xs)
  keep_if-All [] = tt
  keep_if-All (x ∷ xs) = elim (Bool-cases (p x)) [
    | inl passes ↦ rw passes (passes, keep_if-All xs)
    | inr fails ↦ rw fails (keep_if-All xs)
  ]

  -- What passes the test and what does not are the whole list.
  pub keep_if-Perm : (xs : List A) → Perm (keep_if p xs ++ keep_if (λ x. not (p x)) xs) xs
  keep_if-Perm [] = Perm.rfl
  keep_if-Perm (x ∷ xs) = elim (Bool-cases (p x)) [
    | inl passes ↦ rw passes (Perm.cons x (keep_if-Perm xs))
    | inr fails ↦ rw fails (
        Perm.trans (∣ Permᴰ.middle x (keep_if p xs) (keep_if (λ x. not (p x)) xs) ∣₁)
          (Perm.cons x (keep_if-Perm xs)))
  ]
