-- ===== src/Prelude/Bands.antt =====
-- Strategies that work by bands of equal priority: the bands of a list, the turn of a band, and
-- weighted draws from it. `rng.choices` is a parameter.
use Prim.Native.Nat.{ℕ, zero, suc, ◌≤◌}
use mathlib.Core.Path.{◌≡◌, refl, sym, ap, subst}
use mathlib.Core.Bool.{Bool, true, false}
use mathlib.Core.List.{List, [], ◌∷◌, ◌++◌, map, Perm}
use mathlib.Core.List.Perm
use mathlib.Core.List.Permᴰ
use native.Mathlib.Omega.{arith}
use zk_ai.Prelude.Tests.{ltb, ◌==◌, if◌then◌else◌}
use zk_ai.Prelude.Lists.{length, take, drop}
use zk_ai.Prelude.Sort.{insert_by, sort_by}

-- `rng.choices(bucket, weights=weights, k=1)[0]` by the number of the draw: the index of the choice.
abbrev pub Choices : Type 0
Choices = ℕ → List ℕ → ℕ

-- Items by their priority.
abbrev pub Bands : Type 0 → Type 0
Bands A = List (ℕ × List A)

module _ {A : Type 0} where
  -- `xs[n:] + xs[:n]`
  abbrev pub rotate : ℕ → List A → List A
  rotate n xs = drop n xs ++ take n xs

  -- `bucket.remove(chosen)`: the chosen one and the others.
  abbrev pub take_at : ℕ → A → List A → A × List A
  take_at zero c cs = (c, cs)
  take_at (suc i) c [] = (c, [])
  take_at (suc i) c (d ∷ ds) = let found = take_at i d ds in (found.0, c ∷ found.1)

  abbrev pub higher_band : ℕ × List A → ℕ × List A → Bool
  higher_band a b = ltb b.0 a.0

  -- The items of all bands.
  unfoldable pub flat : Bands A → List A
  flat [] = []
  flat ((priority, band) ∷ bands) = band ++ flat bands

module _ {A : Type 0} (priority : A → ℕ) where
  -- `bands.setdefault(priority, []).append(item)`
  unfoldable pub add_to_band : A → Bands A → Bands A
  add_to_band c [] = (priority c, c ∷ []) ∷ []
  add_to_band c ((p, band) ∷ bands) =
      let rest = add_to_band c bands in
      if p == priority c then (p, band ++ c ∷ []) ∷ bands else (p, band) ∷ rest

  abbrev pub bands_of : List A → Bands A → Bands A
  bands_of [] bands = bands
  bands_of (c ∷ cs) bands = bands_of cs (add_to_band c bands)

  -- The bands, the highest priority first.
  abbrev pub sorted_bands : List A → Bands A
  sorted_bands cs = sort_by higher_band (bands_of cs [])

module _ {A : Type 0} (weight : A → ℕ) (choices : Choices) where
  -- `while bucket`, with fuel for the size of the bucket.
  unfoldable pub draw_all : ℕ → List A → List A
  draw_all zero bucket = []
  draw_all (suc fuel) [] = []
  draw_all (suc fuel) (c ∷ cs) =
      let found = take_at (choices fuel (map weight (c ∷ cs))) c cs in
      found.0 ∷ draw_all fuel found.1

  unfoldable pub draw_bands : Bands A → List A
  draw_bands [] = []
  draw_bands ((p, band) ∷ bands) = draw_all (length band) band ++ draw_bands bands

module _ {A : Type 0} where
  take-drop : (n : ℕ) (xs : List A) → take n xs ++ drop n xs ≡ xs
  take-drop zero xs = refl
  take-drop (suc n) [] = refl
  take-drop (suc n) (x ∷ xs) = ap (λ l. x ∷ l) (take-drop n xs)

  pub rotate-Perm : (n : ℕ) (xs : List A) → Perm (rotate n xs) xs
  rotate-Perm n xs =
      subst (λ l. Perm (rotate n xs) l) (take-drop n xs)
        ∣ Permᴰ.append_comm (drop n xs) (take n xs) ∣₁

  take_at-Perm :
      (i : ℕ) (c : A) (cs : List A) → Perm ((take_at i c cs).0 ∷ (take_at i c cs).1) (c ∷ cs)
  take_at-Perm zero c cs = Perm.rfl
  take_at-Perm (suc i) c [] = Perm.rfl
  take_at-Perm (suc i) c (d ∷ ds) =
      Perm.trans (Perm.swap c (take_at i d ds).0 (take_at i d ds).1)
        (Perm.cons c (take_at-Perm i d ds))

  length-take_at : (i : ℕ) (c : A) (cs : List A) → length (take_at i c cs).1 ≡ length cs
  length-take_at zero c cs = refl
  length-take_at (suc i) c [] = refl
  length-take_at (suc i) c (d ∷ ds) = omega (arith, length-take_at i d ds)

  append_assoc : (xs ys zs : List A) → (xs ++ ys) ++ zs ≡ xs ++ (ys ++ zs)
  append_assoc [] ys zs = refl
  append_assoc (x ∷ xs) ys zs = ap (λ l. x ∷ l) (append_assoc xs ys zs)

  append-nil : (xs : List A) → xs ++ [] ≡ xs
  append-nil [] = refl
  append-nil (x ∷ xs) = ap (λ l. x ∷ l) (append-nil xs)

  middle : (x : A) (xs ys : List A) → Perm (xs ++ (x ∷ ys)) (x ∷ (xs ++ ys))
  middle x xs ys = ∣ Permᴰ.middle x xs ys ∣₁

  swap_parts : (xs ys zs : List A) → Perm (xs ++ (ys ++ zs)) (ys ++ (xs ++ zs))
  swap_parts xs ys zs =
      subst (λ l. Perm l (ys ++ (xs ++ zs))) (append_assoc xs ys zs)
        (subst (λ l. Perm ((xs ++ ys) ++ zs) l) (append_assoc ys xs zs)
          (Perm.append_right zs ∣ Permᴰ.append_comm xs ys ∣₁))

  if-flat :
      (b : Bool) (x y : Bands A) (target : List A)
      → Perm (flat x) target
      → Perm (flat y) target
      → Perm (flat (if b then x else y)) target
  if-flat true x y target hx hy = hx
  if-flat false x y target hx hy = hy

  insert_band-flat :
      (b : ℕ × List A) (bands : Bands A)
      → Perm (flat (insert_by higher_band b bands)) (b.1 ++ flat bands)
  unfolding insert_by flat
  insert_band-flat b [] = Perm.rfl
  insert_band-flat b (d ∷ bands) =
      if-flat (higher_band d b) (d ∷ insert_by higher_band b bands) (b ∷ d ∷ bands) _
        (Perm.trans (Perm.append_left d.1 (insert_band-flat b bands))
          (swap_parts d.1 b.1 (flat bands)))
        Perm.rfl

  sort_bands-flat : (bands : Bands A) → Perm (flat (sort_by higher_band bands)) (flat bands)
  unfolding sort_by flat
  sort_bands-flat [] = Perm.rfl
  sort_bands-flat (b ∷ bands) =
      Perm.trans (insert_band-flat b (sort_by higher_band bands))
        (Perm.append_left b.1 (sort_bands-flat bands))

module _ {A : Type 0} (priority : A → ℕ) where
  add_to_band-flat :
      (c : A) (bands : Bands A) → Perm (flat (add_to_band priority c bands)) (c ∷ flat bands)
  unfolding add_to_band flat
  add_to_band-flat c [] = Perm.rfl
  add_to_band-flat c ((p, band) ∷ bands) =
      if-flat (p == priority c) ((p, band ++ c ∷ []) ∷ bands)
        ((p, band) ∷ add_to_band priority c bands) _
        (subst (λ l. Perm l (c ∷ (band ++ flat bands)))
          (sym (append_assoc band (c ∷ []) (flat bands))) (middle c band (flat bands)))
        (Perm.trans (Perm.append_left band (add_to_band-flat c bands)) (middle c band (flat bands)))

  bands_of-flat :
      (cs : List A) (bands : Bands A) → Perm (flat (bands_of priority cs bands)) (cs ++ flat bands)
  bands_of-flat [] bands = Perm.rfl
  bands_of-flat (c ∷ cs) bands =
      Perm.trans (bands_of-flat cs (add_to_band priority c bands))
        (Perm.trans (Perm.append_left cs (add_to_band-flat c bands)) (middle c cs (flat bands)))

  -- The bands of a list hold its items.
  pub sorted_bands-flat : (cs : List A) → Perm (flat (sorted_bands priority cs)) cs
  unfolding flat
  sorted_bands-flat cs =
      Perm.trans (sort_bands-flat (bands_of priority cs []))
        (subst (λ l. Perm (flat (bands_of priority cs [])) l) (append-nil cs) (bands_of-flat cs []))

module _ {A : Type 0} (weight : A → ℕ) (choices : Choices) where
  draw_all-Perm :
      (fuel : ℕ) (bucket : List A)
      → length bucket ≤ fuel
      → Perm (draw_all weight choices fuel bucket) bucket
  unfolding draw_all
  draw_all-Perm zero [] h = Perm.rfl
  draw_all-Perm zero (c ∷ cs) h = absurd (omega arith)
  draw_all-Perm (suc fuel) [] h = Perm.rfl
  draw_all-Perm (suc fuel) (c ∷ cs) h =
      let index = choices fuel (map weight (c ∷ cs)) in
      let found = take_at index c cs in
      Perm.trans
        (Perm.cons found.0 (draw_all-Perm fuel found.1 (omega (arith, length-take_at index c cs))))
        (take_at-Perm index c cs)

  pub draw_bands-flat : (bands : Bands A) → Perm (draw_bands weight choices bands) (flat bands)
  unfolding draw_bands flat
  draw_bands-flat [] = Perm.rfl
  draw_bands-flat ((p, band) ∷ bands) =
      Perm.append (draw_all-Perm (length band) band (omega arith)) (draw_bands-flat bands)
