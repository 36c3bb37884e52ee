-- ===== src/Routing/Strategy/Rotation.antt =====
-- The round robin over requests with the same candidates.
use zk_ai.Prelude.{
  ℕ, zero, suc, ◌+◌, ◌%◌, ◌<◌, ◌≡◌, refl, ap, ◌∙◌, Option, none, some, List, [], ◌∷◌, ◌++◌, length,
  take, drop, arith,
}
use native.Mathlib.Nat.{mod-lt, mod-add-mod, mod-mod}
use zk_ai.Prelude.Dict.{insert, lookup-insert_self}
use zk_ai.Routing.Strategy.{RoutingCandidate, Cursor, cursor_at, round_robin_order}

abbrev pub get_elem? : ℕ → List RoutingCandidate → Option RoutingCandidate
get_elem? n [] = none
get_elem? zero (x ∷ xs) = some x
get_elem? (suc n) (x ∷ xs) = get_elem? n xs

abbrev pub first_of : List RoutingCandidate → Option RoutingCandidate
first_of [] = none
first_of (x ∷ xs) = some x

-- The cursor after so many requests with these candidates.
abbrev pub after_requests : ℕ → List RoutingCandidate → Cursor → Cursor
after_requests zero ranked cursor = cursor
after_requests (suc n) ranked cursor = (round_robin_order ranked (after_requests n ranked cursor)).1

first_of-rotate :
    (k : ℕ) (xs tail : List RoutingCandidate)
    → k < length xs
    → first_of (drop k xs ++ tail) ≡ get_elem? k xs
first_of-rotate k [] tail h = absurd (omega arith)
first_of-rotate zero (x ∷ xs) tail h = refl
first_of-rotate (suc k) (x ∷ xs) tail h = first_of-rotate k xs tail (omega arith)

after_requests-cursor_at :
    (n : ℕ) (first : RoutingCandidate) (others : List RoutingCandidate) (cursor : Cursor)
    → let m = length (first ∷ others) in
      cursor_at first.model.id (after_requests n (first ∷ others) cursor) % m
      ≡ (cursor_at first.model.id cursor + n) % m
unfolding round_robin_order
after_requests-cursor_at zero first others cursor =
    ap (λ k. k % length (first ∷ others)) (omega arith)
after_requests-cursor_at (suc n) first others cursor =
    let m = length (first ∷ others) in
    let key = first.model.id in
    let before = after_requests n (first ∷ others) cursor in
    let offset = cursor_at key before % m in
    let stored : cursor_at key (insert key ((offset + 1) % m) before) ≡ (offset + 1) % m =
      ap (λ o. elim o [ none ↦ 0 | some k ↦ k ])
        (lookup-insert_self key ((offset + 1) % m) before) in
    ap (λ k. k % m) stored
    ∙ mod-mod (offset + 1) m
    ∙ ap (λ k. (k + 1) % m) (after_requests-cursor_at n first others cursor)
    ∙ mod-add-mod (cursor_at key cursor + n) m 1
    ∙ ap (λ k. k % m) (omega arith)

-- Round robin gives every candidate its turn, also those that rank behind the first: of the requests
-- with the same ranked candidates, the n-th leads with the candidate at the place of the cursor at
-- the start, moved on by n, around the whole list. It is not a rotation between equals.
pub round_robin_order-turns :
    (n : ℕ) (first : RoutingCandidate) (others : List RoutingCandidate) (cursor : Cursor)
    → let ranked = first ∷ others in
      first_of (round_robin_order ranked (after_requests n ranked cursor)).0
      ≡ get_elem? ((cursor_at first.model.id cursor + n) % length ranked) ranked
unfolding round_robin_order
round_robin_order-turns n first others cursor =
    let ranked = first ∷ others in
    let offset = cursor_at first.model.id (after_requests n ranked cursor) % length ranked in
    first_of-rotate offset ranked (take offset ranked) (mod-lt _ (omega arith))
    ∙ ap (λ k. get_elem? k ranked) (after_requests-cursor_at n first others cursor)
