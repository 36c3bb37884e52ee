-- ===== src/Routing/Strategy/Orders.antt =====
-- What the strategies do to the candidates: they reorder them, those that pass the gates first.
use zk_ai.Prelude.{
  ℕ, ◌<◌, ◌==◌, ◌⊎◌, inl, inr, Bool-cases, ◌≡◌, Bool, true, false, not, List, [], ◌∷◌, ◌++◌,
  keep_if, All, arith,
}
use mathlib.Core.List.{Perm}
use mathlib.Core.List.Perm
use zk_ai.Prelude.Sort.{
  sort_by, sort_by-Perm, sort_by-IsSorted, IsSorted, ascending-IsRank, descending-IsRank,
  text_before-IsRank, All-Perm, keep_if-All, keep_if-Perm, IsRank, descending, then_by, text_before,
}
use zk_ai.Prelude.Text.{codes}
use zk_ai.Routing.Aliases.{AliasStrategy}
use zk_ai.Prelude.Bands.{Choices, rotate-Perm, sorted_bands, sorted_bands-flat, draw_bands-flat}
use zk_ai.Routing.Strategy.{
  drawn_weight, RoutingCandidate, label, priority_of, by_label, by_target, by_score, by_cost,
  by_speed, by_priority, eligible_of, blocked_of, is_head, capability_order, Cursor,
  round_robin_order, weighted_order, rank_eligible, rank_blocked, order,
}

capability_order-Perm :
    (pin_first : Bool) (xs : List RoutingCandidate) → Perm (capability_order pin_first xs) xs
unfolding capability_order
capability_order-Perm false xs = sort_by-Perm by_score xs
capability_order-Perm true xs =
    Perm.trans
      (Perm.append (sort_by-Perm by_score (keep_if is_head xs))
        (sort_by-Perm by_score (keep_if (λ c. not (is_head c)) xs)))
      (keep_if-Perm is_head xs)

round_robin_order-Perm :
    (xs : List RoutingCandidate) (cursor : Cursor) → Perm (round_robin_order xs cursor).0 xs
unfolding round_robin_order
round_robin_order-Perm [] cursor = Perm.rfl
round_robin_order-Perm (x ∷ xs) cursor = rotate-Perm _ (x ∷ xs)

weighted_order-Perm :
    (choices : Choices) (xs : List RoutingCandidate) → Perm (weighted_order choices xs) xs
unfolding weighted_order
weighted_order-Perm choices xs =
    Perm.trans (draw_bands-flat drawn_weight choices (sorted_bands priority_of xs))
      (sorted_bands-flat priority_of xs)

rank_eligible-Perm :
    (strategy : AliasStrategy) (choices : Choices) (pin_first : Bool) (xs : List RoutingCandidate)
    (cursor : Cursor)
    → Perm (rank_eligible strategy choices pin_first xs cursor).0 xs
unfolding rank_eligible
rank_eligible-Perm AliasStrategy.priority choices pin_first xs cursor = sort_by-Perm by_target xs
rank_eligible-Perm AliasStrategy.capability choices pin_first xs cursor =
    capability_order-Perm pin_first xs
rank_eligible-Perm AliasStrategy.cost choices pin_first xs cursor = sort_by-Perm by_cost xs
rank_eligible-Perm AliasStrategy.speed choices pin_first xs cursor = sort_by-Perm by_speed xs
rank_eligible-Perm AliasStrategy.round_robin choices pin_first xs cursor =
    Perm.trans (round_robin_order-Perm (sort_by by_priority xs) cursor)
      (sort_by-Perm by_priority xs)
rank_eligible-Perm AliasStrategy.weighted choices pin_first xs cursor =
    weighted_order-Perm choices xs

rank_blocked-Perm :
    (strategy : AliasStrategy) (xs : List RoutingCandidate) → Perm (rank_blocked strategy xs) xs
rank_blocked-Perm AliasStrategy.priority xs = sort_by-Perm by_target xs
rank_blocked-Perm AliasStrategy.capability xs = sort_by-Perm by_label xs
rank_blocked-Perm AliasStrategy.cost xs = sort_by-Perm by_label xs
rank_blocked-Perm AliasStrategy.speed xs = sort_by-Perm by_label xs
rank_blocked-Perm AliasStrategy.round_robin xs = sort_by-Perm by_label xs
rank_blocked-Perm AliasStrategy.weighted xs = sort_by-Perm by_label xs

-- No candidate that passes the gates stands after one that does not.
abbrev pub EligibleFirst : List RoutingCandidate → Type 0
EligibleFirst [] = Unit
EligibleFirst (c ∷ cs) = (c.eligible ≡ false → All (λ d. d.eligible ≡ false) cs) × EligibleFirst cs

blocked-EligibleFirst :
    (cs : List RoutingCandidate) → All (λ d. d.eligible ≡ false) cs → EligibleFirst cs
blocked-EligibleFirst [] h = tt
blocked-EligibleFirst (c ∷ cs) h = (λ _. h.1, blocked-EligibleFirst cs h.1)

append-EligibleFirst :
    (xs ys : List RoutingCandidate)
    → All (λ d. d.eligible ≡ true) xs
    → All (λ d. d.eligible ≡ false) ys
    → EligibleFirst (xs ++ ys)
append-EligibleFirst [] ys hx hy = blocked-EligibleFirst ys hy
append-EligibleFirst (x ∷ xs) ys hx hy =
    (λ e. absurd (ground (arith, hx.0, e)), append-EligibleFirst xs ys hx.1 hy)

All-not :
    (cs : List RoutingCandidate)
    → All (λ d. not d.eligible ≡ true) cs
    → All (λ d. d.eligible ≡ false) cs
All-not [] h = tt
All-not (c ∷ cs) h = (ground (arith, h.0), All-not cs h.1)

-- Whatever the strategy and the draws, a plan holds the candidates that it is made of, none added
-- and none lost, and those that pass the gates stand before those that do not.
pub order-Perm :
    (strategy : AliasStrategy) (choices : Choices) (pin_first : Bool)
    (candidates : List RoutingCandidate) (cursor : Cursor)
    → Perm (order strategy choices pin_first candidates cursor).0 candidates
      × EligibleFirst (order strategy choices pin_first candidates cursor).0
unfolding order
order-Perm strategy choices pin_first candidates cursor =
    let eligible = eligible_of candidates in
    let blocked = blocked_of candidates in
    let front = rank_eligible-Perm strategy choices pin_first eligible cursor in
    let back = rank_blocked-Perm strategy blocked in
    (
      Perm.trans (Perm.append front back) (keep_if-Perm (λ c. c.eligible) candidates),
      append-EligibleFirst (rank_eligible strategy choices pin_first eligible cursor).0
          (rank_blocked strategy blocked)
          (All-Perm (λ c. c.eligible) true _ eligible front
            (keep_if-All (λ c. c.eligible) candidates))
          (All-Perm (λ c. c.eligible) false _ blocked back
            (All-not blocked (keep_if-All (λ c. not c.eligible) candidates))),
    )

by_label-IsRank : IsRank by_label
by_label-IsRank = text_before-IsRank (λ c. codes (label c))

-- The greater number leads; where they are equal, the rest decides.
abbrev pub Greater : ℕ → ℕ → Type 0 → Type 0
Greater x y rest = (y < x) ⊎ ((x ≡ y) × rest)

-- Does the candidate `a` rightly stand before `b`?
abbrev pub Leads : Type 1
Leads = RoutingCandidate → RoutingCandidate → Type 0

-- The label of `b` is not before that of `a` in the order of the texts.
abbrev pub EarlierLabel : Leads
EarlierLabel a b = text_before (codes (label b)) (codes (label a)) ≡ false

-- The target that the alias lists first, then the higher priority of the deployment.
abbrev pub EarlierTarget : Leads
EarlierTarget a b =
    Greater b.target_index a.target_index
      (Greater a.deployment.priority b.deployment.priority (EarlierLabel a b))

-- The higher score, then the higher priority of the deployment.
abbrev pub HigherScore : Leads
HigherScore a b =
    Greater a.score b.score (Greater a.deployment.priority b.deployment.priority (EarlierLabel a b))

-- More points for the price, so the cheaper one, then the higher score.
abbrev pub Cheaper : Leads
Cheaper a b = Greater a.cost b.cost (Greater a.score b.score (EarlierLabel a b))

-- More points for the speed, then the higher score.
abbrev pub Faster : Leads
Faster a b = Greater a.speed b.speed (Greater a.score b.score (EarlierLabel a b))

-- Every candidate rightly stands before each that follows it.
abbrev pub IsOrdered : Leads → List RoutingCandidate → Type 0
IsOrdered leads [] = Unit
IsOrdered leads (c ∷ cs) = All (λ d. leads c d) cs × IsOrdered leads cs

then_by-Greater :
    (m n : ℕ) (rest : Bool) (R : Type 0)
    → (rest ≡ false → R)
    → then_by m n rest ≡ false
    → Greater m n R
then_by-Greater m n rest R on_tie h = elim (Bool-cases (m == n)) [
  | inl same ↦ inr (ground (arith, same), on_tie (ground (arith, same, h)))
  | inr other ↦ inl (ground (arith, other, h))
]

-- A list that is sorted by a Boolean order is ordered by what the order means.
module _ (before : RoutingCandidate → RoutingCandidate → Bool) (leads : Leads)
    (means : (a b : RoutingCandidate) → before b a ≡ false → leads a b) where
  All-means :
      (c : RoutingCandidate) (cs : List RoutingCandidate)
      → All (λ d. before d c ≡ false) cs
      → All (λ d. leads c d) cs
  All-means c [] h = tt
  All-means c (d ∷ cs) h = (means c d h.0, All-means c cs h.1)

  IsSorted-IsOrdered : (cs : List RoutingCandidate) → IsSorted before cs → IsOrdered leads cs
  IsSorted-IsOrdered [] h = tt
  IsSorted-IsOrdered (c ∷ cs) h = (All-means c cs h.0, IsSorted-IsOrdered cs h.1)

  sort_by-IsOrdered :
      (cs : List RoutingCandidate) → IsRank before → IsOrdered leads (sort_by before cs)
  sort_by-IsOrdered cs rank =
      IsSorted-IsOrdered (sort_by before cs) (sort_by-IsSorted before rank cs)

-- The greater first by two numbers and then by the label.
module _ (key second : RoutingCandidate → ℕ) where
  twice : RoutingCandidate → RoutingCandidate → Bool
  twice = descending key (descending second by_label)

  twice-IsOrdered :
      (cs : List RoutingCandidate)
      → IsOrdered
          (λ a b. Greater (key a) (key b) (Greater (second a) (second b) (EarlierLabel a b)))
          (sort_by twice cs)
  unfolding twice
  twice-IsOrdered cs =
      sort_by-IsOrdered (descending key (descending second by_label)) _
        (λ a b h.
          then_by-Greater (key a) (key b) _ _
            (then_by-Greater (second a) (second b) _ _ (λ tie. tie)) h)
        cs
        (descending-IsRank key (descending second by_label)
          (descending-IsRank second by_label by_label-IsRank))

-- Without a pinned target, every candidate that passes the gates stands before those that it should
-- lead: under `priority` the earlier target of the alias leads, and of one target the deployment of
-- the higher priority; under `capability` the higher score, then the higher priority; under `cost`
-- the one with more points for its price, under `speed` for its speed, then the higher score.
-- Where all that is equal, the label decides.
pub rank_eligible-IsOrdered :
    (choices : Choices) (candidates : List RoutingCandidate) (cursor : Cursor)
    → let ranked =
        λ (strategy : AliasStrategy). (rank_eligible strategy choices false candidates cursor).0 in
      IsOrdered EarlierTarget (ranked AliasStrategy.priority)
      × IsOrdered HigherScore (ranked AliasStrategy.capability)
      × IsOrdered Cheaper (ranked AliasStrategy.cost)
      × IsOrdered Faster (ranked AliasStrategy.speed)
unfolding rank_eligible capability_order twice
rank_eligible-IsOrdered choices cs cursor = (
  sort_by-IsOrdered by_target EarlierTarget
      (λ a b h.
        then_by-Greater b.target_index a.target_index _ _
          (then_by-Greater (priority_of a) (priority_of b) _ _ (λ tie. tie)) h)
      cs
      (ascending-IsRank (λ c. c.target_index) (descending priority_of by_label)
        (descending-IsRank priority_of by_label by_label-IsRank)),
  twice-IsOrdered (λ c. c.score) priority_of cs,
  twice-IsOrdered (λ c. c.cost) (λ c. c.score) cs,
  twice-IsOrdered (λ c. c.speed) (λ c. c.score) cs,
)
