-- ===== src/Routing/Router/Front.antt =====
-- The front model of an alias.
use zk_ai.Prelude.{
  ℕ, ◌≡◌, refl, sym, ap, subst, ◌⊎◌, inl, inr, String, str_eq, Bool, true, false, ◌||◌, Option,
  none, some, List, [], ◌∷◌, ◌++◌, All, keep_if, one_of, arith, Bool-cases, eq_iff, if◌then◌else◌,
}
use mathlib.Core.List.{Perm}
use mathlib.Core.List.Perm
use mathlib.Core.List.Permᴰ
use zk_ai.Prelude.Dict.{Dict, lookup, keys}
use zk_ai.Routing.Aliases.{ModelAliasConfig}
use zk_ai.Routing.Deployments.{Deployments, deployment_cooling_down, unavailable_deployments}
use zk_ai.Routing.Strategy.{RoutingCandidate}
use zk_ai.Routing.Router.{
  FrontModelOutcome, is_front, taken_or, take_front, put_front, promote_wanted, front_model_of,
  promote_front_model,
}

-- The found candidate is the first that may lead, and moves before those that stood before it; all
-- others keep their order.
pub record Moves (wanted : String) (unavailable : List String) (ordered : List RoutingCandidate)
    (found : RoutingCandidate) (others : List RoutingCandidate) : Type 0 where
  pub before : List RoutingCandidate
  pub after : List RoutingCandidate
  pub was : ordered ≡ before ++ found ∷ after
  pub is_now : others ≡ before ++ after
  pub passed : All (λ c. is_front wanted unavailable c ≡ false) before
  pub leads : is_front wanted unavailable found ≡ true

module _ (wanted : String) (unavailable : List String) where
  abbrev pub TakesFront :
      List RoutingCandidate → Option (RoutingCandidate × List RoutingCandidate) → Type 0
  TakesFront ordered none = All (λ c. is_front wanted unavailable c ≡ false) ordered
  TakesFront ordered (some (found, others)) = Moves wanted unavailable ordered found others

  taken_or-TakesFront :
      (b : Bool) (c : RoutingCandidate) (cs : List RoutingCandidate)
      (later : Option (RoutingCandidate × List RoutingCandidate))
      → is_front wanted unavailable c ≡ b
      → TakesFront cs later
      → TakesFront (c ∷ cs) (taken_or b c cs later)
  taken_or-TakesFront true c cs later same h = record {
    before = [];
    after = cs;
    was = refl;
    is_now = refl;
    passed = tt;
    leads = same;
  }
  taken_or-TakesFront false c cs none same h = (same, h)
  taken_or-TakesFront false c cs (some (found, others)) same h = record {
    before = c ∷ h.before;
    after = h.after;
    was = ap (λ l. c ∷ l) h.was;
    is_now = ap (λ l. c ∷ l) h.is_now;
    passed = (same, h.passed);
    leads = h.leads;
  }

  take_front-TakesFront :
      (ordered : List RoutingCandidate) → TakesFront ordered (take_front wanted unavailable ordered)
  unfolding take_front
  take_front-TakesFront [] = tt
  take_front-TakesFront (c ∷ cs) =
      taken_or-TakesFront (is_front wanted unavailable c) c cs (take_front wanted unavailable cs)
        refl (take_front-TakesFront cs)

abbrev Leads :
    Option String → List String → List RoutingCandidate → List RoutingCandidate → String → Type 0
Leads wanted unavailable ordered [] model = ⊥
Leads wanted unavailable ordered (found ∷ others) model =
    (wanted ≡ some model) × Moves model unavailable ordered found others

abbrev NoneLeads : List String → List RoutingCandidate → Option String → Type 0
NoneLeads unavailable ordered none = Unit
NoneLeads unavailable ordered (some wanted) =
    All (λ c. is_front wanted unavailable c ≡ false) ordered

-- What the promotion did, by its outcome.
abbrev pub Promotes :
    Option String
    → List String
    → List RoutingCandidate
    → List RoutingCandidate
    → FrontModelOutcome
    → Type 0
Promotes wanted unavailable ordered result (FrontModelOutcome.applied model) =
    Leads wanted unavailable ordered result model
Promotes wanted unavailable ordered result (FrontModelOutcome.parked model) =
    (result ≡ ordered) × NoneLeads unavailable ordered wanted
Promotes wanted unavailable ordered result FrontModelOutcome.untouched =
    (result ≡ ordered) × NoneLeads unavailable ordered wanted

if-Promotes :
    (b : Bool) (wanted : String) (unavailable : List String) (ordered : List RoutingCandidate)
    → All (λ c. is_front wanted unavailable c ≡ false) ordered
    → Promotes
        (some wanted)
        unavailable
        ordered
        ordered
        (if b then FrontModelOutcome.parked wanted else FrontModelOutcome.untouched)
if-Promotes true wanted unavailable ordered h = (refl, h)
if-Promotes false wanted unavailable ordered h = (refl, h)

put_front-Promotes :
    (wanted : String) (unavailable : List String) (ordered : List RoutingCandidate)
    (split : Option (RoutingCandidate × List RoutingCandidate))
    → TakesFront wanted unavailable ordered split
    → let done = put_front wanted unavailable ordered split in
      Promotes (some wanted) unavailable ordered done.0 done.1
put_front-Promotes wanted unavailable ordered none h = if-Promotes _ wanted unavailable ordered h
put_front-Promotes wanted unavailable ordered (some (found, others)) h = (refl, h)

promote_wanted-Promotes :
    (ordered : List RoutingCandidate) (unavailable : List String) (wanted : Option String)
    → let done = promote_wanted ordered unavailable wanted in
      Promotes wanted unavailable ordered done.0 done.1
promote_wanted-Promotes ordered unavailable none = (refl, tt)
promote_wanted-Promotes ordered unavailable (some wanted) =
    put_front-Promotes wanted unavailable ordered (take_front wanted unavailable ordered)
      (take_front-TakesFront wanted unavailable ordered)

pub promote_front_model-Promotes :
    (ordered : List RoutingCandidate) (alias : Option ModelAliasConfig) (unavailable : List String)
    → let done = promote_front_model ordered alias unavailable in
      Promotes (front_model_of alias) unavailable ordered done.0 done.1
unfolding promote_front_model
promote_front_model-Promotes ordered alias unavailable =
    promote_wanted-Promotes ordered unavailable (front_model_of alias)

Promotes-Perm :
    (wanted : Option String) (unavailable : List String) (ordered result : List RoutingCandidate)
    (outcome : FrontModelOutcome)
    → Promotes wanted unavailable ordered result outcome
    → Perm result ordered
Promotes-Perm wanted unavailable ordered [] (FrontModelOutcome.applied model) h = elim h [ ]
Promotes-Perm wanted unavailable ordered (found ∷ others) (FrontModelOutcome.applied model) h =
    subst (λ l. Perm (found ∷ others) l) (sym h.1.was)
      (subst (λ l. Perm (found ∷ l) (h.1.before ++ found ∷ h.1.after)) (sym h.1.is_now)
        (Perm.symm ∣ Permᴰ.middle found h.1.before h.1.after ∣₁))
Promotes-Perm wanted unavailable ordered result (FrontModelOutcome.parked model) h =
    subst (λ l. Perm l ordered) (sym h.0) Perm.rfl
Promotes-Perm wanted unavailable ordered result FrontModelOutcome.untouched h =
    subst (λ l. Perm l ordered) (sym h.0) Perm.rfl

pub promote_front_model-Perm :
    (ordered : List RoutingCandidate) (alias : Option ModelAliasConfig) (unavailable : List String)
    → Perm (promote_front_model ordered alias unavailable).0 ordered
promote_front_model-Perm ordered alias unavailable =
    Promotes-Perm (front_model_of alias) unavailable ordered _ _
      (promote_front_model-Promotes ordered alias unavailable)

if-one_of :
    (b : Bool) (i id : String) (rest : List String)
    → one_of id rest ≡ true
    → one_of id (if b then i ∷ rest else rest) ≡ true
if-one_of true i id rest h = ground (arith, h)
if-one_of false i id rest h = h

one_of-keep_if :
    (p : String → Bool) (id : String) (ids : List String)
    → p id ≡ true
    → one_of id ids ≡ true
    → one_of id (keep_if p ids) ≡ true
one_of-keep_if p id [] h there = absurd (ground (arith, there))
one_of-keep_if p id (i ∷ ids) h there = elim (Bool-cases (str_eq id i)) [
  | inl same ↦ rw (subst (λ x. p x ≡ true) ((eq_iff id i).0 same) h) (ground (arith, same))
  | inr other ↦ if-one_of (p i) i id (keep_if p ids) (one_of-keep_if p id ids h (rw other at there))
]

one_of-append :
    (s : String) (xs ys : List String) → one_of s (xs ++ ys) ≡ (one_of s xs || one_of s ys)
one_of-append s [] ys = refl
one_of-append s (x ∷ xs) ys = ground (arith, one_of-append s xs ys)

-- A missing key, or one of the keys.
lookup-one_of :
    {V : Type 0} (k : String) (d : Dict V) → (lookup k d ≡ none) ⊎ (one_of k (keys d) ≡ true)
unfolding lookup
lookup-one_of k [] = inl refl
lookup-one_of k ((j, w) ∷ d) = elim (Bool-cases (str_eq j k)) [
  | inl same ↦ inr (ground (arith, eq_iff j k, eq_iff k j, same))
  | inr other ↦ elim (lookup-one_of k d) [
    | inl gone ↦ inl (rw other gone)
    | inr there ↦ inr (ground (arith, there))
  ]
]

cooling-one_of :
    (s : Deployments) (id : String) (moment : ℕ)
    → deployment_cooling_down s id moment ≡ true
    → one_of id (keys s.cooldowns ++ keys s.health) ≡ true
unfolding deployment_cooling_down
cooling-one_of s id moment h = elim (lookup-one_of id s.cooldowns) [
  | inr there ↦ ground (arith, one_of-append id (keys s.cooldowns) (keys s.health), there)
  | inl gone ↦ elim (lookup-one_of id s.health) [
    | inr there ↦ ground (arith, one_of-append id (keys s.cooldowns) (keys s.health), there)
    | inl gone2 ↦ absurd (ground (arith, h, gone, gone2))
  ]
]

cooling-unavailable :
    (s : Deployments) (id : String) (moment : ℕ)
    → deployment_cooling_down s id moment ≡ true
    → one_of id (unavailable_deployments s moment) ≡ true
unfolding unavailable_deployments
cooling-unavailable s id moment h =
    one_of-keep_if (λ i. deployment_cooling_down s i moment) id _ h (cooling-one_of s id moment h)

-- A front model that is applied is one that the scheduler will call: when the router is told what
-- the scheduler would pass over at this moment, the candidate that leads passes the gates and is not
-- cooling down.
pub promote_front_model-callable :
    (s : Deployments) (moment : ℕ) (alias : Option ModelAliasConfig)
    (ordered others : List RoutingCandidate) (found : RoutingCandidate) (wanted : String)
    → promote_front_model ordered alias (unavailable_deployments s moment)
      ≡ (found ∷ others, FrontModelOutcome.applied wanted)
    → (deployment_cooling_down s found.deployment.id moment ≡ false)
      × (found.eligible ≡ true)
      × (found.model.id ≡ wanted)
promote_front_model-callable s moment alias ordered others found wanted h =
    let unavailable = unavailable_deployments s moment in
    let moved =
      subst (λ done. Promotes (front_model_of alias) unavailable ordered done.0 done.1) h
        (promote_front_model-Promotes ordered alias unavailable) in
    let leads : is_front wanted unavailable found ≡ true = moved.1.leads in
    (
      elim (Bool-cases (deployment_cooling_down s found.deployment.id moment)) [
        | inl cooling ↦
            absurd (ground (arith, leads, cooling-unavailable s found.deployment.id moment cooling))
        | inr called ↦ called
      ],
      ground (arith, leads),
      ground (arith, leads, eq_iff found.model.id wanted),
    )
