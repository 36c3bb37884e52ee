-- ===== src/Routing/Deployments/Preference.antt =====
-- What a session's preference for a deployment does to a plan.
use zk_ai.Prelude.{
  ℕ, ◌≡◌, refl, String, Bool, true, false, ◌||◌, Option, none, some, List, [], ◌∷◌, if◌then◌else◌,
  arith,
}
use mathlib.Core.List.{Perm}
use mathlib.Core.List.Perm
use zk_ai.Prelude.Text.{is_empty}
use zk_ai.Routing.Deployments.{
  Deployments, Candidate, is_choice, found_or, take_out, put_before, after_front, promote, promoted,
  reorder, apply_deployment_affinity, preferred_deployment, deployment_cooling_down,
}

abbrev Splits : Option (Candidate × List Candidate) → List Candidate → Type 0
Splits none candidates = Unit
Splits (some (found, others)) candidates = Perm (found ∷ others) candidates

found_or-Splits :
    (b : Bool) (candidate : Candidate) (rest : List Candidate)
    (later : Option (Candidate × List Candidate))
    → Splits later rest
    → Splits (found_or b candidate rest later) (candidate ∷ rest)
found_or-Splits true candidate rest later h = Perm.rfl
found_or-Splits false candidate rest none h = tt
found_or-Splits false candidate rest (some (found, others)) h =
    Perm.trans (Perm.swap candidate found others) (Perm.cons candidate h)

take_out-Splits :
    (candidates : List Candidate) (preferred : String)
    → Splits (take_out preferred candidates) candidates
unfolding take_out
take_out-Splits [] preferred = tt
take_out-Splits (candidate ∷ rest) preferred =
    found_or-Splits (is_choice preferred candidate) candidate rest (take_out preferred rest)
      (take_out-Splits rest preferred)

-- The same front, if there is one.
abbrev pub SameFront : List Candidate → List Candidate → Type 0
SameFront [] [] = Unit
SameFront (a ∷ others) (b ∷ others') = a ≡ b
SameFront _ _ = ⊥

abbrev Reorders : Bool → Option (List Candidate) → List Candidate → Type 0
Reorders keeps none candidates = Unit
Reorders keeps (some order) candidates =
    Perm order candidates × (keeps ≡ true → SameFront order candidates)

put_before-Reorders :
    (front : Candidate) (rest : List Candidate) (split : Option (Candidate × List Candidate))
    → Splits split rest
    → Reorders false (put_before front split) (front ∷ rest)
put_before-Reorders front rest none h = tt
put_before-Reorders front rest (some (found, others)) h =
    (Perm.trans (Perm.swap front found others) (Perm.cons front h), λ absurd. ground arith)

after_front-Reorders :
    (front : Candidate) (rest : List Candidate) (order : Option (List Candidate))
    → Reorders false order rest
    → Reorders true (after_front front order) (front ∷ rest)
after_front-Reorders front rest none h = tt
after_front-Reorders front rest (some order) h = (Perm.cons front h.0, λ keeps. refl)

promote-Reorders :
    (keeps : Bool) (preferred : String) (candidates : List Candidate)
    → Reorders keeps (promote keeps preferred candidates) candidates
unfolding promote
promote-Reorders true preferred [] = tt
promote-Reorders false preferred [] = tt
promote-Reorders false preferred (front ∷ rest) =
    put_before-Reorders front rest (take_out preferred rest) (take_out-Splits rest preferred)
promote-Reorders true preferred (front ∷ []) = tt
promote-Reorders true preferred (front ∷ next ∷ rest) =
    after_front-Reorders front (next ∷ rest) (put_before next (take_out preferred rest))
      (put_before-Reorders next rest (take_out preferred rest) (take_out-Splits rest preferred))

promoted-Reorders :
    (keeps : Bool) (candidates : List Candidate) (target : String) (order : Option (List Candidate))
    → Reorders keeps order candidates
    → Reorders keeps (some (promoted candidates target order).0) candidates
promoted-Reorders keeps candidates target none h = (Perm.rfl, λ _. SameFront-refl candidates)
  where
    SameFront-refl : (candidates : List Candidate) → SameFront candidates candidates
    SameFront-refl [] = tt
    SameFront-refl (front ∷ rest) = refl
promoted-Reorders keeps candidates target (some order) h = h

reorder-Reorders :
    (s : Deployments) (candidates : List Candidate) (keeps : Bool) (moment : ℕ)
    (preferred : Option String)
    → Reorders keeps (some (reorder s candidates keeps moment preferred).0) candidates
reorder-Reorders s candidates keeps moment none =
    promoted-Reorders keeps candidates String.[] none tt
reorder-Reorders s candidates keeps moment (some target) =
    elim (is_empty target || deployment_cooling_down s target moment)
      as (λ skip.
        Reorders keeps
          (some
            (if skip
              then (candidates, none)
              else promoted candidates target (promote keeps target candidates)).0)
          candidates) [
            | true ↦ promoted-Reorders keeps candidates target none tt
            | false ↦
                promoted-Reorders keeps candidates target (promote keeps target candidates)
                  (promote-Reorders keeps target candidates)
          ]

-- A session's preference only changes the order of a plan: no candidate is added or lost, and the
-- front keeps its place when the operator has pinned it.
pub apply_deployment_affinity-reorders :
    (s : Deployments) (candidates : List Candidate) (session_key : Option String)
    (preserve_front : Bool) (moment : ℕ)
    → let order = (apply_deployment_affinity s candidates session_key preserve_front moment).1.0 in
      Perm order candidates × (preserve_front ≡ true → SameFront order candidates)
unfolding apply_deployment_affinity
apply_deployment_affinity-reorders s candidates session_key preserve_front moment =
    let found = preferred_deployment s session_key moment in
    reorder-Reorders found.0 candidates preserve_front moment found.1
