-- ===== src/Routing/Capability/Gates.antt =====
-- When a deployment passes the gates of a request.
use zk_ai.Prelude.{
  ℕ, ◌≤◌, ◌≡◌, ◌↔◌, inl, inr, refl, Bool, true, false, ◌&&◌, List, [], ◌∷◌, ◌++◌, All, ltb, arith,
  Bool-cases, if◌then◌else◌,
}
use zk_ai.Prelude.Dict.{Dict}
use zk_ai.Routing.Capability.{
  DeploymentConfig, ModelConfig, CapabilityRequirement, FailedGate, effective_capabilities,
  get_or_zero, context_fits, request_gate_failures, minimum_failures, is_eligible, failed_gates,
  score_candidate,
}

-- Each gate asks for no more than the values give.
abbrev pub MeetsAll : Dict ℕ → Dict ℕ → Type 0
MeetsAll values gates = All (λ gate. gate.1 ≤ get_or_zero gate.0 values) gates

is_eligible-append :
    (xs ys : List FailedGate) → is_eligible (xs ++ ys) ≡ (is_eligible xs && is_eligible ys)
is_eligible-append [] ys = refl
is_eligible-append (x ∷ xs) ys = refl

four_parts :
    (a b c d : List FailedGate)
    → is_eligible (a ++ (b ++ (c ++ d)))
      ≡ (is_eligible a && (is_eligible b && (is_eligible c && is_eligible d)))
four_parts a b c d =
    rw (is_eligible-append a (b ++ (c ++ d)), is_eligible-append b (c ++ d), is_eligible-append c d)

unless-eligible : (b : Bool) (gate : FailedGate) → is_eligible (if b then [] else gate ∷ []) ≡ b
unless-eligible true gate = refl
unless-eligible false gate = refl

minimum_failures-MeetsAll :
    (scores minimums : Dict ℕ)
    → (is_eligible (minimum_failures scores minimums) ≡ true) ↔ MeetsAll scores minimums
unfolding minimum_failures
minimum_failures-MeetsAll scores [] = (λ _. tt, λ _. refl)
minimum_failures-MeetsAll scores ((name, least) ∷ minimums) =
    let rest = minimum_failures-MeetsAll scores minimums in
    elim (Bool-cases (ltb (get_or_zero name scores) least)) [
      | inl low ↦ (λ h. absurd (ground (arith, h, low)), λ h. absurd (ground (arith, h.0, low)))
      | inr met ↦ (λ h. (ground (arith, met), rest.0 (rw met at h)), λ h. rw met (rest.1 h.1))
    ]

request_gate_failures-MeetsAll :
    (r : CapabilityRequirement) (gates : Dict ℕ)
    → (is_eligible (request_gate_failures r gates) ≡ true) ↔ MeetsAll r.weights gates
unfolding request_gate_failures
request_gate_failures-MeetsAll r [] = (λ _. tt, λ _. refl)
request_gate_failures-MeetsAll r ((name, wanted) ∷ gates) =
    let rest = request_gate_failures-MeetsAll r gates in
    elim (Bool-cases (ltb (get_or_zero name r.weights) wanted)) [
      | inl low ↦ (λ h. absurd (ground (arith, h, low)), λ h. absurd (ground (arith, h.0, low)))
      | inr met ↦ (λ h. (ground (arith, met), rest.0 (rw met at h)), λ h. rw met (rest.1 h.1))
    ]

-- A deployment passes the gates of a request exactly if its scores, with the overrides, reach every
-- minimum, its context window fits, it is enabled, and the request weighs each dimension that the
-- deployment asks for as much as it asks.
pub score_candidate-gates :
    (model : ModelConfig) (deployment : DeploymentConfig) (r : CapabilityRequirement)
    → (is_eligible (score_candidate model deployment r).gates_failed ≡ true) ↔ (
        MeetsAll (effective_capabilities model deployment) r.minimums
        × (context_fits deployment model r ≡ true)
        × (deployment.enabled ≡ true)
        × MeetsAll r.weights deployment.request_requires)
unfolding score_candidate failed_gates
score_candidate-gates model deployment r =
    let scores = effective_capabilities model deployment in
    let first = minimum_failures-MeetsAll scores r.minimums in
    let last = request_gate_failures-MeetsAll r deployment.request_requires in
    let split =
      four_parts (minimum_failures scores r.minimums)
        (if context_fits deployment model r then [] else FailedGate.window ∷ [])
        (if deployment.enabled then [] else FailedGate.disabled ∷ [])
        (request_gate_failures r deployment.request_requires) in
    let fits = unless-eligible (context_fits deployment model r) FailedGate.window in
    let on = unless-eligible deployment.enabled FailedGate.disabled in
    (
      λ h. (
        first.0 (ground (arith, h, split)),
        ground (arith, h, split, fits),
        ground (arith, h, split, on),
        last.0 (ground (arith, h, split)),
      ),
      λ h. ground (arith, first.1 h.0, h.1, h.2, last.1 h.3, split, fits, on),
    )
