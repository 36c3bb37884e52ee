-- ===== src/Retry/Matrix.antt =====
-- What the statuses are classified as: the decision matrix of the module's documentation, and the
-- rules for whole ranges of statuses.
use zk_ai.Prelude.{
  ℕ, ◌≤◌, ◌<◌, ◌≢◌, ◌≡◌, refl, String, Bool, true, false, ◌||◌, Option, ◌==◌, List, [], ◌∷◌, All,
  arith, ◌⊎◌,
}
use zk_ai.Retry.Info.{ErrorClass, ErrorInfo}
use zk_ai.Retry.Classifier.{ErrorClassifier, by_status}

-- A row of the matrix: retryable, switch_cred, switch_provider and where the cooldown is applied.
pub record Row : Type 0 where
  pub status : ℕ
  pub retryable : Bool
  pub switch_credential : Bool
  pub switch_provider : Bool
  pub cooldown : String

abbrev row : ℕ → Bool → Bool → Bool → String → Row
row status retryable switch_credential switch_provider cooldown = record {
  status = status;
  retryable = retryable;
  switch_credential = switch_credential;
  switch_provider = switch_provider;
  cooldown = cooldown;
}

-- The rows of the documentation that have a status.
unfoldable pub decision_matrix : List Row
decision_matrix =
    row 400 false false false "none"
    ∷ row 401 false true false "credential"
    ∷ row 403 false true false "credential"
    ∷ row 404 false false true "none"
    ∷ row 408 true false false "none"
    ∷ row 409 false false false "none"
    ∷ row 413 false false false "none"
    ∷ row 422 false false false "none"
    ∷ row 429 false true false "credential"
    ∷ row 500 true true true "none"
    ∷ row 502 true true true "none"
    ∷ row 503 true false true "deployment"
    ∷ row 504 true false true "deployment"
    ∷ row 529 true false true "deployment"
    ∷ []

abbrev pub row_of : ℕ → ErrorInfo → Row
row_of status info = record {
  status = status;
  retryable = info.retryable;
  switch_credential = info.switch_credential;
  switch_provider = info.switch_provider;
  cooldown = info.cooldown_scope;
}

module _ (c : ErrorClassifier) where
  -- For every message and Retry-After, each status of the documented decision matrix is classified
  -- with exactly the flags and the cooldown scope of its row.
  by_status-decision_matrix :
      (detail : String) (retry_after : Option ℕ)
      → All (λ r. row_of r.status (by_status c r.status detail retry_after) ≡ r) decision_matrix
  unfolding by_status decision_matrix
  by_status-decision_matrix detail retry_after = (
    refl,
    (
      refl,
      (
        refl,
        (refl, (refl, (refl, (refl, (refl, (refl, (refl, (refl, (refl, (refl, (refl, tt))))))))))),
      ),
    ),
  )

  -- A status from 400 to 499 other than 401, 403, 408 and 429 is the caller's error: it is never
  -- retried, never moves to another key and cools nothing down; it is mirrored to the client, and
  -- the next deployment is tried exactly for 404 and 410.
  by_status_caller :
      (status : ℕ) (detail : String) (retry_after : Option ℕ)
      → 400 ≤ status
      → status < 500
      → status ≢ 401
      → status ≢ 403
      → status ≢ 408
      → status ≢ 429
      → let info = by_status c status detail retry_after in
        (info.error_class ≡ ErrorClass.client)
        × (info.retryable ≡ false)
        × (info.switch_credential ≡ false)
        × (info.cooldown_scope ≡ "none")
        × (info.client_status ≡ status)
        × (info.switch_provider ≡ (status == 404 || status == 410))
  unfolding by_status
  by_status_caller status detail retry_after = ground arith

  -- A status of 500 or more may be retried and may fail over, is mirrored to the client, and cools
  -- the deployment down for the configured time except for 500 and 502, which move to a sibling
  -- key instead.
  by_status_upstream :
      (status : ℕ) (detail : String) (retry_after : Option ℕ)
      → 500 ≤ status
      → let info = by_status c status detail retry_after in
        (info.retryable ≡ true)
        × (info.switch_provider ≡ true)
        × (info.client_status ≡ status)
        × (info.switch_credential ≡ (status == 500 || status == 502))
        × ((info.switch_credential ≡ true) × (info.cooldown_scope ≡ "none")
            ⊎ (info.cooldown_scope ≡ "deployment")
              × (info.cooldown_seconds ≡ c.deployment_cooldown))
  unfolding by_status
  by_status_upstream status detail retry_after = ground arith
