-- ===== src/Retry/Actions.antt =====
-- Every classified exception gives the scheduler something to do.
use zk_ai.Prelude.{
  ℕ, ◌≡◌, refl, String, Bool, true, false, ◌||◌, Option, none, ◌⊎◌, inl, inr, arith, if◌then◌else◌,
}
use zk_ai.Errors.{ErrorKind, ZkaiError, isinstance, Exn, Result, ok, raise}
use zk_ai.Retry.Info.{ErrorClass, ErrorInfo, is_client}
use zk_ai.Retry.Classifier.{
  ErrorClassifier, by_status, timeout_info, connection_info, unknown_info, from_upstream_class,
  from_zkai, classify, failover_info, parked_info, or_status, or_option,
}

-- The caller's error, or one that may be retried, or passed to another key or deployment.
unfoldable pub is_actionable : ErrorInfo → Bool
is_actionable info =
    is_client info.error_class
    || (info.retryable || (info.switch_credential || info.switch_provider))

abbrev pub IsActionable : ErrorInfo → Type 0
IsActionable info = is_actionable info ≡ true

-- The aggregated failure, which only the scheduler itself raises.
abbrev pub is_aggregate : Exn → Bool
is_aggregate (Exn.zkai e) = isinstance e.kind ErrorKind.all_attempts_failed_error
is_aggregate _ = false

-- The result is an `ErrorInfo`, and unless it stands for an aggregated failure, an actionable one.
abbrev pub Becomes : Bool → Result ErrorInfo → Type 0
Becomes aggregate r = (info : ErrorInfo) × (r ≡ ok info) × ((aggregate ≡ true) ⊎ IsActionable info)

Becomes-if :
    (b : Bool) (r s : Result ErrorInfo) {aggregate : Bool}
    → (b ≡ true → Becomes aggregate r)
    → (b ≡ false → Becomes aggregate s)
    → Becomes aggregate (if b then r else s)
Becomes-if true r s hr hs = hr refl
Becomes-if false r s hr hs = hs refl

module _ (c : ErrorClassifier) where
  by_status-IsActionable :
      (status : ℕ) (detail : String) (retry_after : Option ℕ)
      → IsActionable (by_status c status detail retry_after)
  unfolding by_status is_actionable
  by_status-IsActionable status detail retry_after = ground arith

  timeout_info-IsActionable :
      (detail : String) (retry_after : Option ℕ) → IsActionable (timeout_info c detail retry_after)
  unfolding timeout_info is_actionable
  timeout_info-IsActionable detail retry_after = refl

  connection_info-IsActionable : (detail : String) → IsActionable (connection_info c detail)
  unfolding connection_info is_actionable
  connection_info-IsActionable detail = refl

  failover_info-IsActionable :
      (error_type : String) (error_class : ErrorClass) (status : ℕ) (detail : String)
      → IsActionable (failover_info c error_type error_class status detail)
  unfolding failover_info is_actionable
  failover_info-IsActionable error_type error_class status detail = ground arith

  parked_info-IsActionable : (e : ZkaiError) → IsActionable (parked_info c e)
  unfolding parked_info is_actionable
  parked_info-IsActionable e = refl

  from_upstream_class-IsActionable : (e : ZkaiError) → IsActionable (from_upstream_class c e)
  unfolding from_upstream_class
  from_upstream_class-IsActionable e = ground (
    arith,
    timeout_info-IsActionable e.message none,
    by_status-IsActionable (or_status e.http_status 400) e.message none,
    by_status-IsActionable (or_status e.http_status 503) e.message none,
    by_status-IsActionable (or_status e.http_status 500) e.message none,
    by_status-IsActionable 529 e.message none,
    failover_info-IsActionable e.error_type ErrorClass.availability 503 e.message,
    failover_info-IsActionable e.error_type ErrorClass.internal (or_status e.http_status 502)
        e.message,
  )

  from_zkai-IsActionable :
      (e : ZkaiError) (retry_after : Option ℕ) → IsActionable (from_zkai c e retry_after)
  unfolding from_zkai
  from_zkai-IsActionable e retry_after = ground (
    arith,
    timeout_info-IsActionable e.message retry_after,
    connection_info-IsActionable e.message,
    by_status-IsActionable (or_status e.http_status 401) e.message none,
    by_status-IsActionable 429 e.message (or_option retry_after e.retry_after),
    failover_info-IsActionable e.error_type ErrorClass.client (or_status e.http_status 404)
        e.message,
    parked_info-IsActionable e,
    from_upstream_class-IsActionable e,
  )

  -- Cancellation, and nothing else, is raised again: every other exception becomes an `ErrorInfo`,
  -- and unless it is the scheduler's own aggregated failure that is the caller's error or one that
  -- may be retried, or passed to another key or to another deployment.
  pub classify-IsActionable :
      (e : Exn) (retry_after : Option ℕ)
      → (e ≡ Exn.cancelled) × (classify c e retry_after ≡ raise Exn.cancelled)
        ⊎ Becomes (is_aggregate e) (classify c e retry_after)
  unfolding classify unknown_info is_actionable
  classify-IsActionable (Exn.zkai e) retry_after = inr (
      Becomes-if (isinstance e.kind ErrorKind.all_attempts_failed_error) _ _
        (λ own. (_, refl, inl own))
        (λ _.
          Becomes-if (isinstance e.kind ErrorKind.client_disconnected) _ _
            (λ _. (_, refl, inr (refl)))
            (λ _. (_, refl, inr (from_zkai-IsActionable e retry_after)))))
  classify-IsActionable (Exn.httpx_timeout s) retry_after =
      inr (_, refl, inr (timeout_info-IsActionable _ none))
  classify-IsActionable (Exn.httpx_transport s) retry_after =
      inr (_, refl, inr (connection_info-IsActionable _))
  classify-IsActionable (Exn.asyncio_timeout s) retry_after =
      inr (_, refl, inr (timeout_info-IsActionable _ none))
  classify-IsActionable Exn.cancelled retry_after = inl (refl, refl)
  classify-IsActionable (Exn.other name s) retry_after = inr (_, refl, inr (refl))
