-- ===== src/Retry/Classifier.antt =====
-- app/retry/classifier.py: `ErrorClassifier`, which turns exceptions and statuses into `ErrorInfo`.
-- The header is parsed outside: `retry_after` is an argument, in ticks. A body is as deep as
-- the code looks into it.
use zk_ai.Prelude.{
  ℕ, String, Bool, true, ◌&&◌, ◌||◌, Option, none, some, str_eq, ltb, leb, ◌==◌, if◌then◌else◌,
  one_of, List, ◌∷◌,
}
use zk_ai.Prelude.Dict.{Dict, lookup}
use zk_ai.Prelude.Text.{slice_to, is_empty, or_text, ◌⧺◌, decimal}
use zk_ai.Errors.{ErrorKind, ZkaiError, isinstance, Exn, Result, ok, raise}
use zk_ai.Retry.Throttle.{looks_like_quota_exhaustion, classify_throttle}
use zk_ai.Retry.Info.{ErrorClass, ErrorInfo, new_info}

pub record ErrorClassifier : Type 0 where
  pub default_cooldown : ℕ
  pub rate_limit_cooldown : ℕ
  pub deployment_cooldown : ℕ
  -- which characters beyond ASCII are letters or digits, for `\w` (the Unicode database)
  pub wide : ℕ → Bool

-- A value in the body of a response, two levels deep.
pub data Leaf : Type 0 where
  text : String → Leaf
  other : Leaf

pub data Field : Type 0 where
  text : String → Field
  dict : Dict Leaf → Field
  other : Field

pub data Body : Type 0 where
  text : String → Body
  dict : Dict Field → Body
  other : Body

-- The first of the keys whose value is a text.
first_leaf : List String → Dict Leaf → Option String
first_leaf List.[] d = none
first_leaf (k ∷ ks) d = elim (lookup k d) [
  | some (Leaf.text s) ↦ some (slice_to 500 s)
  | _ ↦ first_leaf ks d
]

first_field : List String → Dict Field → Option String
first_field List.[] d = none
first_field (k ∷ ks) d = elim (lookup k d) [
  | some (Field.text s) ↦ some (slice_to 500 s)
  | _ ↦ first_field ks d
]

-- After a dict under `error` had no text, or with none: the keys of the body itself.
top_message : Dict Field → Option String
unfolding first_field
top_message body = first_field ("message" ∷ "detail" ∷ "error_description" ∷ "msg" ∷ List.[]) body

-- `return result if found, else go on`
or_else : Option String → Option String → Option String
or_else (some s) rest = some s
or_else none rest = rest

dict_message : Option Field → Dict Field → Option String
unfolding first_leaf top_message or_else
dict_message (some (Field.text error)) body = some (slice_to 500 error)
dict_message (some (Field.dict error)) body =
    or_else (first_leaf ("message" ∷ "detail" ∷ "msg" ∷ List.[]) error) (top_message body)
dict_message _ body = top_message body

unfoldable pub extract_message : Body → Option String
unfolding dict_message lookup slice_to
extract_message (Body.text s) = let cut = slice_to 500 s in if is_empty cut then none else some cut
extract_message (Body.dict body) = dict_message (lookup "error" body) body
extract_message Body.other = none

-- `x or d` on numbers: 0 and `None` give `d`.
abbrev pub or_number : Option ℕ → ℕ → ℕ
or_number none d = d
or_number (some x) d = if x == 0 then d else x

-- `a or b` on optional numbers
abbrev pub or_option : Option ℕ → Option ℕ → Option ℕ
or_option none b = b
or_option (some a) b = if a == 0 then b else some a

-- `status or d`
abbrev pub or_status : ℕ → ℕ → ℕ
or_status status d = if status == 0 then d else status

module _ (c : ErrorClassifier) where
  unfoldable pub timeout_info : String → Option ℕ → ErrorInfo
  timeout_info detail retry_after =
      record (new_info "timeout" ErrorClass.transient 408 (or_text detail "upstream timeout")) {
        retryable = true;
        switch_provider = true;
        cooldown_scope = "deployment";
        cooldown_seconds = c.deployment_cooldown;
        client_status = 504;
        retry_after = retry_after;
      }

  unfoldable pub connection_info : String → ErrorInfo
  connection_info detail =
      record (new_info "connection_error" ErrorClass.transient 502
        (or_text detail "connection error")) {
          retryable = true;
          switch_credential = true;
          switch_provider = true;
          cooldown_scope = "credential";
        }

  -- `_unknown`, of an exception with its type's name and its text.
  unfoldable pub unknown_info : String → String → ErrorInfo
  unknown_info type_name detail =
      record (new_info "unknown_error" ErrorClass.internal 500
        (slice_to 500 (type_name ⧺ ": " ⧺ detail))) { switch_provider = true }

  client_info : String → ℕ → String → ErrorInfo
  client_info error_type status detail =
      record (new_info error_type ErrorClass.client status detail) { client_status = status }

  credential_info : String → ℕ → String → ErrorInfo
  credential_info error_type status detail =
      record (new_info error_type ErrorClass.credential status detail) {
        switch_credential = true;
        cooldown_scope = "credential";
        client_status = status;
      }

  rate_limit_info : String → Option ℕ → ErrorInfo
  rate_limit_info detail retry_after =
      record (new_info "rate_limit_error" ErrorClass.throttle 429 detail) {
        switch_credential = true;
        cooldown_scope = "credential";
        cooldown_seconds = or_number retry_after c.rate_limit_cooldown;
        client_status = 429;
        retry_after = retry_after;
        quota_exhausted = looks_like_quota_exhaustion detail;
        throttle_kind = classify_throttle c.wide detail;
      }

  -- 500 and 502: retry, then a sibling key, then the next deployment.
  transient_info : ℕ → String → ErrorInfo
  transient_info status detail =
      record (new_info "upstream_error" ErrorClass.transient status detail) {
        retryable = true;
        switch_credential = true;
        switch_provider = true;
        client_status = status;
      }

  -- Degraded upstream: retry, then cool the deployment and fail over.
  degraded_info : String → ErrorClass → ℕ → String → ErrorInfo
  degraded_info error_type error_class status detail =
      record (new_info error_type error_class status detail) {
        retryable = true;
        switch_provider = true;
        cooldown_scope = "deployment";
        cooldown_seconds = c.deployment_cooldown;
        client_status = status;
      }

  unfoldable pub by_status : ℕ → String → Option ℕ → ErrorInfo
  unfolding client_info credential_info rate_limit_info transient_info degraded_info unknown_info
  by_status status detail retry_after =
      if status == 400
      then client_info "invalid_request_error" 400 detail
      else if status == 401
      then credential_info "authentication_error" 401 detail
      else if status == 403
      then credential_info "permission_denied" 403 detail
      else if status == 410
      then record (client_info "model_gone" 410 detail) { switch_provider = true }
      else if status == 404
      then record (client_info "model_not_found" 404 detail) { switch_provider = true }
      else if status == 408
      then record (new_info "timeout" ErrorClass.transient 408 detail) {
        retryable = true;
        client_status = 408;
      }
      else if status == 409
      then client_info "conflict_error" 409 detail
      else if status == 413
      then client_info "context_length_exceeded" 413 detail
      else if status == 422
      then client_info "invalid_request_error" 422 detail
      else if status == 429
      then rate_limit_info detail retry_after
      else if status == 500
      then transient_info 500 detail
      else if status == 502
      then transient_info 502 detail
      else if status == 503
      then degraded_info "upstream_error" ErrorClass.availability 503 detail
      else if status == 504
      then degraded_info "timeout" ErrorClass.transient 504 detail
      else if status == 529
      then degraded_info "overloaded" ErrorClass.availability 529 detail
      else if leb 400 status && ltb status 500
      then client_info "invalid_request_error" status detail
      else if leb 500 status
      then degraded_info "upstream_error" ErrorClass.availability status detail
      else unknown_info "RuntimeError" detail

  -- `message or extract_message(body) or f"upstream returned HTTP {status}"`
  status_detail : ℕ → Body → Option String → String
  unfolding extract_message decimal
  status_detail status body message = elim message [
    | some m ↦ if is_empty m then from_body else m
    | none ↦ from_body
  ]
    where
      from_body : String
      from_body = elim (extract_message body) [
        | some m ↦ or_text m ("upstream returned HTTP " ⧺ decimal status)
        | none ↦ "upstream returned HTTP " ⧺ decimal status
      ]

  unfoldable pub classify_status : ℕ → Body → Option ℕ → Option String → ErrorInfo
  unfolding status_detail
  classify_status status body retry_after message =
      by_status status (status_detail status body message) retry_after

  -- A class of errors that only the next deployment can help with.
  unfoldable pub failover_info : String → ErrorClass → ℕ → String → ErrorInfo
  failover_info error_type error_class status detail =
      record (new_info error_type error_class status detail) {
        switch_provider = true;
        client_status = status;
      }

  -- Nothing can serve the deployment now.
  unfoldable pub parked_info : ZkaiError → ErrorInfo
  unfolding failover_info
  parked_info exc =
      record (failover_info exc.error_type ErrorClass.availability (or_status exc.http_status 503)
        exc.message) {
          cooldown_scope = "deployment";
          cooldown_seconds = c.deployment_cooldown;
          retry_after = exc.retry_after;
        }

  -- The second half of `from_zkai`: the classes of request and upstream errors.
  unfoldable pub from_upstream_class : ZkaiError → ErrorInfo
  from_upstream_class exc =
      if is ErrorKind.unsupported_parameter_error
        || is ErrorKind.invalid_request_error
        || is ErrorKind.context_length_exceeded_error
        || is ErrorKind.content_filter_error
        || is ErrorKind.conflict_error
      then by_status (or_status exc.http_status 400) exc.message none
      else if is ErrorKind.overloaded_error
      then by_status 529 exc.message none
      else if is ErrorKind.no_available_credential_error
      then failover_info exc.error_type ErrorClass.availability 503 exc.message
      else if is ErrorKind.bad_gateway_error || is ErrorKind.service_unavailable_error
      then by_status (or_status exc.http_status 503) exc.message none
      else if is ErrorKind.upstream_server_error
      then by_status (or_status exc.http_status 500) exc.message none
      else if is ErrorKind.request_timeout_error || is ErrorKind.gateway_timeout_error
      then timeout_info exc.message none
      else failover_info exc.error_type ErrorClass.internal (or_status exc.http_status 502)
          exc.message
    where
      is : ErrorKind → Bool
      is k = isinstance exc.kind k

  unfoldable pub from_zkai : ZkaiError → Option ℕ → ErrorInfo
  from_zkai exc retry_after =
      if str_eq exc.error_type "timeout"
      then timeout_info exc.message retry_after
      else if str_eq exc.error_type "connection_error"
      then connection_info exc.message
      else if one_of exc.error_type
          ("no_available_credential" ∷ "no_available_deployment" ∷ List.[])
      then parked_info exc
      else if is ErrorKind.model_not_found_error
          || is ErrorKind.provider_not_found_error
          || is ErrorKind.config_error
      then failover_info exc.error_type ErrorClass.client (or_status exc.http_status 404)
          exc.message
      else if is ErrorKind.permission_denied_error || is ErrorKind.authentication_error
      then by_status (or_status exc.http_status 401) exc.message none
      else if is ErrorKind.rate_limit_error
      then by_status 429 exc.message (or_option retry_after exc.retry_after)
      else from_upstream_class exc
    where
      is : ErrorKind → Bool
      is k = isinstance exc.kind k

  -- `classify`: cancellation is raised again, all else becomes an `ErrorInfo`.
  unfoldable pub classify : Exn → Option ℕ → Result ErrorInfo
  classify (Exn.zkai exc) retry_after =
      if isinstance exc.kind ErrorKind.all_attempts_failed_error
      then ok
          (record (new_info exc.error_type ErrorClass.availability exc.http_status exc.message) {
            client_status = exc.http_status;
          })
      else if isinstance exc.kind ErrorKind.client_disconnected
      then ok (record (new_info "client_disconnected" ErrorClass.client 499 exc.message) {
        client_status = 499;
      })
      else ok (from_zkai exc retry_after)
  classify (Exn.httpx_timeout s) retry_after = ok (timeout_info (or_text s "upstream timeout") none)
  classify (Exn.httpx_transport s) retry_after = ok (connection_info (or_text s "transport error"))
  classify (Exn.asyncio_timeout s) retry_after =
      ok (timeout_info (or_text s "asyncio timeout") none)
  classify Exn.cancelled retry_after = raise Exn.cancelled
  classify (Exn.other type_name s) retry_after = ok (unknown_info type_name s)
