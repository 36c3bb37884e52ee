-- ===== src/Retry/Info.antt =====
-- app/retry/classifier.py: `ErrorClass` and `ErrorInfo`. The payload `raw` is left out: nothing
-- that is modelled reads it. Durations are in ticks of 0.1 ms.
use zk_ai.Prelude.{ℕ, String, Bool, true, false, Option, none, some, str_eq, ◌==◌, if◌then◌else◌}
use zk_ai.Errors.{ErrorKind, ZkaiError, new_error}
use zk_ai.Retry.Throttle.{ThrottleKind}

pub data ErrorClass : Type 0 where
  client credential throttle transient availability internal : ErrorClass

pub record ErrorInfo : Type 0 where
  pub error_type : String
  pub error_class : ErrorClass
  pub http_status : ℕ
  pub message : String
  pub retryable : Bool
  pub switch_credential : Bool
  pub switch_provider : Bool
  pub cooldown_scope : String
  pub cooldown_seconds : ℕ
  pub client_status : ℕ
  pub retry_after : Option ℕ
  pub quota_exhausted : Bool
  pub throttle_kind : ThrottleKind

-- The defaults of the dataclass.
abbrev pub new_info : String → ErrorClass → ℕ → String → ErrorInfo
new_info error_type error_class http_status message = record {
  error_type = error_type;
  error_class = error_class;
  http_status = http_status;
  message = message;
  retryable = false;
  switch_credential = false;
  switch_provider = false;
  cooldown_scope = "none";
  cooldown_seconds = 0;
  client_status = 502;
  retry_after = none;
  quota_exhausted = false;
  throttle_kind = ThrottleKind.unknown;
}

-- `c is ErrorClass.CLIENT`, and so on.
abbrev pub is_client : ErrorClass → Bool
is_client ErrorClass.client = true
is_client _ = false

abbrev pub is_internal : ErrorClass → Bool
is_internal ErrorClass.internal = true
is_internal _ = false

abbrev pub is_throttle : ErrorClass → Bool
is_throttle ErrorClass.throttle = true
is_throttle _ = false

unfoldable pub is_request_error : ErrorInfo → Bool
is_request_error info = is_client info.error_class

-- `mapping.get(self.error_type, UpstreamUnknownError)` of `to_error`.
unfoldable pub error_kind_of : String → ErrorKind
error_kind_of t =
    if str_eq t "invalid_request_error"
    then ErrorKind.invalid_request_error
    else if str_eq t "unsupported_parameter"
    then ErrorKind.unsupported_parameter_error
    else if str_eq t "context_length_exceeded"
    then ErrorKind.context_length_exceeded_error
    else if str_eq t "content_filter"
    then ErrorKind.content_filter_error
    else if str_eq t "conflict_error"
    then ErrorKind.conflict_error
    else if str_eq t "authentication_error"
    then ErrorKind.authentication_error
    else if str_eq t "permission_denied"
    then ErrorKind.permission_denied_error
    else if str_eq t "rate_limit_error"
    then ErrorKind.rate_limit_error
    else if str_eq t "timeout"
    then ErrorKind.gateway_timeout_error
    else if str_eq t "connection_error"
    then ErrorKind.connection_failure_error
    else if str_eq t "upstream_error"
    then ErrorKind.upstream_server_error
    else if str_eq t "overloaded"
    then ErrorKind.overloaded_error
    else if str_eq t "model_not_found"
    then ErrorKind.model_not_found_error
    else ErrorKind.upstream_unknown_error

-- The error raised to the client carries `client_status` in place of the upstream's.
unfoldable pub to_error : ErrorInfo → Option String → Option String → ZkaiError
unfolding error_kind_of new_error
to_error info provider model =
    let error =
      new_error (error_kind_of info.error_type) info.message provider model
        (if info.http_status == 0 then none else some info.http_status) info.retry_after in
    record error { http_status = info.client_status }
