-- ===== src/Errors.antt =====
-- app/core/errors.py: the exception hierarchy, and the exceptions that the scheduler catches.
-- A class is a constructor of `ErrorKind`; its base class, `error_type` and `http_status` are
-- functions of it. Times are in ticks of 0.1 ms.
use zk_ai.Prelude.{ℕ, zero, suc, String, Bool, false, ◌||◌, Option, none, some, str_eq}

pub data ErrorKind : Type 0 where
  zkai_error config_error provider_not_found_error model_not_found_error : ErrorKind
  alias_not_found_error invalid_request_error unsupported_parameter_error : ErrorKind
  context_length_exceeded_error content_filter_error conflict_error : ErrorKind
  credential_error authentication_error permission_denied_error : ErrorKind
  no_available_credential_error rate_limit_error request_timeout_error : ErrorKind
  connection_failure_error upstream_server_error bad_gateway_error : ErrorKind
  service_unavailable_error gateway_timeout_error overloaded_error : ErrorKind
  upstream_unknown_error no_available_deployment_error : ErrorKind
  all_attempts_failed_error client_disconnected : ErrorKind

-- The class after `class` in the source.
unfoldable pub class_name : ErrorKind → String
class_name ErrorKind.zkai_error = "ZKAIError"
class_name ErrorKind.config_error = "ConfigError"
class_name ErrorKind.provider_not_found_error = "ProviderNotFoundError"
class_name ErrorKind.model_not_found_error = "ModelNotFoundError"
class_name ErrorKind.alias_not_found_error = "AliasNotFoundError"
class_name ErrorKind.invalid_request_error = "InvalidRequestError"
class_name ErrorKind.unsupported_parameter_error = "UnsupportedParameterError"
class_name ErrorKind.context_length_exceeded_error = "ContextLengthExceededError"
class_name ErrorKind.content_filter_error = "ContentFilterError"
class_name ErrorKind.conflict_error = "ConflictError"
class_name ErrorKind.credential_error = "CredentialError"
class_name ErrorKind.authentication_error = "AuthenticationError"
class_name ErrorKind.permission_denied_error = "PermissionDeniedError"
class_name ErrorKind.no_available_credential_error = "NoAvailableCredentialError"
class_name ErrorKind.rate_limit_error = "RateLimitError"
class_name ErrorKind.request_timeout_error = "RequestTimeoutError"
class_name ErrorKind.connection_failure_error = "ConnectionFailureError"
class_name ErrorKind.upstream_server_error = "UpstreamServerError"
class_name ErrorKind.bad_gateway_error = "BadGatewayError"
class_name ErrorKind.service_unavailable_error = "ServiceUnavailableError"
class_name ErrorKind.gateway_timeout_error = "GatewayTimeoutError"
class_name ErrorKind.overloaded_error = "OverloadedError"
class_name ErrorKind.upstream_unknown_error = "UpstreamUnknownError"
class_name ErrorKind.no_available_deployment_error = "NoAvailableDeploymentError"
class_name ErrorKind.all_attempts_failed_error = "AllAttemptsFailedError"
class_name ErrorKind.client_disconnected = "ClientDisconnected"

-- The class in parentheses; `none` for the root of the hierarchy.
unfoldable pub base_class : ErrorKind → Option ErrorKind
base_class ErrorKind.zkai_error = none
base_class ErrorKind.alias_not_found_error = some ErrorKind.model_not_found_error
base_class ErrorKind.unsupported_parameter_error = some ErrorKind.invalid_request_error
base_class ErrorKind.context_length_exceeded_error = some ErrorKind.invalid_request_error
base_class ErrorKind.content_filter_error = some ErrorKind.invalid_request_error
base_class ErrorKind.authentication_error = some ErrorKind.credential_error
base_class ErrorKind.permission_denied_error = some ErrorKind.credential_error
base_class ErrorKind.bad_gateway_error = some ErrorKind.upstream_server_error
base_class ErrorKind.service_unavailable_error = some ErrorKind.upstream_server_error
base_class ErrorKind.gateway_timeout_error = some ErrorKind.request_timeout_error
base_class ErrorKind.overloaded_error = some ErrorKind.upstream_server_error
base_class _ = some ErrorKind.zkai_error

-- `isinstance(e, c)`: `c` is the class of `e`, or is reached by going up; the hierarchy is three
-- classes deep.
climb : ℕ → ErrorKind → ErrorKind → Bool
climb zero k c = false
climb (suc depth) k c = elim (base_class k) [
  | none ↦ str_eq (class_name k) (class_name c)
  | some b ↦ str_eq (class_name k) (class_name c) || climb depth b c
]

unfoldable pub isinstance : ErrorKind → ErrorKind → Bool
unfolding climb class_name base_class
isinstance k c = climb 3 k c

-- The class attribute `error_type`, inherited where a class does not set it.
unfoldable pub default_error_type : ErrorKind → String
default_error_type ErrorKind.zkai_error = "zkai_error"
default_error_type ErrorKind.config_error = "config_error"
default_error_type ErrorKind.provider_not_found_error = "provider_not_found"
default_error_type ErrorKind.model_not_found_error = "model_not_found"
default_error_type ErrorKind.alias_not_found_error = "alias_not_found"
default_error_type ErrorKind.invalid_request_error = "invalid_request_error"
default_error_type ErrorKind.unsupported_parameter_error = "unsupported_parameter"
default_error_type ErrorKind.context_length_exceeded_error = "context_length_exceeded"
default_error_type ErrorKind.content_filter_error = "content_filter"
default_error_type ErrorKind.conflict_error = "conflict_error"
default_error_type ErrorKind.credential_error = "credential_error"
default_error_type ErrorKind.authentication_error = "authentication_error"
default_error_type ErrorKind.permission_denied_error = "permission_denied"
default_error_type ErrorKind.no_available_credential_error = "no_available_credential"
default_error_type ErrorKind.rate_limit_error = "rate_limit_error"
default_error_type ErrorKind.request_timeout_error = "timeout"
default_error_type ErrorKind.connection_failure_error = "connection_error"
default_error_type ErrorKind.upstream_server_error = "upstream_error"
default_error_type ErrorKind.bad_gateway_error = "upstream_error"
default_error_type ErrorKind.service_unavailable_error = "upstream_error"
default_error_type ErrorKind.gateway_timeout_error = "timeout"
default_error_type ErrorKind.overloaded_error = "overloaded"
default_error_type ErrorKind.upstream_unknown_error = "unknown_error"
default_error_type ErrorKind.no_available_deployment_error = "no_available_deployment"
default_error_type ErrorKind.all_attempts_failed_error = "all_attempts_failed"
default_error_type ErrorKind.client_disconnected = "client_disconnected"

-- The class attribute `http_status`, inherited where a class does not set it.
unfoldable pub default_http_status : ErrorKind → ℕ
default_http_status ErrorKind.zkai_error = 500
default_http_status ErrorKind.config_error = 500
default_http_status ErrorKind.provider_not_found_error = 503
default_http_status ErrorKind.model_not_found_error = 404
default_http_status ErrorKind.alias_not_found_error = 404
default_http_status ErrorKind.invalid_request_error = 400
default_http_status ErrorKind.unsupported_parameter_error = 400
default_http_status ErrorKind.context_length_exceeded_error = 413
default_http_status ErrorKind.content_filter_error = 400
default_http_status ErrorKind.conflict_error = 409
default_http_status ErrorKind.credential_error = 401
default_http_status ErrorKind.authentication_error = 401
default_http_status ErrorKind.permission_denied_error = 403
default_http_status ErrorKind.no_available_credential_error = 503
default_http_status ErrorKind.rate_limit_error = 429
default_http_status ErrorKind.request_timeout_error = 408
default_http_status ErrorKind.connection_failure_error = 502
default_http_status ErrorKind.upstream_server_error = 500
default_http_status ErrorKind.bad_gateway_error = 502
default_http_status ErrorKind.service_unavailable_error = 503
default_http_status ErrorKind.gateway_timeout_error = 504
default_http_status ErrorKind.overloaded_error = 529
default_http_status ErrorKind.upstream_unknown_error = 502
default_http_status ErrorKind.no_available_deployment_error = 503
default_http_status ErrorKind.all_attempts_failed_error = 503
default_http_status ErrorKind.client_disconnected = 499

-- An instance. `error_type` and `http_status` are fields: code may assign them on the object.
pub record ZkaiError : Type 0 where
  pub kind : ErrorKind
  pub message : String
  pub provider : Option String
  pub model : Option String
  pub error_type : String
  pub http_status : ℕ
  pub retry_after : Option ℕ

-- `__init__`: an explicit status overrides the class's.
unfoldable pub new_error :
    ErrorKind → String → Option String → Option String → Option ℕ → Option ℕ → ZkaiError
unfolding default_error_type default_http_status
new_error kind message provider model http_status retry_after = record {
  kind = kind;
  message = message;
  provider = provider;
  model = model;
  error_type = default_error_type kind;
  http_status = elim http_status [ none ↦ default_http_status kind | some s ↦ s ];
  retry_after = retry_after;
}

-- What a call may raise. The classes of httpx and asyncio are told apart as `classify` does, with
-- `str(exc)`; `other` is any further exception, with the name of its type.
pub data Exn : Type 0 where
  zkai : ZkaiError → Exn
  httpx_timeout httpx_transport asyncio_timeout : String → Exn
  cancelled : Exn
  other : String → String → Exn

-- A call that may raise.
pub data Result {ℓ} (A : Type ℓ) : Type ℓ where
  ok : A → Result A
  raise : Exn → Result A
