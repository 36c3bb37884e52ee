-- ===== src/Credentials/Config.antt =====
-- app/models/provider.py, app/models/credential.py and app/credentials/pool.py: the state with which
-- the pool registers a key. `resolve_env_reference`, which reads the environment, is a parameter;
-- the log lines are left out.
use zk_ai.Prelude.{ℕ, String, Bool, false, Option, none, some, List, [], ◌∷◌, str_eq, if◌then◌else◌}
use zk_ai.Prelude.Text.{◌⧺◌, is_empty, slice_to}
use zk_ai.Credentials.Runtime.{CredentialStatus, CredentialRuntime, new_runtime}

-- `weight` is in thousandths, and `priority` is not negative.
pub record CredentialConfig : Type 0 where
  pub id : String
  pub provider_id : Option String
  pub env : Option String
  pub env_var : Option String
  pub value : Option String
  pub enabled : Bool
  pub priority : ℕ
  pub weight : ℕ
  pub tags : List String
  pub max_consecutive_failures : ℕ

-- A text that is there and not empty.
abbrev pub truthy : Option String → Option String
truthy none = none
truthy (some s) = if is_empty s then none else some s

abbrev pub braced : String → String
braced name = "${" ⧺ name ⧺ "}"

abbrev pub reference_of : Option String → Option String → Option String
reference_of (some env) env_var = some (if str_eq (slice_to 2 env) "${" then env else braced env)
reference_of none (some name) = some (braced name)
reference_of none none = none

unfoldable pub env_reference : CredentialConfig → Option String
env_reference config = reference_of (truthy config.env) (truthy config.env_var)

-- `CredentialRuntime.from_config`
unfoldable pub from_config : CredentialConfig → Option String → String → CredentialRuntime
from_config config secret source =
    record (new_runtime config.id (elim config.provider_id [ none ↦ "" | some id ↦ id ])) {
      enabled = config.enabled;
      priority = config.priority;
      weight = config.weight;
      status = if config.enabled then CredentialStatus.healthy else CredentialStatus.disabled;
      max_consecutive_failures = config.max_consecutive_failures;
      tags = config.tags;
      secret = secret;
      secret_source = source;
      secret_ref = env_reference config;
      disabled_reason = if config.enabled then none else some "disabled in config";
    }

-- The secret of a key without a reference, and where it is from.
abbrev pub inline_secret : Bool → Bool → Option String → Option String × String
inline_secret allow_inline_secrets enabled (some value) =
    if allow_inline_secrets then (some value, "literal") else (none, "missing")
inline_secret allow_inline_secrets enabled none = (none, if enabled then "none" else "missing")

abbrev pub with_reference : CredentialConfig → String → Option String × String → CredentialRuntime
with_reference config reference (secret, source) =
    let runtime = from_config config secret source in
    if str_eq source "missing"
    then record runtime {
      status = CredentialStatus.disabled;
      enabled = false;
      disabled_reason = some ("环境变量 " ⧺ reference ⧺ " 未设置");
    }
    else runtime

abbrev pub build_from :
    (String → Option String × String) → Bool → CredentialConfig → Option String → CredentialRuntime
build_from resolve allow_inline_secrets config none =
    let found = inline_secret allow_inline_secrets config.enabled (truthy config.value) in
    from_config config found.0 found.1
build_from resolve allow_inline_secrets config (some reference) =
    with_reference config reference (resolve reference)

-- `_build_runtime`
unfoldable pub build_runtime :
    (String → Option String × String) → Bool → CredentialConfig → CredentialRuntime
build_runtime resolve allow_inline_secrets config =
    build_from resolve allow_inline_secrets config (env_reference config)

-- The key that `register_provider` makes up for a provider that needs none.
abbrev pub synthetic : String → CredentialRuntime
synthetic provider_id = record (new_runtime (provider_id ⧺ "-local") provider_id) {
  secret_source = "none";
  tags = "keyless" ∷ [];
}
