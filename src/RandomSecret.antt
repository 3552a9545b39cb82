-- ===== src/RandomSecret.antt =====
-- The resource RandomSecret: api/v1alpha1/randomsecret_types.go and randomsecret_webhook.go.
-- Its password is made in RandomSecret/Password.antt, and controllers/randomsecret_controller.go is
-- RandomSecret/Controller.antt.
pub mod Password
mod Tests
pub mod Lifecycle
pub mod Validity
pub mod Controller
use vault_config_operator.Common.{
  ℕ, String, Bool, true, false, not, ◌&&◌, ◌+◌, ◌==◌, List, [], ◌∷◌, ◌++◌, Option, none, some,
  is_some, if◌then◌else◌, str_eq,
}
use vault_config_operator.Common.Int.{ℤ, pos, ltb_ℤ}
use vault_config_operator.Common.Action.{Error, plain, Result, ok, err, panic, Action}
use vault_config_operator.Common.Text.{◌^^◌, contains, has_suffix}
use vault_config_operator.Paths.{cleanse_path}
use vault_config_operator.Payload.{Payload, end, field, str, obj, insert}
use vault_config_operator.Conditions.{Condition}
use vault_config_operator.KubeAuth.{KubeAuthConfiguration, VaultConnection}

pub record VaultPasswordPolicy : Type 0 where
  pub password_policy_name : String
  pub inline_password_policy : String

-- A refresh period is a number of nanoseconds.
pub record RandomSecretSpec : Type 0 where
  pub connection : Option VaultConnection
  pub authentication : KubeAuthConfiguration
  pub path : String
  pub secret_format : VaultPasswordPolicy
  pub refresh_period : Option ℤ
  pub secret_key : String
  pub calculated_secret : String
  pub is_kv_secrets_engine_v2 : Bool
  pub name : String
  pub kv_secret_retain_policy : String

pub record RandomSecretStatus : Type 0 where
  pub conditions : List Condition
  pub last_vault_secret_update : Option ℤ

-- Of the metadata: the name, the deletion timestamp as a test, and the finalizers.
pub record RandomSecret : Type 0 where
  pub metadata_name : String
  pub deleting : Bool
  pub finalizers : List String
  pub spec : RandomSecretSpec
  pub status : RandomSecretStatus

-- A character set is a list of bytes.
pub record PasswordPolicyRule : Type 0 where
  pub rule_type : String
  pub charset : List ℕ
  pub min_chars : ℤ

pub record PasswordPolicyFormat : Type 0 where
  pub length : ℤ
  pub rules : List PasswordPolicyRule

-- What the code takes from Go's runtime and from libraries: a random number below a bound, the
-- string of some bytes, `hclsimple.Decode` on a file name and a text, and two methods of a duration.
pub record Runtime (W : Type 0) : Type 0 where
  pub intn : ℕ → Action W ℕ
  pub text : List ℕ → String
  pub hcl_decode : String → String → Option Error × PasswordPolicyFormat
  pub duration_string : ℤ → String
  pub duration_size : Option ℤ → ℤ

abbrev pub ttl_key : String
ttl_key = "ttl"

abbrev pub retain_kv_secret_retain_policy : String
retain_kv_secret_retain_policy = "Retain"

unfoldable pub get_path : RandomSecret → String
get_path d =
    if not (str_eq d.spec.name "")
    then cleanse_path (d.spec.path ^^ "/" ^^ d.spec.name)
    else cleanse_path (d.spec.path ^^ "/" ^^ d.metadata_name)

-- `RefreshPeriod != nil && RefreshPeriod.Duration > 0`
abbrev pub has_refresh : Option ℤ → Bool
has_refresh none = false
has_refresh (some duration) = ltb_ℤ (pos 0) duration

abbrev pub is_empty : String → Bool
is_empty s = str_eq s ""

-- The validators, with `none` for a nil error.
unfoldable pub validate_either_password_policy_reference_or_inline : RandomSecret → Option Error
validate_either_password_policy_reference_or_inline r =
    if (if is_empty r.spec.secret_format.inline_password_policy then 0 else 1)
        + (if is_empty r.spec.secret_format.password_policy_name then 0 else 1)
      == 1
    then none
    else some (plain "only one of InlinePasswordPolicy or passwordPolicyName can be defined")

unfoldable pub validate_secret_key : RandomSecret → Option Error
validate_secret_key r =
    if has_refresh r.spec.refresh_period && str_eq r.spec.secret_key ttl_key
    then some
        (plain "secretKey must not be ttl since this is a protected key when RefreshPeriod is set")
    else none

unfoldable pub validate_kvv2_data_in_path : RandomSecret → Option Error
validate_kvv2_data_in_path r =
    if r.spec.is_kv_secrets_engine_v2 && not (contains "/data/" (get_path r))
    then some (
        plain
          "KVv2 secrets must have /data defined in the path, for example /secret-mount-path/data/path")
    else none

-- `multierror.Append`, which skips a nil error.
abbrev pub append_error : List Error → Option Error → List Error
append_error result none = result
append_error result (some issue) = result ++ (issue ∷ [])

module _ {W : Type 0} (e : Runtime W) where
  abbrev pub with_ttl : Option ℤ → Payload → Payload
  with_ttl none payload = payload
  with_ttl (some duration) payload =
      if ltb_ℤ (pos 0) duration
      then insert ttl_key (str (e.duration_string duration)) payload
      else payload

  unfoldable pub get_v1_payload : RandomSecret → Payload
  get_v1_payload d =
      with_ttl d.spec.refresh_period (field d.spec.secret_key (str d.spec.calculated_secret) end)

  unfoldable pub get_payload : RandomSecret → Payload
  get_payload d =
      if d.spec.is_kv_secrets_engine_v2
      then field "data" (obj (get_v1_payload d)) end
      else get_v1_payload d

  unfoldable pub validate_inline_password_policy_format : RandomSecret → Option Error
  validate_inline_password_policy_format r =
      if not (is_empty r.spec.secret_format.inline_password_policy)
      then (e.hcl_decode
          (if has_suffix ".hcl" r.spec.secret_key
            then r.spec.secret_key
            else r.spec.secret_key ^^ ".hcl")
          r.spec.secret_format.inline_password_policy).0
      else none

  -- `ErrorOrNil` of the collected errors is nil where the list is empty.
  unfoldable pub is_valid : RandomSecret → List Error
  is_valid r =
      append_error
        (append_error
          (append_error (append_error [] (validate_either_password_policy_reference_or_inline r))
            (validate_inline_password_policy_format r))
          (validate_secret_key r))
        (validate_kvv2_data_in_path r)

  -- The webhooks.
  unfoldable pub validate_create : RandomSecret → List Error
  validate_create r = is_valid r

  unfoldable pub validate_update : RandomSecret → RandomSecret → List Error
  validate_update r old =
      if not (str_eq r.spec.path old.spec.path)
      then plain "spec.path cannot be updated" ∷ []
      else if not (str_eq r.spec.secret_key old.spec.secret_key)
      then plain "spec.secretKey cannot be updated" ∷ []
      else is_valid r
