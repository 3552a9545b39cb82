-- ===== src/Kinds/PasswordPolicy.antt =====
-- The resource PasswordPolicy: api/v1alpha1/passwordpolicy_types.go.
use vault_config_operator.Common.{String, Bool, not, List, Option, if◌then◌else◌, str_eq}
use vault_config_operator.Common.Text.{◌^^◌}
use vault_config_operator.Paths.{cleanse_path}
use vault_config_operator.Payload.{Payload, end, field, str, map_equal}
use vault_config_operator.Conditions.{Condition}
use vault_config_operator.KubeAuth.{KubeAuthConfiguration, VaultConnection}

pub record PasswordPolicySpec : Type 0 where
  pub connection : Option VaultConnection
  pub password_policy : String
  pub authentication : KubeAuthConfiguration
  pub name : String

pub record PasswordPolicyStatus : Type 0 where
  pub conditions : List Condition

pub record PasswordPolicy : Type 0 where
  pub metadata_name : String
  pub spec : PasswordPolicySpec
  pub status : PasswordPolicyStatus

unfoldable pub get_path : PasswordPolicy → String
get_path d =
    if not (str_eq d.spec.name "")
    then cleanse_path ("sys/policies/password/" ^^ d.spec.name)
    else cleanse_path ("sys/policies/password/" ^^ d.metadata_name)

unfoldable pub get_payload : PasswordPolicy → Payload
get_payload d = field "policy" (str d.spec.password_policy) end

unfoldable pub is_equivalent_to_desired_state : PasswordPolicy → Option Payload → Bool
is_equivalent_to_desired_state d payload = map_equal (get_payload d) payload
