-- ===== src/Kinds/QuaySecretEngineConfig.antt =====
-- The resource QuaySecretEngineConfig: api/v1alpha1/quaysecretengineconfig_types.go.
use vault_config_operator.Common.{String, Bool, not, List, Option, some, if◌then◌else◌, str_eq}
use vault_config_operator.Common.Text.{◌^^◌}
use vault_config_operator.Common.Action.{Error, plain}
use vault_config_operator.Payload.{Payload, end, field, str, bool, erase, map_equal}
use vault_config_operator.Conditions.{Condition}
use vault_config_operator.KubeAuth.{KubeAuthConfiguration, VaultConnection}
use vault_config_operator.Credentials.{
  RootCredentialConfig, validate_either_from_vault_secret_or_from_secret_or_from_random_secret,
}

pub record QuayConfig : Type 0 where
  pub url : String
  pub ca_certertificate : String
  pub disable_ssl_verification : Bool
  pub retrieved_token : String

pub record QuaySecretEngineConfigSpec : Type 0 where
  pub connection : Option VaultConnection
  pub authentication : KubeAuthConfiguration
  pub path : String
  pub quay_config : QuayConfig
  pub root_credentials : RootCredentialConfig

pub record QuaySecretEngineConfigStatus : Type 0 where
  pub conditions : List Condition

pub record QuaySecretEngineConfig : Type 0 where
  pub metadata_name : String
  pub spec : QuaySecretEngineConfigSpec
  pub status : QuaySecretEngineConfigStatus

unfoldable pub get_path : QuaySecretEngineConfig → String
get_path d = d.spec.path ^^ "/" ^^ "config"

unfoldable pub to_map : QuayConfig → Payload
to_map i = field "url" (str i.url) (
    field "token" (str i.retrieved_token) (
      field "ca_certificate" (str i.ca_certertificate)
        (field "disable_ssl_verification" (bool i.disable_ssl_verification) end)))

unfoldable pub get_payload : QuaySecretEngineConfig → Payload
get_payload d = to_map d.spec.quay_config

unfoldable pub is_equivalent_to_desired_state : QuaySecretEngineConfig → Option Payload → Bool
is_equivalent_to_desired_state d payload =
    map_equal (erase "password" (to_map d.spec.quay_config)) payload

unfoldable pub is_valid : QuaySecretEngineConfig → Option Error
is_valid r =
    validate_either_from_vault_secret_or_from_secret_or_from_random_secret r.spec.root_credentials

-- The webhook `ValidateUpdate`, the new object first.
unfoldable pub validate_update : QuaySecretEngineConfig → QuaySecretEngineConfig → Option Error
validate_update r old =
    if not (str_eq r.spec.path old.spec.path)
    then some (plain "spec.path cannot be updated")
    else is_valid r
