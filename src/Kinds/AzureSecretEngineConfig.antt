-- ===== src/Kinds/AzureSecretEngineConfig.antt =====
-- The resource AzureSecretEngineConfig: api/v1alpha1/azuresecretengineconfig_types.go.
use vault_config_operator.Common.{String, Bool, not, List, Option, some, if◌then◌else◌, str_eq}
use vault_config_operator.Common.Text.{◌^^◌}
use vault_config_operator.Common.Action.{Error, plain}
use vault_config_operator.Payload.{Payload, end, field, str, map_equal}
use vault_config_operator.Conditions.{Condition}
use vault_config_operator.KubeAuth.{KubeAuthConfiguration, VaultConnection}
use vault_config_operator.Credentials.{
  RootCredentialConfig, validate_either_from_vault_secret_or_from_secret_or_from_random_secret,
}

pub record AzureSeConfig : Type 0 where
  pub subscription_id : String
  pub tenant_id : String
  pub client_id : String
  pub environment : String
  pub password_policy : String
  pub root_password_ttl : String
  pub retrieved_client_id : String
  pub retrieved_client_password : String

pub record AzureSecretEngineConfigSpec : Type 0 where
  pub connection : Option VaultConnection
  pub authentication : KubeAuthConfiguration
  pub path : String
  pub azure_credentials : RootCredentialConfig
  pub azure_se_config : AzureSeConfig

pub record AzureSecretEngineConfigStatus : Type 0 where
  pub conditions : List Condition

pub record AzureSecretEngineConfig : Type 0 where
  pub metadata_name : String
  pub spec : AzureSecretEngineConfigSpec
  pub status : AzureSecretEngineConfigStatus

unfoldable pub get_path : AzureSecretEngineConfig → String
get_path d = d.spec.path ^^ "/" ^^ "config"

unfoldable pub to_map : AzureSeConfig → Payload
to_map i = field "subscription_id" (str i.subscription_id) (
    field "tenant_id" (str i.tenant_id) (
      field "client_id" (str i.retrieved_client_id) (
        field "client_secret" (str i.retrieved_client_password) (
          field "environment" (str i.environment) (
            field "password_policy" (str i.password_policy)
              (field "root_password_ttl" (str i.root_password_ttl) end))))))

unfoldable pub get_payload : AzureSecretEngineConfig → Payload
get_payload d = to_map d.spec.azure_se_config

unfoldable pub is_equivalent_to_desired_state : AzureSecretEngineConfig → Option Payload → Bool
is_equivalent_to_desired_state d payload = map_equal (to_map d.spec.azure_se_config) payload

unfoldable pub is_valid : AzureSecretEngineConfig → Option Error
is_valid r =
    validate_either_from_vault_secret_or_from_secret_or_from_random_secret r.spec.azure_credentials

-- The webhook `ValidateUpdate`, the new object first.
unfoldable pub validate_update : AzureSecretEngineConfig → AzureSecretEngineConfig → Option Error
validate_update r old =
    if not (str_eq r.spec.path old.spec.path)
    then some (plain "spec.path cannot be updated")
    else is_valid r
