-- ===== src/Kinds/AzureAuthEngineConfig.antt =====
-- The resource AzureAuthEngineConfig: api/v1alpha1/azureauthengineconfig_types.go.
use vault_config_operator.Common.{
  String, Bool, not, List, Option, none, some, if◌then◌else◌, str_eq,
}
use vault_config_operator.Common.Int.{ℤ}
use vault_config_operator.Common.Text.{◌^^◌}
use vault_config_operator.Common.Action.{Error, plain}
use vault_config_operator.Paths.{cleanse_path}
use vault_config_operator.Payload.{Payload, end, field, str, int, map_equal}
use vault_config_operator.Conditions.{Condition}
use vault_config_operator.KubeAuth.{KubeAuthConfiguration, VaultConnection}
use vault_config_operator.Credentials.{RootCredentialConfig}

pub record AzureConfig : Type 0 where
  pub tenant_id : String
  pub resource : String
  pub environment : String
  pub client_id : String
  pub max_retries : ℤ
  pub max_retry_delay : ℤ
  pub retry_delay : ℤ
  pub retrieved_client_id : String
  pub retrieved_client_password : String

pub record AzureAuthEngineConfigSpec : Type 0 where
  pub connection : Option VaultConnection
  pub authentication : KubeAuthConfiguration
  pub path : String
  pub azure_config : AzureConfig
  pub azure_credentials : RootCredentialConfig

pub record AzureAuthEngineConfigStatus : Type 0 where
  pub conditions : List Condition

pub record AzureAuthEngineConfig : Type 0 where
  pub metadata_name : String
  pub spec : AzureAuthEngineConfigSpec
  pub status : AzureAuthEngineConfigStatus

unfoldable pub get_path : AzureAuthEngineConfig → String
get_path d = cleanse_path ("auth/" ^^ d.spec.path ^^ "/config")

unfoldable pub to_map : AzureConfig → Payload
to_map i = field "tenant_id" (str i.tenant_id) (
    field "resource" (str i.resource) (
      field "environment" (str i.environment) (
        field "client_id" (str i.retrieved_client_id) (
          field "client_secret" (str i.retrieved_client_password) (
            field "max_retries" (int i.max_retries) (
              field "max_retry_delay" (int i.max_retry_delay)
                (field "retry_delay" (int i.retry_delay) end)))))))

unfoldable pub get_payload : AzureAuthEngineConfig → Payload
get_payload d = to_map d.spec.azure_config

unfoldable pub is_equivalent_to_desired_state : AzureAuthEngineConfig → Option Payload → Bool
is_equivalent_to_desired_state d payload = map_equal (to_map d.spec.azure_config) payload

-- The webhook `ValidateUpdate`, the new object first.
unfoldable pub validate_update : AzureAuthEngineConfig → AzureAuthEngineConfig → Option Error
validate_update r old =
    if not (str_eq r.spec.path old.spec.path)
    then some (plain "spec.path cannot be updated")
    else none
