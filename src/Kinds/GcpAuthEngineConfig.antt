-- ===== src/Kinds/GcpAuthEngineConfig.antt =====
-- The resource GCPAuthEngineConfig: api/v1alpha1/gcpauthengineconfig_types.go.
use vault_config_operator.Common.{
  String, Bool, not, List, Option, none, some, if◌then◌else◌, str_eq,
}
use vault_config_operator.Common.Text.{◌^^◌}
use vault_config_operator.Common.Action.{Error, plain}
use vault_config_operator.Paths.{cleanse_path}
use vault_config_operator.Payload.{Payload, end, field, str, raw, map_equal}
use vault_config_operator.Conditions.{Condition}
use vault_config_operator.KubeAuth.{KubeAuthConfiguration, VaultConnection}
use vault_config_operator.Credentials.{RootCredentialConfig}

pub record GcpConfig : Type 0 where
  pub service_account : String
  pub iamalias : String
  pub iammetadata : String
  pub gcealias : String
  pub gcemetadata : String
  pub custom_endpoint : Option String
  pub retrieved_service_account : String
  pub retrieved_credentials : String

pub record GcpAuthEngineConfigSpec : Type 0 where
  pub connection : Option VaultConnection
  pub authentication : KubeAuthConfiguration
  pub path : String
  pub gcp_config : GcpConfig
  pub gcp_credentials : RootCredentialConfig

pub record GcpAuthEngineConfigStatus : Type 0 where
  pub conditions : List Condition

pub record GcpAuthEngineConfig : Type 0 where
  pub metadata_name : String
  pub spec : GcpAuthEngineConfigSpec
  pub status : GcpAuthEngineConfigStatus

unfoldable pub get_path : GcpAuthEngineConfig → String
get_path d = cleanse_path ("auth/" ^^ d.spec.path ^^ "/config")

unfoldable pub to_map : GcpConfig → Payload
to_map i = field "credentials" (str i.retrieved_credentials) (
    field "iam_alias" (str i.iamalias) (
      field "iam_metadata" (str i.iammetadata) (
        field "gce_alias" (str i.gcealias) (
          field "gce_metadata" (str i.gcemetadata)
            (field "custom_endpoint" (raw i.custom_endpoint) end)))))

unfoldable pub get_payload : GcpAuthEngineConfig → Payload
get_payload d = to_map d.spec.gcp_config

unfoldable pub is_equivalent_to_desired_state : GcpAuthEngineConfig → Option Payload → Bool
is_equivalent_to_desired_state d payload = map_equal (to_map d.spec.gcp_config) payload

-- The webhook `ValidateUpdate`, the new object first.
unfoldable pub validate_update : GcpAuthEngineConfig → GcpAuthEngineConfig → Option Error
validate_update r old =
    if not (str_eq r.spec.path old.spec.path)
    then some (plain "spec.path cannot be updated")
    else none
