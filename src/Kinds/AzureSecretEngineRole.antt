-- ===== src/Kinds/AzureSecretEngineRole.antt =====
-- The resource AzureSecretEngineRole: api/v1alpha1/azuresecretenginerole_types.go.
use vault_config_operator.Common.{
  String, Bool, not, List, Option, none, some, if◌then◌else◌, str_eq,
}
use vault_config_operator.Common.Text.{◌^^◌}
use vault_config_operator.Common.Action.{Error, plain}
use vault_config_operator.Paths.{cleanse_path}
use vault_config_operator.Payload.{Payload, end, field, str, bool, map_equal}
use vault_config_operator.Conditions.{Condition}
use vault_config_operator.KubeAuth.{KubeAuthConfiguration, VaultConnection}

pub record AzureSeRole : Type 0 where
  pub azure_roles : String
  pub azure_groups : String
  pub application_object_id : String
  pub persist_app : Bool
  pub ttl : String
  pub max_ttl : String
  pub permanently_delete : String
  pub sign_in_audience : String
  pub tags : String

pub record AzureSecretEngineRoleSpec : Type 0 where
  pub connection : Option VaultConnection
  pub authentication : KubeAuthConfiguration
  pub path : String
  pub azure_se_role : AzureSeRole
  pub name : String

pub record AzureSecretEngineRoleStatus : Type 0 where
  pub conditions : List Condition

pub record AzureSecretEngineRole : Type 0 where
  pub metadata_name : String
  pub spec : AzureSecretEngineRoleSpec
  pub status : AzureSecretEngineRoleStatus

unfoldable pub get_path : AzureSecretEngineRole → String
get_path d =
    if not (str_eq d.spec.name "")
    then cleanse_path (d.spec.path ^^ "/" ^^ "roles" ^^ "/" ^^ d.spec.name)
    else cleanse_path (d.spec.path ^^ "/" ^^ "roles" ^^ "/" ^^ d.metadata_name)

unfoldable pub to_map : AzureSeRole → Payload
to_map i = field "azure_roles" (str i.azure_roles) (
    field "azure_groups" (str i.azure_groups) (
      field "application_object_id" (str i.application_object_id) (
        field "persist_app" (bool i.persist_app) (
          field "ttl" (str i.ttl) (
            field "max_ttl" (str i.max_ttl) (
              field "permanently_delete" (str i.permanently_delete) (
                field "sign_in_audience" (str i.sign_in_audience)
                  (field "tags" (str i.tags) end))))))))

unfoldable pub get_payload : AzureSecretEngineRole → Payload
get_payload d = to_map d.spec.azure_se_role

unfoldable pub is_equivalent_to_desired_state : AzureSecretEngineRole → Option Payload → Bool
is_equivalent_to_desired_state d payload = map_equal (to_map d.spec.azure_se_role) payload

-- The webhook `ValidateUpdate`, the new object first.
unfoldable pub validate_update : AzureSecretEngineRole → AzureSecretEngineRole → Option Error
validate_update r old =
    if not (str_eq r.spec.path old.spec.path)
    then some (plain "spec.path cannot be updated")
    else none
