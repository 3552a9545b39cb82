-- ===== src/Kinds/GitHubSecretEngineRole.antt =====
-- The resource GitHubSecretEngineRole: api/v1alpha1/githubsecretenginerole_types.go.
use vault_config_operator.Common.{
  String, Bool, not, List, Option, none, some, if◌then◌else◌, str_eq,
}
use vault_config_operator.Common.Int.{ℤ}
use vault_config_operator.Common.Text.{◌^^◌}
use vault_config_operator.Common.Action.{Error, plain}
use vault_config_operator.Paths.{cleanse_path}
use vault_config_operator.Payload.{Payload, end, field, str, int, strs, dict, map_equal}
use vault_config_operator.Conditions.{Condition}
use vault_config_operator.KubeAuth.{KubeAuthConfiguration, VaultConnection}

pub record PermissionSet : Type 0 where
  pub installation_id : ℤ
  pub organization_name : String
  pub repositories : Option (List String)
  pub repositories_ids : Option (List String)
  pub permissions : Option (List (String × String))

pub record GitHubSecretEngineRoleSpec : Type 0 where
  pub connection : Option VaultConnection
  pub authentication : KubeAuthConfiguration
  pub path : String
  pub permission_set : PermissionSet
  pub name : String

pub record GitHubSecretEngineRoleStatus : Type 0 where
  pub conditions : List Condition

pub record GitHubSecretEngineRole : Type 0 where
  pub metadata_name : String
  pub spec : GitHubSecretEngineRoleSpec
  pub status : GitHubSecretEngineRoleStatus

unfoldable pub get_path : GitHubSecretEngineRole → String
get_path d =
    if not (str_eq d.spec.name "")
    then cleanse_path (d.spec.path ^^ "/" ^^ "permissionset" ^^ "/" ^^ d.spec.name)
    else cleanse_path (d.spec.path ^^ "/" ^^ "permissionset" ^^ "/" ^^ d.metadata_name)

unfoldable pub to_map : PermissionSet → Payload
to_map i = field "installation_id" (int i.installation_id) (
    field "org_name" (str i.organization_name) (
      field "repositories" (strs i.repositories) (
        field "repository_ids" (strs i.repositories_ids)
          (field "permissions" (dict i.permissions) end))))

unfoldable pub get_payload : GitHubSecretEngineRole → Payload
get_payload d = to_map d.spec.permission_set

unfoldable pub is_equivalent_to_desired_state : GitHubSecretEngineRole → Option Payload → Bool
is_equivalent_to_desired_state d payload = map_equal (to_map d.spec.permission_set) payload

-- The webhook `ValidateUpdate`, the new object first.
unfoldable pub validate_update : GitHubSecretEngineRole → GitHubSecretEngineRole → Option Error
validate_update r old =
    if not (str_eq r.spec.path old.spec.path)
    then some (plain "spec.path cannot be updated")
    else none
