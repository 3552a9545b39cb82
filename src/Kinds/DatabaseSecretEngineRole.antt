-- ===== src/Kinds/DatabaseSecretEngineRole.antt =====
-- The resource DatabaseSecretEngineRole: api/v1alpha1/databasesecretenginerole_types.go.
use vault_config_operator.Common.{
  String, Bool, not, List, Option, none, some, if◌then◌else◌, str_eq,
}
use vault_config_operator.Common.Int.{ℤ}
use vault_config_operator.Common.Text.{◌^^◌}
use vault_config_operator.Common.Action.{Error, plain}
use vault_config_operator.Paths.{cleanse_path}
use vault_config_operator.Payload.{Payload, end, field, str, strs, duration, map_equal}
use vault_config_operator.Conditions.{Condition}
use vault_config_operator.KubeAuth.{KubeAuthConfiguration, VaultConnection}

pub record DbseRole : Type 0 where
  pub db_name : String
  pub default_ttl : ℤ
  pub max_ttl : ℤ
  pub creation_statements : Option (List String)
  pub revocation_statements : Option (List String)
  pub rollback_statements : Option (List String)
  pub renew_statements : Option (List String)

pub record DatabaseSecretEngineRoleSpec : Type 0 where
  pub connection : Option VaultConnection
  pub authentication : KubeAuthConfiguration
  pub path : String
  pub dbse_role : DbseRole
  pub name : String

pub record DatabaseSecretEngineRoleStatus : Type 0 where
  pub conditions : List Condition

pub record DatabaseSecretEngineRole : Type 0 where
  pub metadata_name : String
  pub spec : DatabaseSecretEngineRoleSpec
  pub status : DatabaseSecretEngineRoleStatus

unfoldable pub get_path : DatabaseSecretEngineRole → String
get_path d =
    if not (str_eq d.spec.name "")
    then cleanse_path (d.spec.path ^^ "/" ^^ "roles" ^^ "/" ^^ d.spec.name)
    else cleanse_path (d.spec.path ^^ "/" ^^ "roles" ^^ "/" ^^ d.metadata_name)

unfoldable pub to_map : DbseRole → Payload
to_map i = field "db_name" (str i.db_name) (
    field "default_ttl" (duration i.default_ttl) (
      field "max_ttl" (duration i.max_ttl) (
        field "creation_statements" (strs i.creation_statements) (
          field "revocation_statements" (strs i.revocation_statements) (
            field "rollback_statements" (strs i.rollback_statements)
              (field "renew_statements" (strs i.renew_statements) end))))))

unfoldable pub get_payload : DatabaseSecretEngineRole → Payload
get_payload d = to_map d.spec.dbse_role

unfoldable pub is_equivalent_to_desired_state : DatabaseSecretEngineRole → Option Payload → Bool
is_equivalent_to_desired_state d payload = map_equal (to_map d.spec.dbse_role) payload

-- The webhook `ValidateUpdate`, the new object first.
unfoldable pub validate_update : DatabaseSecretEngineRole → DatabaseSecretEngineRole → Option Error
validate_update r old =
    if not (str_eq r.spec.path old.spec.path)
    then some (plain "spec.path cannot be updated")
    else none
