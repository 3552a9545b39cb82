-- ===== src/Kinds/LdapAuthEngineGroup.antt =====
-- The resource LDAPAuthEngineGroup: api/v1alpha1/ldapauthenginegroup_types.go.
use vault_config_operator.Common.{String, Bool, List, Option}
use vault_config_operator.Common.Text.{◌^^◌}
use vault_config_operator.Paths.{cleanse_path}
use vault_config_operator.Payload.{Payload, end, field, str, map_equal}
use vault_config_operator.Conditions.{Condition}
use vault_config_operator.KubeAuth.{KubeAuthConfiguration, VaultConnection}

pub record LdapAuthEngineGroupSpec : Type 0 where
  pub connection : Option VaultConnection
  pub authentication : KubeAuthConfiguration
  pub path : String
  pub name : String
  pub policies : String

pub record LdapAuthEngineGroupStatus : Type 0 where
  pub conditions : List Condition

pub record LdapAuthEngineGroup : Type 0 where
  pub metadata_name : String
  pub spec : LdapAuthEngineGroupSpec
  pub status : LdapAuthEngineGroupStatus

unfoldable pub get_path : LdapAuthEngineGroup → String
get_path d = cleanse_path ("auth/" ^^ d.spec.path ^^ "/groups/" ^^ d.spec.name)

unfoldable pub to_map : LdapAuthEngineGroup → Payload
to_map i = field "name" (str i.spec.name) (field "policies" (str i.spec.policies) end)

unfoldable pub get_payload : LdapAuthEngineGroup → Payload
get_payload d = to_map d

unfoldable pub is_equivalent_to_desired_state : LdapAuthEngineGroup → Option Payload → Bool
is_equivalent_to_desired_state d payload = map_equal (to_map d) payload
