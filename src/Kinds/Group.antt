-- ===== src/Kinds/Group.antt =====
-- The resource Group: api/v1alpha1/group_types.go.
use vault_config_operator.Common.{
  String, Bool, not, List, Option, none, some, if◌then◌else◌, str_eq,
}
use vault_config_operator.Common.Text.{◌^^◌}
use vault_config_operator.Paths.{cleanse_path}
use vault_config_operator.Payload.{Payload, end, field, str, strs, dict, insert, erase, map_equal}
use vault_config_operator.Conditions.{Condition}
use vault_config_operator.KubeAuth.{KubeAuthConfiguration, VaultConnection}

pub record GroupConfig : Type 0 where
  pub kind : String
  pub metadata : Option (List (String × String))
  pub policies : Option (List String)
  pub member_group_ids : Option (List String)
  pub member_entity_ids : Option (List String)

pub record GroupSpec : Type 0 where
  pub connection : Option VaultConnection
  pub authentication : KubeAuthConfiguration
  pub group_config : GroupConfig
  pub name : String

pub record GroupStatus : Type 0 where
  pub conditions : List Condition

pub record Group : Type 0 where
  pub metadata_name : String
  pub spec : GroupSpec
  pub status : GroupStatus

unfoldable pub get_path : Group → String
get_path d =
    if not (str_eq d.spec.name "")
    then cleanse_path ("/identity/group/name/" ^^ d.spec.name)
    else cleanse_path ("/identity/group/name/" ^^ d.metadata_name)

abbrev pub plain_map : GroupSpec → Payload
plain_map i = field "type" (str i.group_config.kind) (
    field "metadata" (dict i.group_config.metadata)
      (field "policies" (strs i.group_config.policies) end))

unfoldable pub to_map : GroupSpec → Payload
to_map i =
    if str_eq i.group_config.kind "internal"
    then insert "member_entity_ids" (strs i.group_config.member_entity_ids)
        (insert "member_group_ids" (strs i.group_config.member_group_ids) (plain_map i))
    else plain_map i

unfoldable pub get_payload : Group → Payload
get_payload d = to_map d.spec

-- A deletion from a map that may be nil.
abbrev pub erase_in : String → Option Payload → Option Payload
erase_in k none = none
erase_in k (some m) = some (erase k m)

unfoldable pub is_equivalent_to_desired_state : Group → Option Payload → Bool
is_equivalent_to_desired_state d payload = map_equal (to_map d.spec) (erase_in "name" payload)
