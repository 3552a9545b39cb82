-- ===== src/Kinds/GroupAlias.antt =====
-- The resource GroupAlias: api/v1alpha1/groupalias_types.go.
pub mod Preparation
use vault_config_operator.Common.{String, Bool, List, Option, none, some}
use vault_config_operator.Common.Text.{◌^^◌}
use vault_config_operator.Paths.{cleanse_path}
use vault_config_operator.Payload.{Payload, end, field, str, erase, map_equal}
use vault_config_operator.Conditions.{Condition}
use vault_config_operator.KubeAuth.{KubeAuthConfiguration, VaultConnection}

pub record GroupAliasConfig : Type 0 where
  pub auth_engine_mount_path : String
  pub group_name : String

pub record GroupAliasSpec : Type 0 where
  pub connection : Option VaultConnection
  pub authentication : KubeAuthConfiguration
  pub group_alias_config : GroupAliasConfig
  pub retrieved_mount_accessor : String
  pub retrieved_canonical_id : String
  pub retrieved_alias_id : String
  pub retrieved_name : String
  pub name : String

pub record GroupAliasStatus : Type 0 where
  pub id : String
  pub conditions : List Condition

pub record GroupAlias : Type 0 where
  pub metadata_name : String
  pub spec : GroupAliasSpec
  pub status : GroupAliasStatus

unfoldable pub get_path : GroupAlias → String
get_path d = cleanse_path ("/identity/group-alias/id/" ^^ d.status.id)

unfoldable pub to_map : GroupAliasSpec → Payload
to_map i = field "name" (str i.retrieved_name) (
    field "id" (str i.retrieved_alias_id) (
      field "mount_accessor" (str i.retrieved_mount_accessor)
        (field "canonical_id" (str i.retrieved_canonical_id) end)))

unfoldable pub get_payload : GroupAlias → Payload
get_payload d = to_map d.spec

-- A deletion from a map that may be nil.
abbrev pub erase_in : String → Option Payload → Option Payload
erase_in k none = none
erase_in k (some m) = some (erase k m)

unfoldable pub is_equivalent_to_desired_state : GroupAlias → Option Payload → Bool
is_equivalent_to_desired_state d payload = map_equal (to_map d.spec) (
    erase_in "mount_type" (
      erase_in "mount_path" (
        erase_in "metadata" (
          erase_in "merged_from_canonical_ids"
            (erase_in "last_update_time" (erase_in "creation_time" payload))))))
