-- ===== src/Kinds/GroupAlias/Preparation.antt =====
-- What GroupAlias reads, and creates, before a cycle: api/v1alpha1/groupalias_types.go.
use vault_config_operator.Common.{String, not, Option, none, some, if◌then◌else◌, str_eq}
use vault_config_operator.Common.Text.{◌^^◌}
use vault_config_operator.Common.Action.{
  plain, Result, err, panic, Action, pure, of_result, get, modify, ◌>>=◌, ◌>>◌,
}
use vault_config_operator.Paths.{cleanse_path}
use vault_config_operator.Payload.{Payload, end, field, str}
use vault_config_operator.Vault.{Vault, Secret, read_secret}
use vault_config_operator.Endpoint.{Cell, in_world}
use vault_config_operator.Engine.{entries_of}
use vault_config_operator.Database.Retrieval.{text_at}
use vault_config_operator.Kinds.GroupAlias.{GroupAlias, GroupAliasSpec}

-- `secret.Data[k].(string)` of a secret that has to be there.
abbrev pub found_at : String → String → Option Secret → Result String
found_at k message none = err (plain message)
found_at k message (some secret) = text_at k (entries_of secret.contents)

-- `result.Data["id"].(string)` of what a write answers; a nil secret is a nil pointer.
abbrev pub id_of : Option Secret → Result String
id_of none = panic
id_of (some secret) = text_at "id" (entries_of secret.contents)

abbrev pub name_of : GroupAlias → String
name_of d = if not (str_eq d.spec.name "") then d.spec.name else d.metadata_name

unfoldable pub creation_payload : GroupAlias → Payload
creation_payload d = field "name" (str (name_of d)) (
    field "mount_accessor" (str d.spec.retrieved_mount_accessor)
      (field "canonical_id" (str d.spec.retrieved_canonical_id) end))

abbrev pub Step : Type 0 → Type 0 → Type 0
Step W A = Action (Cell GroupAlias W) A

module _ {W : Type 0} where
  abbrev pub change_spec : (GroupAlias → GroupAliasSpec) → Step W (Unit {0})
  change_spec f = modify (λ c. record c { object = record (c.object) { spec = f c.object } })

  abbrev pub set_id : String → Step W (Unit {0})
  set_id id = modify (λ c. record c {
    object = record (c.object) { status = record (c.object.status) { id = id } };
  })

-- `status_update` is `Status().Update` of the Kubernetes client.
module _ {W : Type 0} (v : Vault W) (status_update : Action (Cell GroupAlias W) (Unit {0})) where
  abbrev pub look_up : String → String → String → Step W String
  look_up path k message = do
    answer ← in_world (read_secret v (cleanse_path path))
    of_result (found_at k message answer)

  -- The accessor of the mount and the id of the group.
  unfoldable pub retrieve_references : Step W (Unit {0})
  retrieve_references = do
    c ← get
    accessor ←
        look_up ("sys/auth/" ^^ c.object.spec.group_alias_config.auth_engine_mount_path) "accessor"
          "auth engine not found"
    change_spec (λ d. record (d.spec) { retrieved_mount_accessor = accessor })
    id ←
        look_up ("/identity/group/name/" ^^ c.object.spec.group_alias_config.group_name) "id"
          "group not found"
    change_spec (λ d. record (d.spec) { retrieved_canonical_id = id })
    change_spec (λ d. record (d.spec) { retrieved_name = name_of d })

  -- An alias without an id in the status is created.
  unfoldable pub create_once : Step W (Unit {0})
  create_once = do
    c ← get
    if str_eq c.object.status.id ""
        then (do
          result ←
              in_world (v.logical_write "/identity/group-alias" (some (creation_payload c.object)))
          id ← of_result (id_of result)
          set_id id
          status_update)
        else pure tt

  unfoldable pub prepare_internal_values : Step W (Unit {0})
  prepare_internal_values =
      retrieve_references
      >> create_once
      >> change_spec (λ d. record (d.spec) { retrieved_alias_id = d.status.id })
