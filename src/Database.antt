-- ===== src/Database.antt =====
-- The resource DatabaseSecretEngineConfig: api/v1alpha1/databasesecretengineconfig_types.go.
pub mod Password
pub mod Retrieval
pub mod Controller
pub mod Rotation
mod Tests
use vault_config_operator.Common.{
  String, Bool, false, not, List, [], ◌∷◌, Option, none, some, if◌then◌else◌, str_eq,
}
use vault_config_operator.Common.Int.{ℤ}
use vault_config_operator.Common.Action.{
  Error, plain, Result, ok, err, Action, pure, fail, of_result, get, modify, ◌>>=◌,
}
use vault_config_operator.Common.Text.{◌^^◌}
use vault_config_operator.Paths.{cleanse_path}
use vault_config_operator.Payload.{
  Payload, end, field, Value, str, bool, nil, arr, Items, done, item, obj, lookup, insert, erase,
  map_equal,
}
use vault_config_operator.Vault.{Vault, Secret, read_secret}
use vault_config_operator.Endpoint.{Cell, in_world}
use vault_config_operator.Engine.{as_map, as_string, entries_of}
use vault_config_operator.Conditions.{Condition}
use vault_config_operator.KubeAuth.{KubeAuthConfiguration, VaultConnection}
use vault_config_operator.Credentials.{
  RootCredentialConfig, VaultSecretReference,
  validate_either_from_vault_secret_or_from_secret_or_from_random_secret,
}
use vault_config_operator.RandomSecret.{RandomSecret}
use vault_config_operator.RandomSecret

pub record RootPasswordRotation : Type 0 where
  pub enable : Bool
  pub rotation_period : ℤ

pub record DbseConfig : Type 0 where
  pub plugin_name : String
  pub plugin_version : String
  pub verify_connection : Bool
  pub allowed_roles : List String
  pub root_rotation_statements : List String
  pub password_authentication : String
  pub password_policy : String
  pub connection_url : String
  pub username : String
  pub disable_escaping : Bool
  pub database_specific_config : List (String × String)
  pub retrieved_password : String
  pub retrieved_username : String
  pub root_password_rotation : Option RootPasswordRotation

pub record DatabaseSecretEngineConfigSpec : Type 0 where
  pub connection : Option VaultConnection
  pub authentication : KubeAuthConfiguration
  pub path : String
  pub dbse_config : DbseConfig
  pub root_credentials : RootCredentialConfig
  pub name : String

-- The zero time is `none`.
pub record DatabaseSecretEngineConfigStatus : Type 0 where
  pub conditions : List Condition
  pub last_root_password_rotation : Option ℤ

pub record DatabaseSecretEngineConfig : Type 0 where
  pub metadata_name : String
  pub deleting : Bool
  pub finalizers : List String
  pub spec : DatabaseSecretEngineConfigSpec
  pub status : DatabaseSecretEngineConfigStatus

abbrev pub path_below : String → DatabaseSecretEngineConfig → String
path_below segment d =
    if not (str_eq d.spec.name "")
    then cleanse_path (d.spec.path ^^ "/" ^^ segment ^^ "/" ^^ d.spec.name)
    else cleanse_path (d.spec.path ^^ "/" ^^ segment ^^ "/" ^^ d.metadata_name)

unfoldable pub get_path : DatabaseSecretEngineConfig → String
get_path d = path_below "config" d

unfoldable pub get_root_password_rotation_path : DatabaseSecretEngineConfig → String
get_root_password_rotation_path d = path_below "rotate-root" d

unfoldable pub to_interface_array : List String → Items
to_interface_array [] = done
to_interface_array (value ∷ values) = item (str value) (to_interface_array values)

-- The loop over `DatabaseSpecificConfig`.
abbrev pub insert_all : List (String × String) → Payload → Payload
insert_all [] payload = payload
insert_all ((key, value) ∷ config) payload = insert_all config (insert key (str value) payload)

-- `payload[key] = value`, unless the value is empty.
abbrev pub insert_some : String → String → Payload → Payload
insert_some key value payload = if str_eq value "" then payload else insert key (str value) payload

abbrev pub insert_username : DbseConfig → Payload → Payload
insert_username i payload =
    if not (str_eq i.username "")
    then insert "username" (str i.username) payload
    else insert_some "username" i.retrieved_username payload

unfoldable pub plain_map : DbseConfig → Payload
plain_map i = field "plugin_name" (str i.plugin_name) (
    field "plugin_version" (str i.plugin_version) (
      field "verify_connection" (bool i.verify_connection) (
        field "allowed_roles" (arr (to_interface_array i.allowed_roles)) (
          field "root_credentials_rotate_statements"
            (arr (to_interface_array i.root_rotation_statements))
            (field "password_policy" (str i.password_policy)
              (field "connection_url" (str i.connection_url) end))))))

-- All of `toMap` but the password.
unfoldable pub base_map : DbseConfig → Payload
base_map i =
    insert "disable_escaping" (bool i.disable_escaping)
      (insert_username i (insert_all i.database_specific_config (plain_map i)))

-- `DBSEConfig.toMap`
unfoldable pub to_map : DbseConfig → Payload
to_map i = insert_some "password" i.retrieved_password (base_map i)

-- `m[k]`, nil for a missing key.
abbrev pub value_of : Option Value → Value
value_of none = nil
value_of (some v) = v

abbrev pub value_at : String → Payload → Value
value_at k m = value_of (lookup k m)

-- `m[k] == true`
abbrev pub is_true_value : Value → Bool
is_true_value (bool b) = b
is_true_value _ = false

abbrev pub connection_details : Payload → Payload
connection_details desired =
    let details = insert "username" (value_at "username" desired) (
      insert "root_credentials_rotate_statements"
        (value_at "root_credentials_rotate_statements" desired)
        (insert "disable_escaping" (value_at "disable_escaping" desired)
          (insert "connection_url" (value_at "connection_url" desired) end))) in
    if is_true_value (value_at "verify_connection" desired)
    then insert "verify_connection" (value_at "verify_connection" desired) details
    else details

-- The map with the fields that Vault reports among the connection details moved there.
unfoldable pub reported : Payload → Payload
reported desired = erase "disable_escaping" (
    erase "verify_connection" (
      erase "username" (
        erase "connection_url" (
          erase "password"
            (insert "connection_details" (obj (connection_details desired)) desired)))))

unfoldable pub is_equivalent_to_desired_state : DatabaseSecretEngineConfig → Option Payload → Bool
is_equivalent_to_desired_state d payload = map_equal (reported (to_map d.spec.dbse_config)) payload

unfoldable pub is_valid : DatabaseSecretEngineConfig → Option Error
is_valid r =
    validate_either_from_vault_secret_or_from_secret_or_from_random_secret r.spec.root_credentials
