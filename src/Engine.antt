-- ===== src/Engine.antt =====
-- The endpoint of a secret or auth engine: api/v1alpha1/utils/vaultengineobject.go.

use vault_config_operator.Common.{
  String, Bool, true, false, not, Option, none, some, if◌then◌else◌, str_eq,
}
use vault_config_operator.Common.Action.{
  plain, Result, ok, err, panic, Action, pure, of_result, get, ◌>>=◌,
}
use vault_config_operator.Common.Text.{◌^^◌, trim, trim_prefix}
use vault_config_operator.Payload.{Payload, Fields, end, field, Value, str, obj, lookup}
use vault_config_operator.Vault.{Vault, Secret, read, write}
use vault_config_operator.Endpoint.{Cell, VaultObject, in_world}

-- Interface `VaultEngineObject`.
pub record VaultEngineObject (O : Type 0) : Type 0 where
  pub get_engine_list_path : O → String
  pub get_engine_tune_path : O → String
  pub get_tune_payload : O → Payload
  pub set_accessor : String → O → O

-- `x.(map[string]interface{})`
abbrev pub as_map : Value → Result Fields
as_map (obj m) = ok m
as_map _ = panic

-- `x.(string)`
abbrev pub as_string : Value → Result String
as_string (str s) = ok s
as_string _ = panic

-- The search of `retrieveAccessor` through the engines that Vault lists; Go visits the entries of
-- the map in any order.
unfoldable pub find_engine : String → Fields → Option Value
find_engine name end = none
find_engine name (field key entry m) =
    if str_eq (trim key) name then some entry else find_engine name m

abbrev pub accessor_field : Option Value → Result String
accessor_field none = panic
accessor_field (some a) = as_string a

abbrev pub accessor_of_map : Result Fields → Result (String × Bool)
accessor_of_map (ok m) = elim (accessor_field (lookup "accessor" m)) [
  | ok a ↦ ok (a, true)
  | err e ↦ err e
  | panic ↦ panic
]
accessor_of_map (err e) = err e
accessor_of_map panic = panic

abbrev pub accessor_of_entry : Option Value → Result (String × Bool)
accessor_of_entry none = ok ("", false)
accessor_of_entry (some entry) = accessor_of_map (as_map entry)

-- A nil map has no entries.
abbrev pub entries_of : Option Payload → Fields
entries_of none = end
entries_of (some m) = m

abbrev pub accessor_in : String → Option Secret → Result (String × Bool)
accessor_in name none = err (plain "read returned null secret")
accessor_in name (some secret) = accessor_of_entry (find_engine name (entries_of secret.contents))

module _ {O W : Type 0} (v : Vault W) (o : VaultObject O W) (g : VaultEngineObject O) where
  -- The engine's name as it stands in the list: its path below the list's, with no slash around.
  abbrev pub engine_name : O → String
  engine_name x = trim (trim_prefix (g.get_engine_list_path x) (o.get_path x))

  unfoldable pub retrieve_accessor : Action (Cell O W) (String × Bool)
  retrieve_accessor = do
    c ← get
    secret ← in_world (v.logical_read (g.get_engine_list_path c.object))
    of_result (accessor_in (engine_name c.object) secret)

  unfoldable pub get_accessor : Action (Cell O W) String
  get_accessor = do found ← retrieve_accessor; pure found.0

  unfoldable pub engine_exists : Action (Cell O W) Bool
  engine_exists = do found ← retrieve_accessor; pure found.1

  -- `Data` of a secret that was read, or an error where the map is nil.
  abbrev pub tune_answer : String → Option Payload → Result (Option Payload)
  tune_answer path none = err (plain ("nul tune config found at path " ^^ path))
  tune_answer path (some m) = ok (some m)

  unfoldable pub read_tune_config : Action (Cell O W) (Option Payload)
  read_tune_config = do
    c ← get
    answer ← in_world (read v (g.get_engine_tune_path c.object))
    of_result (tune_answer (g.get_engine_tune_path c.object) answer.0)

  unfoldable pub create_or_update_tune_config : Action (Cell O W) (Unit {0})
  create_or_update_tune_config = do
    c ← get
    current ← read_tune_config
    if not (o.is_equivalent_to_desired_state c.object current)
        then in_world (write v (g.get_engine_tune_path c.object) (g.get_tune_payload c.object))
        else pure tt
