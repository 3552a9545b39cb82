-- ===== src/SecretEngine.antt =====
-- The resource SecretEngineMount: api/v1alpha1/secretenginemount_types.go.
pub mod Drift
mod Tests
use vault_config_operator.Common.{
  String, Bool, true, false, not, List, Option, none, some, if◌then◌else◌, str_eq,
}
use vault_config_operator.Common.Action.{ok}
use vault_config_operator.Common.Text.{◌^^◌}
use vault_config_operator.Paths.{cleanse_path}
use vault_config_operator.Payload.{
  Payload, end, field, str, bool, strs, dict, obj, erase, map_equal,
}
use vault_config_operator.Endpoint.{VaultObject}
use vault_config_operator.Engine.{VaultEngineObject}
use vault_config_operator.Conditions.{Condition}
use vault_config_operator.KubeAuth.{KubeAuthConfiguration, VaultConnection}

-- A nil slice or map is `none`.
pub record MountConfig : Type 0 where
  pub default_lease_ttl : String
  pub max_lease_ttl : String
  pub force_no_cache : Bool
  pub audit_non_hmac_request_keys : Option (List String)
  pub audit_non_hmac_response_keys : Option (List String)
  pub listing_visibility : String
  pub passthrough_request_headers : Option (List String)
  pub allowed_response_headers : Option (List String)

pub record Mount : Type 0 where
  pub kind : String
  pub description : String
  pub config : MountConfig
  pub is_local : Bool
  pub seal_wrap : Bool
  pub external_entropy_access : Bool
  pub options : Option (List (String × String))

pub record SecretEngineMountSpec : Type 0 where
  pub connection : Option VaultConnection
  pub authentication : KubeAuthConfiguration
  pub mount : Mount
  pub path : String
  pub name : String

pub record SecretEngineMountStatus : Type 0 where
  pub conditions : List Condition
  pub accessor : String

pub record SecretEngineMount : Type 0 where
  pub metadata_name : String
  pub spec : SecretEngineMountSpec
  pub status : SecretEngineMountStatus

unfoldable pub config_to_map : MountConfig → Payload
config_to_map mc = field "default_lease_ttl" (str mc.default_lease_ttl) (
    field "max_lease_ttl" (str mc.max_lease_ttl) (
      field "force_no_cache" (bool mc.force_no_cache) (
        field "audit_non_hmac_request_keys" (strs mc.audit_non_hmac_request_keys) (
          field "audit_non_hmac_response_keys" (strs mc.audit_non_hmac_response_keys) (
            field "listing_visibility" (str mc.listing_visibility) (
              field "passthrough_request_headers" (strs mc.passthrough_request_headers)
                (field "allowed_response_headers" (strs mc.allowed_response_headers) end)))))))

unfoldable pub mount_to_map : Mount → Payload
mount_to_map m = field "type" (str m.kind) (
    field "description" (str m.description) (
      field "config" (obj (config_to_map m.config)) (
        field "local" (bool m.is_local) (
          field "seal_wrap" (bool m.seal_wrap) (
            field "external_entropy_access" (bool m.external_entropy_access)
              (field "options" (dict m.options) end))))))

abbrev pub get_engine_list_path : SecretEngineMount → String
get_engine_list_path d = "sys/mounts"

-- The name of the mount: `spec.name` if it is given.
abbrev pub name_of : SecretEngineMount → String
name_of d = if not (str_eq d.spec.name "") then d.spec.name else d.metadata_name

unfoldable pub get_path : SecretEngineMount → String
get_path d =
    if not (str_eq d.spec.path "")
    then cleanse_path (get_engine_list_path d ^^ "/" ^^ d.spec.path ^^ "/" ^^ name_of d)
    else cleanse_path (get_engine_list_path d ^^ "/" ^^ name_of d)

unfoldable pub get_payload : SecretEngineMount → Payload
get_payload d = mount_to_map d.spec.mount

unfoldable pub is_equivalent_to_desired_state : SecretEngineMount → Option Payload → Bool
is_equivalent_to_desired_state d payload =
    map_equal (erase "description" (erase "options" (config_to_map d.spec.mount.config))) payload

unfoldable pub get_engine_tune_path : SecretEngineMount → String
get_engine_tune_path d = get_path d ^^ "/tune"

unfoldable pub get_tune_payload : SecretEngineMount → Payload
get_tune_payload d = config_to_map d.spec.mount.config

unfoldable pub set_accessor : String → SecretEngineMount → SecretEngineMount
set_accessor accessor d = record d { status = record (d.status) { accessor = accessor } }

-- The methods of interfaces `VaultObject` and `VaultEngineObject`.
abbrev pub mounts : {W : Type 0} → VaultObject SecretEngineMount W
mounts = record {
  get_path = λ d. get_path d;
  get_payload = λ d. get_payload d;
  is_equivalent_to_desired_state = λ d payload. is_equivalent_to_desired_state d payload;
  prepare_internal_values = λ c. (ok tt, c);
  prepare_tls_config = λ c. (ok tt, c);
}

abbrev pub mount_engines : VaultEngineObject SecretEngineMount
mount_engines = record {
  get_engine_list_path = λ d. get_engine_list_path d;
  get_engine_tune_path = λ d. get_engine_tune_path d;
  get_tune_payload = λ d. get_tune_payload d;
  set_accessor = λ accessor d. set_accessor accessor d;
}
