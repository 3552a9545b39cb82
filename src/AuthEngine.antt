-- ===== src/AuthEngine.antt =====
-- The resource AuthEngineMount: api/v1alpha1/authenginemount_types.go and its webhook.
pub mod Webhook
use vault_config_operator.Common.{
  String, Bool, true, false, not, ◌&&◌, List, Option, none, some, if◌then◌else◌, str_eq,
}
use vault_config_operator.Common.Action.{Error, plain, ok}
use vault_config_operator.Common.Text.{◌^^◌}
use vault_config_operator.Paths.{cleanse_path}
use vault_config_operator.Payload.{
  Payload, end, field, str, bool, strs, dict, pointer, obj, map_equal, bool_eq,
}
use vault_config_operator.Endpoint.{VaultObject}
use vault_config_operator.Engine.{VaultEngineObject}
use vault_config_operator.Conditions.{Condition}
use vault_config_operator.KubeAuth.{KubeAuthConfiguration, VaultConnection}

-- A nil slice, map or pointer is `none`.
pub record AuthMountConfig : Type 0 where
  pub default_lease_ttl : String
  pub max_lease_ttl : String
  pub audit_non_hmac_request_keys : Option (List String)
  pub audit_non_hmac_response_keys : Option (List String)
  pub listing_visibility : String
  pub passthrough_request_headers : Option (List String)
  pub allowed_response_headers : Option (List String)
  pub options : Option (List (String × String))
  pub token_type : String
  pub description : Option String

pub record AuthMount : Type 0 where
  pub description : String
  pub kind : String
  pub config : AuthMountConfig
  pub is_local : Bool
  pub seal_wrap : Bool

pub record AuthEngineMountSpec : Type 0 where
  pub connection : Option VaultConnection
  pub authentication : KubeAuthConfiguration
  pub auth_mount : AuthMount
  pub path : String
  pub name : String

pub record AuthEngineMountStatus : Type 0 where
  pub conditions : List Condition
  pub accessor : String

pub record AuthEngineMount : Type 0 where
  pub metadata_name : String
  pub spec : AuthEngineMountSpec
  pub status : AuthEngineMountStatus

unfoldable pub config_to_map : AuthMountConfig → Payload
config_to_map mc = field "default_lease_ttl" (str mc.default_lease_ttl) (
    field "max_lease_ttl" (str mc.max_lease_ttl) (
      field "audit_non_hmac_request_keys" (strs mc.audit_non_hmac_request_keys) (
        field "audit_non_hmac_response_keys" (strs mc.audit_non_hmac_response_keys) (
          field "listing_visibility" (str mc.listing_visibility) (
            field "passthrough_request_headers" (strs mc.passthrough_request_headers) (
              field "allowed_response_headers" (strs mc.allowed_response_headers) (
                field "token_type" (str mc.token_type) (
                  field "description" (pointer mc.description)
                    (field "options" (dict mc.options) end)))))))))

unfoldable pub auth_mount_to_map : AuthMount → Payload
auth_mount_to_map m = field "type" (str m.kind) (
    field "description" (str m.description) (
      field "config" (obj (config_to_map m.config))
        (field "local" (bool m.is_local) (field "seal_wrap" (bool m.seal_wrap) end))))

abbrev pub get_engine_list_path : AuthEngineMount → String
get_engine_list_path d = "sys/auth"

unfoldable pub get_path : AuthEngineMount → String
get_path d =
    if not (str_eq d.spec.name "")
    then cleanse_path (get_engine_list_path d ^^ "/" ^^ d.spec.path ^^ "/" ^^ d.spec.name)
    else cleanse_path (get_engine_list_path d ^^ "/" ^^ d.spec.path ^^ "/" ^^ d.metadata_name)

unfoldable pub get_payload : AuthEngineMount → Payload
get_payload d = auth_mount_to_map d.spec.auth_mount

unfoldable pub is_equivalent_to_desired_state : AuthEngineMount → Option Payload → Bool
is_equivalent_to_desired_state d payload =
    map_equal (config_to_map d.spec.auth_mount.config) payload

unfoldable pub get_engine_tune_path : AuthEngineMount → String
get_engine_tune_path d = get_path d ^^ "/tune"

unfoldable pub get_tune_payload : AuthEngineMount → Payload
get_tune_payload d = config_to_map d.spec.auth_mount.config

unfoldable pub set_accessor : String → AuthEngineMount → AuthEngineMount
set_accessor accessor d = record d { status = record (d.status) { accessor = accessor } }

-- `reflect.DeepEqual` on two mounts with the zero configuration.
abbrev pub is_same_mount : AuthMount → AuthMount → Bool
is_same_mount m n =
    str_eq m.description n.description
    && (str_eq m.kind n.kind && (bool_eq m.is_local n.is_local && bool_eq m.seal_wrap n.seal_wrap))

-- The webhook `ValidateUpdate`, the new object first.
unfoldable pub validate_update : AuthEngineMount → AuthEngineMount → Option Error
validate_update r old =
    if not (str_eq r.spec.path old.spec.path)
    then some (plain "spec.path cannot be updated")
    else if not (is_same_mount old.spec.auth_mount r.spec.auth_mount)
    then some (plain "only .spec.config can be modified")
    else none

-- The methods of interfaces `VaultObject` and `VaultEngineObject`.
abbrev pub auth_mounts : {W : Type 0} → VaultObject AuthEngineMount W
auth_mounts = record {
  get_path = λ d. get_path d;
  get_payload = λ d. get_payload d;
  is_equivalent_to_desired_state = λ d payload. is_equivalent_to_desired_state d payload;
  prepare_internal_values = λ c. (ok tt, c);
  prepare_tls_config = λ c. (ok tt, c);
}

abbrev pub auth_mount_engines : VaultEngineObject AuthEngineMount
auth_mount_engines = record {
  get_engine_list_path = λ d. get_engine_list_path d;
  get_engine_tune_path = λ d. get_engine_tune_path d;
  get_tune_payload = λ d. get_tune_payload d;
  set_accessor = λ accessor d. set_accessor accessor d;
}
