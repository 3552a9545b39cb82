-- ===== src/Kinds/CertAuthEngineConfig.antt =====
-- The resource CertAuthEngineConfig: api/v1alpha1/certauthengineconfig_types.go.
use vault_config_operator.Common.{
  String, Bool, not, List, Option, none, some, if◌then◌else◌, str_eq,
}
use vault_config_operator.Common.Int.{ℤ}
use vault_config_operator.Common.Text.{◌^^◌}
use vault_config_operator.Common.Action.{Error, plain}
use vault_config_operator.Paths.{cleanse_path}
use vault_config_operator.Payload.{Payload, end, field, bool, int, map_equal}
use vault_config_operator.Conditions.{Condition}
use vault_config_operator.KubeAuth.{KubeAuthConfiguration, VaultConnection}

pub record CertAuthEngineConfigInternal : Type 0 where
  pub disable_binding : Bool
  pub enable_identity_alias_metadata : Bool
  pub ocsp_cache_size : ℤ
  pub role_cache_size : ℤ

pub record CertAuthEngineConfigSpec : Type 0 where
  pub connection : Option VaultConnection
  pub authentication : KubeAuthConfiguration
  pub path : String
  pub name : String
  pub cert_auth_engine_config_internal : CertAuthEngineConfigInternal

pub record CertAuthEngineConfigStatus : Type 0 where
  pub conditions : List Condition

pub record CertAuthEngineConfig : Type 0 where
  pub metadata_name : String
  pub spec : CertAuthEngineConfigSpec
  pub status : CertAuthEngineConfigStatus

unfoldable pub get_path : CertAuthEngineConfig → String
get_path d =
    if not (str_eq d.spec.name "")
    then cleanse_path ("auth/" ^^ d.spec.path ^^ "/" ^^ d.spec.name ^^ "/config")
    else cleanse_path ("auth/" ^^ d.spec.path ^^ "/" ^^ d.metadata_name ^^ "/config")

unfoldable pub to_map : CertAuthEngineConfigInternal → Payload
to_map i = field "disable_binding" (bool i.disable_binding) (
    field "enable_identity_alias_metadata" (bool i.enable_identity_alias_metadata) (
      field "ocsp_cache_size" (int i.ocsp_cache_size)
        (field "role_cache_size" (int i.role_cache_size) end)))

unfoldable pub get_payload : CertAuthEngineConfig → Payload
get_payload d = to_map d.spec.cert_auth_engine_config_internal

unfoldable pub is_equivalent_to_desired_state : CertAuthEngineConfig → Option Payload → Bool
is_equivalent_to_desired_state d payload =
    map_equal (to_map d.spec.cert_auth_engine_config_internal) payload

-- The webhook `ValidateUpdate`, the new object first.
unfoldable pub validate_update : CertAuthEngineConfig → CertAuthEngineConfig → Option Error
validate_update r old =
    if not (str_eq r.spec.path old.spec.path)
    then some (plain "spec.path cannot be updated")
    else if not (str_eq r.spec.name old.spec.name)
    then some (plain "spec.name cannot be updated")
    else none
