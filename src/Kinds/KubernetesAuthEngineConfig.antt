-- ===== src/Kinds/KubernetesAuthEngineConfig.antt =====
-- The resource KubernetesAuthEngineConfig: api/v1alpha1/kubernetesauthengineconfig_types.go.
use vault_config_operator.Common.{
  String, Bool, not, List, Option, none, some, if◌then◌else◌, str_eq,
}
use vault_config_operator.Common.Text.{◌^^◌}
use vault_config_operator.Common.Action.{Error, plain}
use vault_config_operator.Paths.{cleanse_path}
use vault_config_operator.Payload.{Payload, end, field, str, bool, strs, map_equal}
use vault_config_operator.Conditions.{Condition}
use vault_config_operator.KubeAuth.{KubeAuthConfiguration, VaultConnection}

pub record KaecConfig : Type 0 where
  pub kubernetes_host : String
  pub kubernetes_ca_cert : String
  pub pem_keys : Option (List String)
  pub issuer : String
  pub disable_iss_validation : Bool
  pub disable_local_ca_jwt : Bool
  pub use_operator_pod_ca : Bool
  pub use_annotations_as_alias_metadata : Bool
  pub retrieved_token_reviewer_jwt : String

pub record KubernetesAuthEngineConfigSpec : Type 0 where
  pub connection : Option VaultConnection
  pub authentication : KubeAuthConfiguration
  pub path : String
  pub kaec_config : KaecConfig
  pub token_reviewer_service_account : Option String
  pub name : String

pub record KubernetesAuthEngineConfigStatus : Type 0 where
  pub conditions : List Condition

pub record KubernetesAuthEngineConfig : Type 0 where
  pub metadata_name : String
  pub spec : KubernetesAuthEngineConfigSpec
  pub status : KubernetesAuthEngineConfigStatus

unfoldable pub get_path : KubernetesAuthEngineConfig → String
get_path d =
    if not (str_eq d.spec.name "")
    then cleanse_path ("auth/" ^^ d.spec.path ^^ "/" ^^ d.spec.name ^^ "/config")
    else cleanse_path ("auth/" ^^ d.spec.path ^^ "/" ^^ d.metadata_name ^^ "/config")

unfoldable pub to_map : KaecConfig → Payload
to_map i = field "kubernetes_host" (str i.kubernetes_host) (
    field "kubernetes_ca_cert" (str i.kubernetes_ca_cert) (
      field "token_reviewer_jwt" (str i.retrieved_token_reviewer_jwt) (
        field "pem_keys" (strs i.pem_keys) (
          field "issuer" (str i.issuer) (
            field "disable_iss_validation" (bool i.disable_iss_validation) (
              field "disable_local_ca_jwt" (bool i.disable_local_ca_jwt) (
                field "use_annotations_as_alias_metadata" (bool i.use_annotations_as_alias_metadata)
                  end)))))))

unfoldable pub get_payload : KubernetesAuthEngineConfig → Payload
get_payload d = to_map d.spec.kaec_config

unfoldable pub is_equivalent_to_desired_state : KubernetesAuthEngineConfig → Option Payload → Bool
is_equivalent_to_desired_state d payload = map_equal (to_map d.spec.kaec_config) payload

-- The webhook `ValidateUpdate`, the new object first.
unfoldable pub validate_update :
    KubernetesAuthEngineConfig → KubernetesAuthEngineConfig → Option Error
validate_update r old =
    if not (str_eq r.spec.path old.spec.path)
    then some (plain "spec.path cannot be updated")
    else none
