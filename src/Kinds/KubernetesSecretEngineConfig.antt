-- ===== src/Kinds/KubernetesSecretEngineConfig.antt =====
-- The resource KubernetesSecretEngineConfig: api/v1alpha1/kubernetessecretengineconfig_types.go.
use vault_config_operator.Common.{String, Bool, not, List, Option, some, if◌then◌else◌, str_eq}
use vault_config_operator.Common.Text.{◌^^◌}
use vault_config_operator.Common.Action.{Error, plain}
use vault_config_operator.Payload.{Payload, end, field, str, bool, erase, map_equal}
use vault_config_operator.Conditions.{Condition}
use vault_config_operator.KubeAuth.{KubeAuthConfiguration, VaultConnection}
use vault_config_operator.Credentials.{
  RootCredentialConfig, validate_either_from_vault_secret_or_from_secret,
}

pub record KubeSeConfig : Type 0 where
  pub kubernetes_host : String
  pub kubernetes_ca_cert : String
  pub disable_local_ca_jwt : Bool
  pub retrieved_service_account_jwt : String

pub record KubernetesSecretEngineConfigSpec : Type 0 where
  pub connection : Option VaultConnection
  pub authentication : KubeAuthConfiguration
  pub path : String
  pub jwt_reference : RootCredentialConfig
  pub kube_se_config : KubeSeConfig

pub record KubernetesSecretEngineConfigStatus : Type 0 where
  pub conditions : List Condition

pub record KubernetesSecretEngineConfig : Type 0 where
  pub metadata_name : String
  pub spec : KubernetesSecretEngineConfigSpec
  pub status : KubernetesSecretEngineConfigStatus

unfoldable pub get_path : KubernetesSecretEngineConfig → String
get_path d = d.spec.path ^^ "/" ^^ "config"

unfoldable pub to_map : KubeSeConfig → Payload
to_map i = field "kubernetes_host" (str i.kubernetes_host) (
    field "kubernetes_ca_cert" (str i.kubernetes_ca_cert) (
      field "service_account_jwt" (str i.retrieved_service_account_jwt)
        (field "disable_local_ca_jwt" (bool i.disable_local_ca_jwt) end)))

unfoldable pub get_payload : KubernetesSecretEngineConfig → Payload
get_payload d = to_map d.spec.kube_se_config

unfoldable pub is_equivalent_to_desired_state : KubernetesSecretEngineConfig → Option Payload → Bool
is_equivalent_to_desired_state d payload =
    map_equal (erase "service_account_jwt" (to_map d.spec.kube_se_config)) payload

unfoldable pub is_valid : KubernetesSecretEngineConfig → Option Error
is_valid r = validate_either_from_vault_secret_or_from_secret r.spec.jwt_reference

-- The webhook `ValidateUpdate`, the new object first.
unfoldable pub validate_update :
    KubernetesSecretEngineConfig → KubernetesSecretEngineConfig → Option Error
validate_update r old =
    if not (str_eq r.spec.path old.spec.path)
    then some (plain "spec.path cannot be updated")
    else is_valid r
