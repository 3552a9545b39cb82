-- ===== src/Kinds/KubernetesSecretEngineRole.antt =====
-- The resource KubernetesSecretEngineRole: api/v1alpha1/kubernetessecretenginerole_types.go.
use vault_config_operator.Common.{
  String, Bool, not, List, Option, none, some, if◌then◌else◌, str_eq,
}
use vault_config_operator.Common.Int.{ℤ}
use vault_config_operator.Common.Text.{◌^^◌}
use vault_config_operator.Common.Action.{Error, plain}
use vault_config_operator.Paths.{cleanse_path}
use vault_config_operator.Payload.{Payload, end, field, str, strs, dict, duration, map_equal}
use vault_config_operator.Conditions.{Condition}
use vault_config_operator.KubeAuth.{KubeAuthConfiguration, VaultConnection}

pub record KubeSeRole : Type 0 where
  pub allowed_kubernetes_namespaces : Option (List String)
  pub allowed_kubernetes_namespace_selector : String
  pub default_ttl : ℤ
  pub max_ttl : ℤ
  pub default_audiences : String
  pub service_account_name : String
  pub kubernetes_role_name : String
  pub kubernetes_role_type : String
  pub generate_role_rules : String
  pub name_template : String
  pub extra_annotations : Option (List (String × String))
  pub extra_labels : Option (List (String × String))

pub record KubernetesSecretEngineRoleSpec : Type 0 where
  pub connection : Option VaultConnection
  pub authentication : KubeAuthConfiguration
  pub path : String
  pub kube_se_role : KubeSeRole
  pub name : String

pub record KubernetesSecretEngineRoleStatus : Type 0 where
  pub conditions : List Condition

pub record KubernetesSecretEngineRole : Type 0 where
  pub metadata_name : String
  pub spec : KubernetesSecretEngineRoleSpec
  pub status : KubernetesSecretEngineRoleStatus

unfoldable pub get_path : KubernetesSecretEngineRole → String
get_path d =
    if not (str_eq d.spec.name "")
    then cleanse_path (d.spec.path ^^ "/" ^^ "roles" ^^ "/" ^^ d.spec.name)
    else cleanse_path (d.spec.path ^^ "/" ^^ "roles" ^^ "/" ^^ d.metadata_name)

unfoldable pub to_map : KubeSeRole → Payload
to_map i = field "allowed_kubernetes_namespaces" (strs i.allowed_kubernetes_namespaces) (
    field "allowed_kubernetes_namespace_selector" (str i.allowed_kubernetes_namespace_selector) (
      field "token_max_ttl" (duration i.default_ttl) (
        field "token_default_ttl" (duration i.max_ttl) (
          field "token_default_audiences" (str i.default_audiences) (
            field "service_account_name" (str i.service_account_name) (
              field "kubernetes_role_name" (str i.kubernetes_role_name) (
                field "kubernetes_role_type" (str i.kubernetes_role_type) (
                  field "generated_role_rules" (str i.generate_role_rules) (
                    field "name_template" (str i.name_template) (
                      field "extra_annotations" (dict i.extra_annotations)
                        (field "extra_labels" (dict i.extra_labels) end)))))))))))

unfoldable pub get_payload : KubernetesSecretEngineRole → Payload
get_payload d = to_map d.spec.kube_se_role

unfoldable pub is_equivalent_to_desired_state : KubernetesSecretEngineRole → Option Payload → Bool
is_equivalent_to_desired_state d payload = map_equal (to_map d.spec.kube_se_role) payload

-- The webhook `ValidateUpdate`, the new object first.
unfoldable pub validate_update :
    KubernetesSecretEngineRole → KubernetesSecretEngineRole → Option Error
validate_update r old =
    if not (str_eq r.spec.path old.spec.path)
    then some (plain "spec.path cannot be updated")
    else none
