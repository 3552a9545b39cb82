-- ===== src/Kinds/KubernetesAuthEngineRole.antt =====
-- The resource KubernetesAuthEngineRole: api/v1alpha1/kubernetesauthenginerole_types.go.
use vault_config_operator.Common.{
  String, Bool, ◌+◌, ◌==◌, not, List, Option, none, some, is_some, if◌then◌else◌, str_eq,
}
use vault_config_operator.Common.Int.{ℤ}
use vault_config_operator.Common.Text.{◌^^◌}
use vault_config_operator.Common.Action.{Error, plain}
use vault_config_operator.Paths.{cleanse_path}
use vault_config_operator.Payload.{
  Payload, end, field, str, bool, int, strs, pointer, insert, map_equal,
}
use vault_config_operator.Conditions.{Condition}
use vault_config_operator.KubeAuth.{KubeAuthConfiguration, VaultConnection}
use vault_config_operator.Credentials.{TargetNamespaceConfig, count_of}

pub record VRole : Type 0 where
  pub target_service_accounts : Option (List String)
  pub audience : Option String
  pub alias_name_source : String
  pub token_ttl : ℤ
  pub policies : Option (List String)
  pub token_max_ttl : ℤ
  pub token_bound_cidrs : Option (List String)
  pub token_explicit_max_ttl : ℤ
  pub token_no_default_policy : Bool
  pub token_num_uses : ℤ
  pub token_period : ℤ
  pub token_type : String
  pub namespaces : Option (List String)

pub record KubernetesAuthEngineRoleSpec : Type 0 where
  pub connection : Option VaultConnection
  pub authentication : KubeAuthConfiguration
  pub path : String
  pub v_role : VRole
  pub target_namespaces : TargetNamespaceConfig
  pub name : String

pub record KubernetesAuthEngineRoleStatus : Type 0 where
  pub conditions : List Condition

pub record KubernetesAuthEngineRole : Type 0 where
  pub metadata_name : String
  pub spec : KubernetesAuthEngineRoleSpec
  pub status : KubernetesAuthEngineRoleStatus

unfoldable pub get_path : KubernetesAuthEngineRole → String
get_path d =
    if not (str_eq d.spec.name "")
    then cleanse_path ("auth/" ^^ d.spec.path ^^ "/role/" ^^ d.spec.name)
    else cleanse_path ("auth/" ^^ d.spec.path ^^ "/role/" ^^ d.metadata_name)

abbrev pub plain_map : VRole → Payload
plain_map i = field "bound_service_account_names" (strs i.target_service_accounts) (
    field "bound_service_account_namespaces" (strs i.namespaces) (
      field "alias_name_source" (str i.alias_name_source) (
        field "token_ttl" (int i.token_ttl) (
          field "token_max_ttl" (int i.token_max_ttl) (
            field "token_policies" (strs i.policies) (
              field "token_bound_cidrs" (strs i.token_bound_cidrs) (
                field "token_explicit_max_ttl" (int i.token_explicit_max_ttl) (
                  field "token_no_default_policy" (bool i.token_no_default_policy) (
                    field "token_num_uses" (int i.token_num_uses) (
                      field "token_period" (int i.token_period)
                        (field "token_type" (str i.token_type) end)))))))))))

unfoldable pub to_map : VRole → Payload
to_map i =
    if is_some i.audience then insert "audience" (pointer i.audience) (plain_map i) else plain_map i

unfoldable pub get_payload : KubernetesAuthEngineRole → Payload
get_payload d = to_map d.spec.v_role

unfoldable pub is_equivalent_to_desired_state : KubernetesAuthEngineRole → Option Payload → Bool
is_equivalent_to_desired_state d payload = map_equal (to_map d.spec.v_role) payload

unfoldable pub is_valid : KubernetesAuthEngineRole → Option Error
is_valid r =
    if not (
      count_of (is_some r.spec.target_namespaces.target_namespace_selector)
        + count_of (is_some r.spec.target_namespaces.target_namespaces)
      == 1)
    then some (plain "only one of TargetNamespaceSelector or TargetNamespaces can be specified")
    else none

-- The webhook `ValidateUpdate`, the new object first.
unfoldable pub validate_update : KubernetesAuthEngineRole → KubernetesAuthEngineRole → Option Error
validate_update r old =
    if not (str_eq r.spec.path old.spec.path)
    then some (plain "spec.path cannot be updated")
    else is_valid r
