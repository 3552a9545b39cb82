-- ===== src/Kinds/AzureAuthEngineRole.antt =====
-- The resource AzureAuthEngineRole: api/v1alpha1/azureauthenginerole_types.go.
use vault_config_operator.Common.{String, Bool, List, Option}
use vault_config_operator.Common.Int.{ℤ}
use vault_config_operator.Common.Text.{◌^^◌}
use vault_config_operator.Paths.{cleanse_path}
use vault_config_operator.Payload.{Payload, end, field, str, bool, int, strs, map_equal}
use vault_config_operator.Conditions.{Condition}
use vault_config_operator.KubeAuth.{KubeAuthConfiguration, VaultConnection}

pub record AzureRole : Type 0 where
  pub name : String
  pub bound_service_principal_ids : Option (List String)
  pub bound_group_ids : Option (List String)
  pub bound_locations : Option (List String)
  pub bound_subscription_ids : Option (List String)
  pub bound_resource_groups : Option (List String)
  pub bound_scale_sets : Option (List String)
  pub token_ttl : String
  pub token_max_ttl : String
  pub token_policies : Option (List String)
  pub policies : Option (List String)
  pub token_bound_cidrs : Option (List String)
  pub token_explicit_max_ttl : String
  pub token_no_default_policy : Bool
  pub token_num_uses : ℤ
  pub token_period : ℤ
  pub token_type : String

pub record AzureAuthEngineRoleSpec : Type 0 where
  pub connection : Option VaultConnection
  pub authentication : KubeAuthConfiguration
  pub path : String
  pub azure_role : AzureRole

pub record AzureAuthEngineRoleStatus : Type 0 where
  pub conditions : List Condition

pub record AzureAuthEngineRole : Type 0 where
  pub metadata_name : String
  pub spec : AzureAuthEngineRoleSpec
  pub status : AzureAuthEngineRoleStatus

unfoldable pub get_path : AzureAuthEngineRole → String
get_path d = cleanse_path ("auth/" ^^ d.spec.path ^^ "/role/" ^^ d.spec.azure_role.name)

unfoldable pub to_map : AzureRole → Payload
to_map i = field "name" (str i.name) (
    field "bound_service_principal_ids" (strs i.bound_service_principal_ids) (
      field "bound_group_ids" (strs i.bound_group_ids) (
        field "bound_locations" (strs i.bound_locations) (
          field "bound_subscription_ids" (strs i.bound_subscription_ids) (
            field "bound_resource_groups" (strs i.bound_resource_groups) (
              field "bound_scale_sets" (strs i.bound_scale_sets) (
                field "token_ttl" (str i.token_ttl) (
                  field "token_max_ttl" (str i.token_max_ttl) (
                    field "token_policies" (strs i.token_policies) (
                      field "policies" (strs i.policies) (
                        field "token_bound_cidrs" (strs i.token_bound_cidrs) (
                          field "token_explicit_max_ttl" (str i.token_explicit_max_ttl) (
                            field "token_no_default_policy" (bool i.token_no_default_policy) (
                              field "token_num_uses" (int i.token_num_uses) (
                                field "token_period" (int i.token_period)
                                  (field "token_type" (str i.token_type) end))))))))))))))))

unfoldable pub get_payload : AzureAuthEngineRole → Payload
get_payload d = to_map d.spec.azure_role

unfoldable pub is_equivalent_to_desired_state : AzureAuthEngineRole → Option Payload → Bool
is_equivalent_to_desired_state d payload = map_equal (to_map d.spec.azure_role) payload
