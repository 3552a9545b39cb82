-- ===== src/Kinds/GcpAuthEngineRole.antt =====
-- The resource GCPAuthEngineRole: api/v1alpha1/gcpauthenginerole_types.go.
use vault_config_operator.Common.{String, Bool, List, Option}
use vault_config_operator.Common.Int.{ℤ}
use vault_config_operator.Common.Text.{◌^^◌}
use vault_config_operator.Paths.{cleanse_path}
use vault_config_operator.Payload.{Payload, end, field, str, bool, int, strs, map_equal}
use vault_config_operator.Conditions.{Condition}
use vault_config_operator.KubeAuth.{KubeAuthConfiguration, VaultConnection}

pub record GcpRole : Type 0 where
  pub name : String
  pub kind : String
  pub bound_service_accounts : Option (List String)
  pub bound_projects : Option (List String)
  pub add_group_aliases : Bool
  pub token_ttl : String
  pub token_max_ttl : String
  pub token_policies : Option (List String)
  pub policies : Option (List String)
  pub token_bound_cidrs : Option (List String)
  pub token_explicit_max_ttl : String
  pub token_no_default_policy : Bool
  pub token_num_uses : ℤ
  pub token_period : ℤ
  pub token_type : String
  pub max_jwt_exp : String
  pub allow_gce_inference : Bool
  pub bound_zones : Option (List String)
  pub bound_regions : Option (List String)
  pub bound_instance_groups : Option (List String)
  pub bound_labels : Option (List String)

pub record GcpAuthEngineRoleSpec : Type 0 where
  pub connection : Option VaultConnection
  pub authentication : KubeAuthConfiguration
  pub path : String
  pub gcp_role : GcpRole

pub record GcpAuthEngineRoleStatus : Type 0 where
  pub conditions : List Condition

pub record GcpAuthEngineRole : Type 0 where
  pub metadata_name : String
  pub spec : GcpAuthEngineRoleSpec
  pub status : GcpAuthEngineRoleStatus

unfoldable pub get_path : GcpAuthEngineRole → String
get_path d = cleanse_path ("auth/" ^^ d.spec.path ^^ "/role/" ^^ d.spec.gcp_role.name)

unfoldable pub to_map : GcpRole → Payload
to_map i = field "name" (str i.name) (
    field "type" (str i.kind) (
      field "bound_service_accounts" (strs i.bound_service_accounts) (
        field "bound_projects" (strs i.bound_projects) (
          field "add_group_aliases" (bool i.add_group_aliases) (
            field "token_ttl" (str i.token_ttl) (
              field "token_max_ttl" (str i.token_max_ttl) (
                field "token_policies" (strs i.token_policies) (
                  field "policies" (strs i.policies) (
                    field "token_bound_cidrs" (strs i.token_bound_cidrs) (
                      field "token_explicit_max_ttl" (str i.token_explicit_max_ttl) (
                        field "token_no_default_policy" (bool i.token_no_default_policy) (
                          field "token_num_uses" (int i.token_num_uses) (
                            field "token_period" (int i.token_period) (
                              field "token_type" (str i.token_type) (
                                field "max_jwt_exp" (str i.max_jwt_exp) (
                                  field "allow_gce_inference" (bool i.allow_gce_inference) (
                                    field "bound_zones" (strs i.bound_zones) (
                                      field "bound_regions" (strs i.bound_regions) (
                                        field "bound_instance_groups" (strs i.bound_instance_groups)
                                          (field "bound_labels" (strs i.bound_labels)
                                            end))))))))))))))))))))

unfoldable pub get_payload : GcpAuthEngineRole → Payload
get_payload d = to_map d.spec.gcp_role

unfoldable pub is_equivalent_to_desired_state : GcpAuthEngineRole → Option Payload → Bool
is_equivalent_to_desired_state d payload = map_equal (to_map d.spec.gcp_role) payload
