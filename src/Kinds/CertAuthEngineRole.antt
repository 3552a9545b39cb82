-- ===== src/Kinds/CertAuthEngineRole.antt =====
-- The resource CertAuthEngineRole: api/v1alpha1/certauthenginerole_types.go.
use vault_config_operator.Common.{
  String, Bool, not, List, Option, none, some, if◌then◌else◌, str_eq,
}
use vault_config_operator.Common.Int.{ℤ}
use vault_config_operator.Common.Text.{◌^^◌}
use vault_config_operator.Common.Action.{Error, plain}
use vault_config_operator.Paths.{cleanse_path}
use vault_config_operator.Payload.{Payload, end, field, str, bool, int, strs, map_equal}
use vault_config_operator.Conditions.{Condition}
use vault_config_operator.KubeAuth.{KubeAuthConfiguration, VaultConnection}

pub record CertAuthEngineRoleInternal : Type 0 where
  pub certificate : String
  pub allowed_common_names : Option (List String)
  pub allowed_dns_sans : Option (List String)
  pub allowed_email_sans : Option (List String)
  pub allowed_uri_sans : Option (List String)
  pub allowed_organizational_units : Option (List String)
  pub required_extensions : Option (List String)
  pub allowed_metadata_extensions : Option (List String)
  pub ocsp_enabled : Bool
  pub ocsp_ca_certificates : String
  pub ocsp_servers_override : Option (List String)
  pub ocsp_fail_open : Bool
  pub ocsp_this_update_max_age : String
  pub ocsp_max_retries : ℤ
  pub ocsp_query_all_servers : Bool
  pub display_name : String
  pub token_ttl : String
  pub token_max_ttl : String
  pub token_policies : Option (List String)
  pub token_bound_cidrs : Option (List String)
  pub token_explicit_max_ttl : String
  pub token_no_default_policy : Bool
  pub token_num_uses : ℤ
  pub token_period : String
  pub token_type : String

pub record CertAuthEngineRoleSpec : Type 0 where
  pub connection : Option VaultConnection
  pub authentication : KubeAuthConfiguration
  pub path : String
  pub name : String
  pub cert_auth_engine_role_internal : CertAuthEngineRoleInternal

pub record CertAuthEngineRoleStatus : Type 0 where
  pub conditions : List Condition

pub record CertAuthEngineRole : Type 0 where
  pub metadata_name : String
  pub spec : CertAuthEngineRoleSpec
  pub status : CertAuthEngineRoleStatus

unfoldable pub get_path : CertAuthEngineRole → String
get_path d =
    if not (str_eq d.spec.name "")
    then cleanse_path ("auth/" ^^ d.spec.path ^^ "/certs/" ^^ d.spec.name)
    else cleanse_path ("auth/" ^^ d.spec.path ^^ "/certs/" ^^ d.metadata_name)

unfoldable pub to_map : CertAuthEngineRoleInternal → Payload
to_map i = field "certificate" (str i.certificate) (
    field "allowed_common_names" (strs i.allowed_common_names) (
      field "allowed_dns_sans" (strs i.allowed_dns_sans) (
        field "allowed_email_sans" (strs i.allowed_email_sans) (
          field "allowed_uri_sans" (strs i.allowed_uri_sans) (
            field "allowed_organizational_units" (strs i.allowed_organizational_units) (
              field "required_extensions" (strs i.required_extensions) (
                field "allowed_metadata_extensions" (strs i.allowed_metadata_extensions) (
                  field "ocsp_enabled" (bool i.ocsp_enabled) (
                    field "ocsp_ca_certificates" (str i.ocsp_ca_certificates) (
                      field "ocsp_servers_override" (strs i.ocsp_servers_override) (
                        field "ocsp_fail_open" (bool i.ocsp_fail_open) (
                          field "ocsp_this_update_max_age" (str i.ocsp_this_update_max_age) (
                            field "ocsp_max_retries" (int i.ocsp_max_retries) (
                              field "ocsp_query_all_servers" (bool i.ocsp_query_all_servers) (
                                field "display_name" (str i.display_name) (
                                  field "token_ttl" (str i.token_ttl) (
                                    field "token_max_ttl" (str i.token_max_ttl) (
                                      field "token_policies" (strs i.token_policies) (
                                        field "token_bound_cidrs" (strs i.token_bound_cidrs) (
                                          field "token_explicit_max_ttl"
                                            (str i.token_explicit_max_ttl)
                                            (field "token_no_default_policy"
                                              (bool i.token_no_default_policy)
                                              (field "token_num_uses" (int i.token_num_uses) (
                                                field "token_period" (str i.token_period) (
                                                  field "token_type" (str i.token_type)
                                                    end))))))))))))))))))))))))

unfoldable pub get_payload : CertAuthEngineRole → Payload
get_payload d = to_map d.spec.cert_auth_engine_role_internal

unfoldable pub is_equivalent_to_desired_state : CertAuthEngineRole → Option Payload → Bool
is_equivalent_to_desired_state d payload =
    map_equal (to_map d.spec.cert_auth_engine_role_internal) payload

-- The webhook `ValidateUpdate`, the new object first.
unfoldable pub validate_update : CertAuthEngineRole → CertAuthEngineRole → Option Error
validate_update r old =
    if not (str_eq r.spec.path old.spec.path)
    then some (plain "spec.path cannot be updated")
    else if not (str_eq r.spec.name old.spec.name)
    then some (plain "spec.name cannot be updated")
    else none
