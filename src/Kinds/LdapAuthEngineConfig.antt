-- ===== src/Kinds/LdapAuthEngineConfig.antt =====
-- The resource LDAPAuthEngineConfig: api/v1alpha1/ldapauthengineconfig_types.go.
use vault_config_operator.Common.{
  String, Bool, ◌||◌, not, List, Option, none, some, if◌then◌else◌, str_eq,
}
use vault_config_operator.Common.Int.{ℤ}
use vault_config_operator.Common.Text.{◌^^◌}
use vault_config_operator.Common.Action.{Error, plain}
use vault_config_operator.Paths.{cleanse_path}
use vault_config_operator.Payload.{Payload, end, field, str, bool, int, erase, map_equal}
use vault_config_operator.Conditions.{Condition}
use vault_config_operator.KubeAuth.{KubeAuthConfiguration, VaultConnection, TlsConfig}
use vault_config_operator.Credentials.{RootCredentialConfig}

pub record LdapConfig : Type 0 where
  pub url : String
  pub case_sensitive_names : Bool
  pub request_timeout : String
  pub start_tls : Bool
  pub tls_min_version : String
  pub tls_max_version : String
  pub insecure_tls : Bool
  pub certificate : String
  pub client_tls_cert : String
  pub client_tls_key : String
  pub bind_dn : String
  pub user_dn : String
  pub user_attr : String
  pub discover_dn : Bool
  pub deny_null_bind : Bool
  pub upn_domain : String
  pub user_filter : String
  pub anonymous_group_search : Bool
  pub group_filter : String
  pub group_dn : String
  pub group_attr : String
  pub username_as_alias : Bool
  pub token_ttl : String
  pub token_max_ttl : String
  pub token_policies : String
  pub token_bound_cidrs : String
  pub token_explicit_max_ttl : String
  pub token_no_default_policy : Bool
  pub token_num_uses : ℤ
  pub token_period : ℤ
  pub token_type : String
  pub retrieved_password : String
  pub retrieved_username : String
  pub retrieved_certificate : String
  pub retrieved_client_tls_cert : String
  pub retrieved_client_tls_key : String

pub record LdapAuthEngineConfigSpec : Type 0 where
  pub connection : Option VaultConnection
  pub authentication : KubeAuthConfiguration
  pub path : String
  pub ldap_config : LdapConfig
  pub bind_credentials : RootCredentialConfig
  pub tls_config : TlsConfig

pub record LdapAuthEngineConfigStatus : Type 0 where
  pub conditions : List Condition

pub record LdapAuthEngineConfig : Type 0 where
  pub metadata_name : String
  pub spec : LdapAuthEngineConfigSpec
  pub status : LdapAuthEngineConfigStatus

unfoldable pub get_path : LdapAuthEngineConfig → String
get_path d = cleanse_path ("auth/" ^^ d.spec.path ^^ "/config")

-- The certificates given in place are taken where there is one of the three; Go notes them in the
-- object too.
abbrev pub effective : LdapConfig → LdapConfig
effective i =
    if not (str_eq i.certificate "")
      || (not (str_eq i.client_tls_cert "") || not (str_eq i.client_tls_key ""))
    then record i {
      retrieved_certificate = i.certificate;
      retrieved_client_tls_cert = i.client_tls_cert;
      retrieved_client_tls_key = i.client_tls_key;
    }
    else i

abbrev pub map_of : LdapConfig → Payload
map_of i = field "url" (str i.url) (
    field "case_sensitive_names" (bool i.case_sensitive_names) (
      field "request_timeout" (str i.request_timeout) (
        field "starttls" (bool i.start_tls) (
          field "tls_min_version" (str i.tls_min_version) (
            field "tls_max_version" (str i.tls_max_version) (
              field "insecure_tls" (bool i.insecure_tls) (
                field "certificate" (str i.retrieved_certificate) (
                  field "client_tls_cert" (str i.retrieved_client_tls_cert) (
                    field "client_tls_key" (str i.retrieved_client_tls_key) (
                      field "binddn" (str i.retrieved_username) (
                        field "bindpass" (str i.retrieved_password) (
                          field "userdn" (str i.user_dn) (
                            field "userattr" (str i.user_attr) (
                              field "discoverdn" (bool i.discover_dn) (
                                field "deny_null_bind" (bool i.deny_null_bind) (
                                  field "upndomain" (str i.upn_domain) (
                                    field "userfilter" (str i.user_filter) (
                                      field "anonymous_group_search" (bool i.anonymous_group_search)
                                        (field "groupfilter" (str i.group_filter) (
                                          field "groupdn" (str i.group_dn) (
                                            field "groupattr" (str i.group_attr) (
                                              field "username_as_alias" (bool i.username_as_alias) (
                                                field "token_ttl" (str i.token_ttl) (
                                                  field "token_max_ttl" (str i.token_max_ttl) (
                                                    field "token_policies" (str i.token_policies) (
                                                      field "token_bound_cidrs"
                                                        (str i.token_bound_cidrs)
                                                        (field "token_explicit_max_ttl"
                                                          (str i.token_explicit_max_ttl)
                                                          (field "token_no_default_policy"
                                                            (bool i.token_no_default_policy)
                                                            (field "token_num_uses"
                                                            (int i.token_num_uses)
                                                            (field "token_period"
                                                            (int i.token_period)
                                                            (field "token_type" (str i.token_type)
                                                            end)))))))))))))))))))))))))))))))

unfoldable pub to_map : LdapConfig → Payload
to_map i = map_of (effective i)

unfoldable pub get_payload : LdapAuthEngineConfig → Payload
get_payload d = to_map d.spec.ldap_config

unfoldable pub is_equivalent_to_desired_state : LdapAuthEngineConfig → Option Payload → Bool
is_equivalent_to_desired_state d payload =
    map_equal (erase "bindpass" (to_map d.spec.ldap_config)) payload

-- The webhook `ValidateUpdate`, the new object first.
unfoldable pub validate_update : LdapAuthEngineConfig → LdapAuthEngineConfig → Option Error
validate_update r old =
    if not (str_eq r.spec.path old.spec.path)
    then some (plain "spec.path cannot be updated")
    else none
