-- ===== src/Kinds/PkiSecretEngineRole.antt =====
-- The resource PKISecretEngineRole: api/v1alpha1/pkisecretenginerole_types.go.
use vault_config_operator.Common.{
  String, Bool, not, List, Option, none, some, if◌then◌else◌, str_eq,
}
use vault_config_operator.Common.Int.{ℤ}
use vault_config_operator.Common.Text.{◌^^◌}
use vault_config_operator.Common.Action.{Error, plain}
use vault_config_operator.Paths.{cleanse_path}
use vault_config_operator.Payload.{
  Payload, end, field, str, bool, int, strs, duration, enums, map_equal,
}
use vault_config_operator.Conditions.{Condition}
use vault_config_operator.KubeAuth.{KubeAuthConfiguration, VaultConnection}

pub record PkiRole : Type 0 where
  pub ttl : ℤ
  pub max_ttl : ℤ
  pub allow_localhost : Bool
  pub allowed_domains : Option (List String)
  pub allowed_domains_template : Bool
  pub allow_bare_domains : Bool
  pub allow_subdomains : Bool
  pub allow_glob_domains : Bool
  pub allow_any_name : Bool
  pub enforce_hostnames : Bool
  pub allow_ip_sans : Bool
  pub allowed_uri_sans : Option (List String)
  pub allowed_other_sans : String
  pub server_flag : Bool
  pub client_flag : Bool
  pub code_signing_flag : Bool
  pub email_protection_flag : Bool
  pub key_type : String
  pub key_bits : ℤ
  pub key_usage : Option (List String)
  pub ext_key_usage : Option (List String)
  pub ext_key_usage_oids : Option (List String)
  pub use_csr_common_name : Bool
  pub use_csr_sans : Bool
  pub ou : String
  pub organization : String
  pub country : String
  pub locality : String
  pub province : String
  pub street_address : String
  pub postal_code : String
  pub serial_number : String
  pub generate_lease : Bool
  pub no_store : Bool
  pub require_cn : Bool
  pub policy_identifiers : Option (List String)
  pub basic_constraints_valid_for_non_ca : Bool
  pub not_before_duration : ℤ

pub record PkiSecretEngineRoleSpec : Type 0 where
  pub connection : Option VaultConnection
  pub authentication : KubeAuthConfiguration
  pub path : String
  pub pki_role : PkiRole
  pub name : String

pub record PkiSecretEngineRoleStatus : Type 0 where
  pub conditions : List Condition

pub record PkiSecretEngineRole : Type 0 where
  pub metadata_name : String
  pub spec : PkiSecretEngineRoleSpec
  pub status : PkiSecretEngineRoleStatus

unfoldable pub get_path : PkiSecretEngineRole → String
get_path d =
    if not (str_eq d.spec.name "")
    then cleanse_path (d.spec.path ^^ "/" ^^ "roles" ^^ "/" ^^ d.spec.name)
    else cleanse_path (d.spec.path ^^ "/" ^^ "roles" ^^ "/" ^^ d.metadata_name)

unfoldable pub to_map : PkiRole → Payload
to_map i = field "ttl" (duration i.ttl) (
    field "max_ttl" (duration i.max_ttl) (
      field "allow_localhost" (bool i.allow_localhost) (
        field "allowed_domains" (strs i.allowed_domains) (
          field "allowed_domains_template" (bool i.allowed_domains_template) (
            field "allow_bare_domains" (bool i.allow_bare_domains) (
              field "allow_subdomains" (bool i.allow_subdomains) (
                field "allow_glob_domains" (bool i.allow_glob_domains) (
                  field "allow_any_name" (bool i.allow_any_name) (
                    field "enforce_hostnames" (bool i.enforce_hostnames) (
                      field "allow_ip_sans" (bool i.allow_ip_sans) (
                        field "allowed_uri_sans" (strs i.allowed_uri_sans) (
                          field "allowed_other_sans" (str i.allowed_other_sans) (
                            field "server_flag" (bool i.server_flag) (
                              field "client_flag" (bool i.client_flag) (
                                field "code_signing_flag" (bool i.code_signing_flag) (
                                  field "email_protection_flag" (bool i.email_protection_flag) (
                                    field "key_type" (str i.key_type) (
                                      field "key_bits" (int i.key_bits) (
                                        field "key_usage" (enums "KeyUsage" i.key_usage) (
                                          field "ext_key_usage"
                                            (enums "ExtKeyUsage" i.ext_key_usage)
                                            (field "ext_key_usage_oids" (strs i.ext_key_usage_oids)
                                              (field "use_csr_common_name"
                                                (bool i.use_csr_common_name)
                                                (field "use_csr_sans" (bool i.use_csr_sans) (
                                                  field "ou" (str i.ou) (
                                                    field "organization" (str i.organization) (
                                                      field "country" (str i.country) (
                                                        field "locality" (str i.locality) (
                                                          field "province" (str i.province) (
                                                            field "street_address"
                                                            (str i.street_address)
                                                            (field "postal_code" (str i.postal_code)
                                                            (field "serial_number"
                                                            (str i.serial_number)
                                                            (field "generate_lease"
                                                            (bool i.generate_lease)
                                                            (field "no_store" (bool i.no_store) (
                                                            field "require_cn" (bool i.require_cn) (
                                                            field "policy_identifiers"
                                                            (strs i.policy_identifiers)
                                                            (field
                                                            "basic_constraints_valid_for_non_ca"
                                                            (bool
                                                            i.basic_constraints_valid_for_non_ca)
                                                            (field "not_before_duration"
                                                            (duration i.not_before_duration)
                                                            end)))))))))))))))))))))))))))))))))))))

unfoldable pub get_payload : PkiSecretEngineRole → Payload
get_payload d = to_map d.spec.pki_role

unfoldable pub is_equivalent_to_desired_state : PkiSecretEngineRole → Option Payload → Bool
is_equivalent_to_desired_state d payload = map_equal (to_map d.spec.pki_role) payload

-- The webhook `ValidateUpdate`, the new object first.
unfoldable pub validate_update : PkiSecretEngineRole → PkiSecretEngineRole → Option Error
validate_update r old =
    if not (str_eq r.spec.path old.spec.path)
    then some (plain "spec.path cannot be updated")
    else none
