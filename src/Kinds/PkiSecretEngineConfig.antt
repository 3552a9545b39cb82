-- ===== src/Kinds/PkiSecretEngineConfig.antt =====
-- The resource PKISecretEngineConfig: api/v1alpha1/pkisecretengineconfig_types.go and its webhook.
pub mod Signing
pub mod Signed
mod Tests
use vault_config_operator.Common.{
  String, Bool, true, false, not, List, [], ◌∷◌, Option, none, some, if◌then◌else◌, str_eq,
}
use vault_config_operator.Common.Int.{ℤ}
use vault_config_operator.Common.Action.{Error, plain, Result, ok, err, panic}
use vault_config_operator.Common.Text.{◌^^◌}
use vault_config_operator.Payload.{
  Payload, Value, nil, end, field, str, number, bool, int, strs, duration, insert, map_equal,
}
use vault_config_operator.Engine.{as_string}
use vault_config_operator.Database.{value_at}
use vault_config_operator.Conditions.{Condition}
use vault_config_operator.KubeAuth.{KubeAuthConfiguration, VaultConnection}

pub record PkiType : Type 0 where
  pub kind : String
  pub private_key_type : String

pub record PkiCommon : Type 0 where
  pub common_name : String
  pub alt_names : String
  pub ip_sans : String
  pub uri_sans : String
  pub other_sans : String
  pub ttl : ℤ
  pub format : String
  pub private_key_format : String
  pub key_type : String
  pub key_bits : ℤ
  pub max_path_length : ℤ
  pub exclude_cn_from_sans : Bool
  pub permitted_dns_domains : Option (List String)
  pub ou : String
  pub organization : String
  pub country : String
  pub locality : String
  pub province : String
  pub street_address : String
  pub postal_code : String
  pub serial_number : String

pub record PkiConfigUrls : Type 0 where
  pub issuing_certificates : Option (List String)
  pub crl_distribution_points : Option (List String)
  pub ocsp_servers : Option (List String)

pub record PkiConfigCrl : Type 0 where
  pub crl_expiry : ℤ
  pub crl_disable : Bool

pub record PkiConfig : Type 0 where
  pub pki_config_urls : PkiConfigUrls
  pub pki_config_crl : PkiConfigCrl

pub record PkiIntermediate : Type 0 where
  pub external_sign_secret : Option String
  pub certificate_key : String
  pub internal_sign : Option String
  pub csr : String
  pub signed_intermediate : String

pub record PkiSecretEngineConfigSpec : Type 0 where
  pub connection : Option VaultConnection
  pub authentication : KubeAuthConfiguration
  pub path : String
  pub pki_type : PkiType
  pub pki_common : PkiCommon
  pub pki_config : PkiConfig
  pub pki_intermediate : PkiIntermediate

pub record PkiSecretEngineConfigStatus : Type 0 where
  pub conditions : List Condition
  pub generated : Bool
  pub exported : Bool
  pub signed : Bool

unfoldable pub common_to_map : PkiCommon → Payload
common_to_map i = field "common_name" (str i.common_name) (
    field "alt_names" (str i.alt_names) (
      field "ip_sans" (str i.ip_sans) (
        field "uri_sans" (str i.uri_sans) (
          field "other_sans" (str i.other_sans) (
            field "ttl" (duration i.ttl) (
              field "format" (str i.format) (
                field "private_key_format" (str i.private_key_format) (
                  field "key_type" (str i.key_type) (
                    field "key_bits" (int i.key_bits) (
                      field "max_path_length" (int i.max_path_length) (
                        field "exclude_cn_from_sans" (bool i.exclude_cn_from_sans) (
                          field "permitted_dns_domains" (strs i.permitted_dns_domains) (
                            field "ou" (str i.ou) (
                              field "organization" (str i.organization) (
                                field "country" (str i.country) (
                                  field "locality" (str i.locality) (
                                    field "province" (str i.province) (
                                      field "street_address" (str i.street_address) (
                                        field "postal_code" (str i.postal_code) (
                                          field "serial_number" (str i.serial_number)
                                            (end)))))))))))))))))))))

unfoldable pub urls_to_map : PkiConfigUrls → Payload
urls_to_map i = field "issuing_certificates" (strs i.issuing_certificates) (
    field "crl_distribution_points" (strs i.crl_distribution_points)
      (field "ocsp_servers" (strs i.ocsp_servers) (end)))

unfoldable pub crl_to_map : PkiConfigCrl → Payload
crl_to_map i = field "expiry" (duration i.crl_expiry) (field "disable" (bool i.crl_disable) (end))

pub record PkiSecretEngineConfig : Type 0 where
  pub metadata_name : String
  pub namespace : String
  pub spec : PkiSecretEngineConfigSpec
  pub status : PkiSecretEngineConfigStatus

unfoldable pub get_path : PkiSecretEngineConfig → String
get_path p = p.spec.path

unfoldable pub get_delete_path : PkiSecretEngineConfig → String
get_delete_path p = p.spec.path ^^ "/root"

unfoldable pub get_generate_path : PkiSecretEngineConfig → String
get_generate_path p =
    p.spec.path ^^ "/" ^^ p.spec.pki_type.kind ^^ "/generate/" ^^ p.spec.pki_type.private_key_type

unfoldable pub get_config_urls_path : PkiSecretEngineConfig → String
get_config_urls_path p = p.spec.path ^^ "/config/urls"

unfoldable pub get_config_crl_path : PkiSecretEngineConfig → String
get_config_crl_path p = p.spec.path ^^ "/config/crl"

-- Of the engine that signs, by the name of `InternalSign`.
unfoldable pub get_sign_intermediate_path : String → String
get_sign_intermediate_path name = name ^^ "/root/sign-intermediate"

unfoldable pub get_intermediate_set_signed_path : PkiSecretEngineConfig → String
get_intermediate_set_signed_path p = p.spec.path ^^ "/intermediate/set-signed"

unfoldable pub get_payload : PkiSecretEngineConfig → Payload
get_payload p = common_to_map p.spec.pki_common

unfoldable pub get_sign_intermediate_payload : PkiSecretEngineConfig → Payload
get_sign_intermediate_payload p = insert "csr" (str p.spec.pki_intermediate.csr) (get_payload p)

unfoldable pub get_intermediate_set_signed_payload : PkiSecretEngineConfig → Payload
get_intermediate_set_signed_payload p =
    field "certificate" (str p.spec.pki_intermediate.signed_intermediate) end

unfoldable pub get_config_urls_payload : PkiSecretEngineConfig → Payload
get_config_urls_payload p = urls_to_map p.spec.pki_config.pki_config_urls

unfoldable pub get_config_crl_payload : PkiSecretEngineConfig → Payload
get_config_crl_payload p = crl_to_map p.spec.pki_config.pki_config_crl

-- Also where the endpoint compares the URLs or the CRL configuration, it is this map.
unfoldable pub is_equivalent_to_desired_state : PkiSecretEngineConfig → Option Payload → Bool
is_equivalent_to_desired_state p payload = map_equal (common_to_map p.spec.pki_common) payload

unfoldable pub get_signed_status : PkiSecretEngineConfig → Bool
get_signed_status p = if str_eq p.spec.pki_type.kind "root" then true else p.status.signed

-- `ToString`, which takes nil for the empty text.
abbrev pub to_string : Value → Result String
to_string nil = ok ""
to_string v = as_string v

-- `x.(json.Number).String()`
abbrev pub number_text : Value → Result String
number_text (number s) = ok s
number_text _ = panic

-- `payload[key] = …` for a text that may panic.
abbrev pub entry :
    String → Result String → Result (List (String × String)) → Result (List (String × String))
entry key (ok s) (ok rest) = ok ((key, s) ∷ rest)
entry key panic rest = panic
entry key (err e) rest = err e
entry key (ok s) panic = panic
entry key (ok s) (err e) = err e

abbrev pub private_entries : Payload → Result (List (String × String))
private_entries m =
    entry "private_key" (to_string (value_at "private_key" m))
      (entry "private_key_type" (to_string (value_at "private_key_type" m)) (ok []))

unfoldable pub get_exported_payload :
    PkiSecretEngineConfig → Payload → Result (List (String × String))
get_exported_payload p m =
    if str_eq p.spec.pki_type.kind "root"
    then entry "issuing_ca" (to_string (value_at "issuing_ca" m)) (
        entry "expiration" (number_text (value_at "expiration" m)) (
          entry "certificate" (to_string (value_at "certificate" m))
            (entry "serial_number" (to_string (value_at "serial_number" m)) (private_entries m))))
    else entry "csr" (to_string (value_at "csr" m)) (private_entries m)

-- The webhook `ValidateUpdate`.
unfoldable pub validate_update : PkiSecretEngineConfig → PkiSecretEngineConfig → Option Error
validate_update r old =
    if not (str_eq r.spec.path old.spec.path)
    then some (plain "spec.path cannot be updated")
    else if not (str_eq r.spec.pki_type.kind old.spec.pki_type.kind)
    then some (plain "spec.type cannot be updated")
    else if not (str_eq r.spec.pki_type.private_key_type old.spec.pki_type.private_key_type)
    then some (plain "spec.privateKeyType cannot be updated")
    else none
