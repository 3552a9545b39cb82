-- ===== src/Kinds/JwtOidcAuthEngineConfig.antt =====
-- The resource JWTOIDCAuthEngineConfig: api/v1alpha1/jwtoidcauthengineconfig_types.go.
use vault_config_operator.Common.{
  String, Bool, not, List, Option, none, some, if◌then◌else◌, str_eq,
}
use vault_config_operator.Common.Text.{◌^^◌}
use vault_config_operator.Common.Action.{Error, plain}
use vault_config_operator.Paths.{cleanse_path}
use vault_config_operator.Payload.{Payload, end, field, str, bool, strs, raw, map_equal}
use vault_config_operator.Conditions.{Condition}
use vault_config_operator.KubeAuth.{KubeAuthConfiguration, VaultConnection}
use vault_config_operator.Credentials.{RootCredentialConfig}

pub record JwtOidcConfig : Type 0 where
  pub oidc_discovery_url : String
  pub oidc_discovery_ca_pem : String
  pub oidc_client_id : String
  pub oidc_response_mode : String
  pub oidc_response_types : Option (List String)
  pub jwks_url : String
  pub jwks_ca_pem : String
  pub jwt_validation_pub_keys : Option (List String)
  pub bound_issuer : String
  pub jwt_supported_algs : Option (List String)
  pub default_role : String
  pub provider_config : Option String
  pub namespace_in_state : Bool
  pub retrieved_client_id : String
  pub retrieved_client_password : String

pub record JwtOidcAuthEngineConfigSpec : Type 0 where
  pub connection : Option VaultConnection
  pub authentication : KubeAuthConfiguration
  pub path : String
  pub jwt_oidc_config : JwtOidcConfig
  pub oidc_credentials : Option RootCredentialConfig

pub record JwtOidcAuthEngineConfigStatus : Type 0 where
  pub conditions : List Condition

pub record JwtOidcAuthEngineConfig : Type 0 where
  pub metadata_name : String
  pub spec : JwtOidcAuthEngineConfigSpec
  pub status : JwtOidcAuthEngineConfigStatus

unfoldable pub get_path : JwtOidcAuthEngineConfig → String
get_path d = cleanse_path ("auth/" ^^ d.spec.path ^^ "/config")

unfoldable pub to_map : JwtOidcConfig → Payload
to_map i = field "oidc_discovery_url" (str i.oidc_discovery_url) (
    field "oidc_discovery_ca_pem" (str i.oidc_discovery_ca_pem) (
      field "oidc_client_id" (str i.retrieved_client_id) (
        field "oidc_client_secret" (str i.retrieved_client_password) (
          field "oidc_response_mode" (str i.oidc_response_mode) (
            field "oidc_response_types" (strs i.oidc_response_types) (
              field "jwks_url" (str i.jwks_url) (
                field "jwks_ca_pem" (str i.jwks_ca_pem) (
                  field "jwt_validation_pubkeys" (strs i.jwt_validation_pub_keys) (
                    field "bound_issuer" (str i.bound_issuer) (
                      field "jwt_supported_algs" (strs i.jwt_supported_algs) (
                        field "default_role" (str i.default_role) (
                          field "provider_config" (raw i.provider_config)
                            (field "namespace_in_state" (bool i.namespace_in_state) end)))))))))))))

unfoldable pub get_payload : JwtOidcAuthEngineConfig → Payload
get_payload d = to_map d.spec.jwt_oidc_config

unfoldable pub is_equivalent_to_desired_state : JwtOidcAuthEngineConfig → Option Payload → Bool
is_equivalent_to_desired_state d payload = map_equal (to_map d.spec.jwt_oidc_config) payload

-- The webhook `ValidateUpdate`, the new object first.
unfoldable pub validate_update : JwtOidcAuthEngineConfig → JwtOidcAuthEngineConfig → Option Error
validate_update r old =
    if not (str_eq r.spec.path old.spec.path)
    then some (plain "spec.path cannot be updated")
    else none
