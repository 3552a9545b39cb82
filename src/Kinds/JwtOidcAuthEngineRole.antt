-- ===== src/Kinds/JwtOidcAuthEngineRole.antt =====
-- The resource JWTOIDCAuthEngineRole: api/v1alpha1/jwtoidcauthenginerole_types.go.
use vault_config_operator.Common.{String, Bool, List, Option}
use vault_config_operator.Common.Int.{ℤ}
use vault_config_operator.Common.Text.{◌^^◌}
use vault_config_operator.Paths.{cleanse_path}
use vault_config_operator.Payload.{Payload, end, field, str, bool, int, strs, dict, raw, map_equal}
use vault_config_operator.Conditions.{Condition}
use vault_config_operator.KubeAuth.{KubeAuthConfiguration, VaultConnection}

pub record JwtOidcRole : Type 0 where
  pub name : String
  pub role_type : String
  pub bound_audiences : Option (List String)
  pub user_claim : String
  pub user_claim_json_pointer : Bool
  pub clock_skew_leeway : ℤ
  pub expiration_leeway : ℤ
  pub not_before_leeway : ℤ
  pub bound_subject : String
  pub bound_claims : Option String
  pub bound_claims_type : String
  pub groups_claim : String
  pub claim_mappings : Option (List (String × String))
  pub oidc_scopes : Option (List String)
  pub allowed_redirect_uris : Option (List String)
  pub verbose_oidc_logging : Bool
  pub max_age : ℤ
  pub token_ttl : String
  pub token_max_ttl : String
  pub token_policies : Option (List String)
  pub token_bound_cidrs : Option (List String)
  pub token_explicit_max_ttl : String
  pub token_no_default_policy : Bool
  pub token_num_uses : ℤ
  pub token_period : ℤ
  pub token_type : String

pub record JwtOidcAuthEngineRoleSpec : Type 0 where
  pub connection : Option VaultConnection
  pub authentication : KubeAuthConfiguration
  pub path : String
  pub jwt_oidc_role : JwtOidcRole

pub record JwtOidcAuthEngineRoleStatus : Type 0 where
  pub conditions : List Condition

pub record JwtOidcAuthEngineRole : Type 0 where
  pub metadata_name : String
  pub spec : JwtOidcAuthEngineRoleSpec
  pub status : JwtOidcAuthEngineRoleStatus

unfoldable pub get_path : JwtOidcAuthEngineRole → String
get_path d = cleanse_path ("auth/" ^^ d.spec.path ^^ "/role/" ^^ d.spec.jwt_oidc_role.name)

unfoldable pub to_map : JwtOidcRole → Payload
to_map i = field "name" (str i.name) (
    field "role_type" (str i.role_type) (
      field "bound_audiences" (strs i.bound_audiences) (
        field "user_claim" (str i.user_claim) (
          field "user_claim_json_pointer" (bool i.user_claim_json_pointer) (
            field "clock_skew_leeway" (int i.clock_skew_leeway) (
              field "expiration_leeway" (int i.expiration_leeway) (
                field "not_before_leeway" (int i.not_before_leeway) (
                  field "bound_subject" (str i.bound_subject) (
                    field "bound_claims" (raw i.bound_claims) (
                      field "bound_claims_type" (str i.bound_claims_type) (
                        field "groups_claim" (str i.groups_claim) (
                          field "claim_mappings" (dict i.claim_mappings) (
                            field "oidc_scopes" (strs i.oidc_scopes) (
                              field "allowed_redirect_uris" (strs i.allowed_redirect_uris) (
                                field "verbose_oidc_logging" (bool i.verbose_oidc_logging) (
                                  field "max_age" (int i.max_age) (
                                    field "token_ttl" (str i.token_ttl) (
                                      field "token_max_ttl" (str i.token_max_ttl) (
                                        field "token_policies" (strs i.token_policies) (
                                          field "token_bound_cidrs" (strs i.token_bound_cidrs) (
                                            field "token_explicit_max_ttl"
                                              (str i.token_explicit_max_ttl)
                                              (field "token_no_default_policy"
                                                (bool i.token_no_default_policy)
                                                (field "token_num_uses" (int i.token_num_uses) (
                                                  field "token_period" (int i.token_period) (
                                                    field "token_type" (str i.token_type)
                                                      end)))))))))))))))))))))))))

unfoldable pub get_payload : JwtOidcAuthEngineRole → Payload
get_payload d = to_map d.spec.jwt_oidc_role

unfoldable pub is_equivalent_to_desired_state : JwtOidcAuthEngineRole → Option Payload → Bool
is_equivalent_to_desired_state d payload = map_equal (to_map d.spec.jwt_oidc_role) payload
