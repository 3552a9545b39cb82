-- ===== src/Kinds/Retrieval/JwtOidcAuth.antt =====
-- The credentials of JWTOIDCAuthEngineConfig: api/v1alpha1/jwtoidcauthengineconfig_types.go.
use vault_config_operator.Common.{String, none, some}
use vault_config_operator.Common.Action.{Action, pure, get, ◌>>=◌}
use vault_config_operator.Vault.{Vault}
use vault_config_operator.Endpoint.{Cell}
use vault_config_operator.Database.Retrieval.{Lookups}
use vault_config_operator.Kinds.JwtOidcAuthEngineConfig.{JwtOidcAuthEngineConfig}
use vault_config_operator.Kinds.Retrieval.{Retrieval, retrieve}

abbrev pub set_username_and_password :
    String → String → JwtOidcAuthEngineConfig → JwtOidcAuthEngineConfig
set_username_and_password username password d = record d {
  spec = record (d.spec) {
    jwt_oidc_config = record (d.spec.jwt_oidc_config) {
      retrieved_client_id = username;
      retrieved_client_password = password;
    };
  };
}

abbrev pub retrieval : Retrieval JwtOidcAuthEngineConfig
retrieval = record {
  username = λ d. d.spec.jwt_oidc_config.oidc_client_id;
  username_beside_secret = λ d. d.spec.jwt_oidc_config.oidc_client_id;
  set = set_username_and_password;
}

module _ {W : Type 0} (v : Vault W) (k : Lookups W) where
  unfoldable pub set_internal_credentials : Action (Cell JwtOidcAuthEngineConfig W) (Unit {0})
  set_internal_credentials = do
    c ← get
    elim c.object.spec.oidc_credentials [
      | none ↦ pure tt
      | some credentials ↦ retrieve v k retrieval credentials
    ]

  -- `reflect.DeepEqual` of a pointer and a structure is false, whatever they hold.
  unfoldable pub prepare_internal_values : Action (Cell JwtOidcAuthEngineConfig W) (Unit {0})
  unfolding set_internal_credentials
  prepare_internal_values = set_internal_credentials
