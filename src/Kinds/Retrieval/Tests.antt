-- ===== src/Kinds/Retrieval/Tests.antt =====
-- Runs of the retrieval of credentials.
use vault_config_operator.Common.{String, ◌≡◌, refl, Option, some, none, false, [], ◌∷◌}
use vault_config_operator.Common.Action.{Result, ok, err, panic, plain}
use vault_config_operator.KubeAuth.{KubeAuthConfiguration}
use vault_config_operator.Payload.{end, field, str}
use vault_config_operator.Vault.{read_secret}
use vault_config_operator.Endpoint.{Cell}
use vault_config_operator.Credentials.{RootCredentialConfig, VaultSecretReference}
use vault_config_operator.Database.Retrieval.{Lookups}
use vault_config_operator.Samples.Memory.{Store, memory}
use vault_config_operator.Kinds.GcpAuthEngineConfig.{GcpAuthEngineConfig}
use vault_config_operator.Kinds.JwtOidcAuthEngineConfig.{JwtOidcAuthEngineConfig}
use vault_config_operator.Kinds.Retrieval.GcpAuth
use vault_config_operator.Kinds.Retrieval.JwtOidcAuth
use vault_config_operator.Kinds.QuaySecretEngineConfig.{QuaySecretEngineConfig}
use vault_config_operator.Kinds.Retrieval.Quay

abbrev login : KubeAuthConfiguration
login = record { service_account = none; path = "kubernetes"; role = "r"; namespace = "" }

abbrev credentials_from : Option String → Option VaultSecretReference → RootCredentialConfig
credentials_from secret vault_secret = record {
  vault_secret = vault_secret;
  secret = secret;
  random_secret = none;
  password_key = "password";
  username_key = "username";
}

abbrev gcp : String → RootCredentialConfig → Cell GcpAuthEngineConfig Store
gcp service_account credentials = record {
  object = record {
    metadata_name = "gcp";
    spec = record {
      connection = none;
      authentication = login;
      path = "gcp";
      gcp_config = record {
        service_account = service_account;
        iamalias = "";
        iammetadata = "";
        gcealias = "";
        gcemetadata = "";
        custom_endpoint = none;
        retrieved_service_account = "";
        retrieved_credentials = "";
      };
      gcp_credentials = credentials;
    };
    status = record { conditions = [] };
  };
  world =
      ("kv/gcp", field "username" (str "found") (field "password" (str "key") end))
      ∷ ("kv/bare", field "username" (str "found") end)
      ∷ [];
}

abbrev lookups : Lookups Store
lookups = record {
  get_random_secret = λ name w. (panic, w);
  get_secret = λ name w. (ok (("username", "found") ∷ ("password", "key") ∷ []), w);
}

-- How the preparation ends, and the service account and the key that it sets.
abbrev retrieved : String → RootCredentialConfig → Result (Unit {0}) × String × String
retrieved service_account credentials =
    let (r, c) = GcpAuth.prepare_internal_values memory lookups (gcp service_account credentials) in
    (
      r, c.object.spec.gcp_config.retrieved_service_account,
      c.object.spec.gcp_config.retrieved_credentials,
    )

-- Beside a Kubernetes secret, a service account that is given is replaced by the name of its key.
gcp_runs :
    (retrieved "" (credentials_from (some "s") none) ≡ (ok tt, "found", "key"))
    × (retrieved "me" (credentials_from (some "s") none) ≡ (ok tt, "username", "key"))
    × (retrieved "me" (credentials_from none (some (record { path = "kv/gcp" })))
        ≡ (ok tt, "me", "key"))
    × (retrieved "me" (credentials_from none (some (record { path = "kv/bare" })))
        ≡ (panic, "", ""))
    × (retrieved "me" (credentials_from none (some (record { path = "kv/none" })))
        ≡ (err (plain "secret not found"), "", ""))
unfolding GcpAuth.prepare_internal_values GcpAuth.set_internal_credentials read_secret
gcp_runs = (refl, refl, refl, refl, refl)

abbrev jwt : Option RootCredentialConfig → Cell JwtOidcAuthEngineConfig Store
jwt credentials = record {
  object = record {
    metadata_name = "jwt";
    spec = record {
      connection = none;
      authentication = login;
      path = "jwt";
      jwt_oidc_config = record {
        oidc_discovery_url = "";
        oidc_discovery_ca_pem = "";
        oidc_client_id = "";
        oidc_response_mode = "";
        oidc_response_types = none;
        jwks_url = "";
        jwks_ca_pem = "";
        jwt_validation_pub_keys = none;
        bound_issuer = "";
        jwt_supported_algs = none;
        default_role = "";
        provider_config = none;
        namespace_in_state = false;
        retrieved_client_id = "";
        retrieved_client_password = "";
      };
      oidc_credentials = credentials;
    };
    status = record { conditions = [] };
  };
  world = [];
}

-- Credentials of which only the keys are given end in an error, and none in success.
jwt_runs :
    (JwtOidcAuth.prepare_internal_values memory lookups (jwt none) ≡ (ok tt, jwt none))
    × ((JwtOidcAuth.prepare_internal_values memory lookups
          (jwt (some (credentials_from none none)))).0
        ≡ err (plain "no means of retrieving a secret was specified"))
unfolding JwtOidcAuth.prepare_internal_values JwtOidcAuth.set_internal_credentials
jwt_runs = (refl, refl)

abbrev quay : RootCredentialConfig → Cell QuaySecretEngineConfig Store
quay credentials = record {
  object = record {
    metadata_name = "quay";
    spec = record {
      connection = none;
      authentication = login;
      path = "quay";
      quay_config = record {
        url = "";
        ca_certertificate = "";
        disable_ssl_verification = false;
        retrieved_token = "";
      };
      root_credentials = credentials;
    };
    status = record { conditions = [] };
  };
  world = [];
}

quay_runs :
    (Quay.prepare_internal_values memory lookups (quay (credentials_from (some "s") none))
      ).1.object.spec.quay_config.retrieved_token
    ≡ "key"
unfolding Quay.prepare_internal_values Quay.set_internal_credentials
quay_runs = refl
