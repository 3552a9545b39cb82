-- ===== src/Watch/LdapAuth.antt =====
-- The watches of controllers/ldapauthengineconfig_controller.go.
use vault_config_operator.Common.{String, Bool, Option, [], ◌∷◌, List}
use vault_config_operator.Common.Action.{Action}
use vault_config_operator.Kinds.LdapAuthEngineConfig.{LdapAuthEngineConfig}
use vault_config_operator.Watch.{
  WatchedSecret, SecretFilter, Listed, Request, is_secret_update, is_secret_create, find_applicable,
  enqueue,
}

abbrev pub basic_auth_secrets : SecretFilter
basic_auth_secrets = record {
  barred_kind = "kubernetes.io/basic-auth";
  compared = ("username", "username") ∷ ("password", "password") ∷ [];
}

abbrev pub tls_secrets : SecretFilter
tls_secrets = record {
  barred_kind = "kubernetes.io/tls";
  compared = ("ca.crt", "ca.crt") ∷ ("tls.crt", "tls.crt") ∷ ("tls.key", "tls.key") ∷ [];
}

unfoldable pub is_basic_auth_secret_update : Option WatchedSecret → Option WatchedSecret → Bool
is_basic_auth_secret_update old new = is_secret_update basic_auth_secrets old new

unfoldable pub is_basic_auth_secret_create : Option WatchedSecret → Bool
is_basic_auth_secret_create new = is_secret_create basic_auth_secrets new

unfoldable pub is_tls_secret_update : Option WatchedSecret → Option WatchedSecret → Bool
is_tls_secret_update old new = is_secret_update tls_secrets old new

unfoldable pub is_tls_secret_create : Option WatchedSecret → Bool
is_tls_secret_create new = is_secret_create tls_secrets new

abbrev pub secret_name : LdapAuthEngineConfig → Option String
secret_name d = d.spec.bind_credentials.secret

unfoldable pub find_applicable_for_secret :
    String → List (Listed LdapAuthEngineConfig) → List (Listed LdapAuthEngineConfig)
find_applicable_for_secret name items = find_applicable secret_name name items

abbrev pub random_secret_name : LdapAuthEngineConfig → Option String
random_secret_name d = d.spec.bind_credentials.random_secret

unfoldable pub find_applicable_for_random_secret :
    String → List (Listed LdapAuthEngineConfig) → List (Listed LdapAuthEngineConfig)
find_applicable_for_random_secret name items = find_applicable random_secret_name name items

abbrev pub tls_secret_name : LdapAuthEngineConfig → Option String
tls_secret_name d = d.spec.tls_config.tls_secret

unfoldable pub find_applicable_for_tls_secret :
    String → List (Listed LdapAuthEngineConfig) → List (Listed LdapAuthEngineConfig)
find_applicable_for_tls_secret name items = find_applicable tls_secret_name name items

module _ {W : Type 0} (list : String → Action W (List (Listed LdapAuthEngineConfig))) where
  unfoldable pub enqueue_for_secret : String → String → Action W (List Request)
  enqueue_for_secret namespace name = enqueue list secret_name namespace name

  unfoldable pub enqueue_for_random_secret : String → String → Action W (List Request)
  enqueue_for_random_secret namespace name = enqueue list random_secret_name namespace name

  unfoldable pub enqueue_for_tls_secret : String → String → Action W (List Request)
  enqueue_for_tls_secret namespace name = enqueue list tls_secret_name namespace name
