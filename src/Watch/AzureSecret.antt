-- ===== src/Watch/AzureSecret.antt =====
-- The watches of controllers/azuresecretengineconfig_controller.go.
use vault_config_operator.Common.{String, Bool, Option, [], ◌∷◌, List}
use vault_config_operator.Common.Action.{Action}
use vault_config_operator.Kinds.AzureSecretEngineConfig.{AzureSecretEngineConfig}
use vault_config_operator.Watch.{
  WatchedSecret, SecretFilter, Listed, Request, is_secret_update, is_secret_create, find_applicable,
  enqueue,
}

abbrev pub basic_auth_secrets : SecretFilter
basic_auth_secrets = record {
  barred_kind = "kubernetes.io/basic-auth";
  compared = ("clientid", "clientid") ∷ ("clientsecret", "clientsecret") ∷ [];
}

unfoldable pub is_basic_auth_secret_update : Option WatchedSecret → Option WatchedSecret → Bool
is_basic_auth_secret_update old new = is_secret_update basic_auth_secrets old new

unfoldable pub is_basic_auth_secret_create : Option WatchedSecret → Bool
is_basic_auth_secret_create new = is_secret_create basic_auth_secrets new

abbrev pub secret_name : AzureSecretEngineConfig → Option String
secret_name d = d.spec.azure_credentials.secret

unfoldable pub find_applicable_for_secret :
    String → List (Listed AzureSecretEngineConfig) → List (Listed AzureSecretEngineConfig)
find_applicable_for_secret name items = find_applicable secret_name name items

abbrev pub random_secret_name : AzureSecretEngineConfig → Option String
random_secret_name d = d.spec.azure_credentials.random_secret

unfoldable pub find_applicable_for_random_secret :
    String → List (Listed AzureSecretEngineConfig) → List (Listed AzureSecretEngineConfig)
find_applicable_for_random_secret name items = find_applicable random_secret_name name items

module _ {W : Type 0} (list : String → Action W (List (Listed AzureSecretEngineConfig))) where
  unfoldable pub enqueue_for_secret : String → String → Action W (List Request)
  enqueue_for_secret namespace name = enqueue list secret_name namespace name

  unfoldable pub enqueue_for_random_secret : String → String → Action W (List Request)
  enqueue_for_random_secret namespace name = enqueue list random_secret_name namespace name
