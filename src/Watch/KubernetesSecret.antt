-- ===== src/Watch/KubernetesSecret.antt =====
-- The watches of controllers/kubernetessecretengineconfig_controller.go.
use vault_config_operator.Common.{String, Bool, Option, [], ◌∷◌, List}
use vault_config_operator.Common.Action.{Action}
use vault_config_operator.Kinds.KubernetesSecretEngineConfig.{KubernetesSecretEngineConfig}
use vault_config_operator.Watch.{
  WatchedSecret, SecretFilter, Listed, Request, is_secret_update, is_secret_create, find_applicable,
  enqueue,
}

abbrev pub sa_token_secrets : SecretFilter
sa_token_secrets = record {
  barred_kind = "kubernetes.io/service-account-token";
  compared = ("token", "token") ∷ [];
}

unfoldable pub is_sa_token_secret_update : Option WatchedSecret → Option WatchedSecret → Bool
is_sa_token_secret_update old new = is_secret_update sa_token_secrets old new

unfoldable pub is_sa_token_secret_create : Option WatchedSecret → Bool
is_sa_token_secret_create new = is_secret_create sa_token_secrets new

abbrev pub secret_name : KubernetesSecretEngineConfig → Option String
secret_name d = d.spec.jwt_reference.secret

unfoldable pub find_applicable_for_secret :
    String → List (Listed KubernetesSecretEngineConfig) → List (Listed KubernetesSecretEngineConfig)
find_applicable_for_secret name items = find_applicable secret_name name items

module _ {W : Type 0} (list : String → Action W (List (Listed KubernetesSecretEngineConfig))) where
  unfoldable pub enqueue_for_secret : String → String → Action W (List Request)
  enqueue_for_secret namespace name = enqueue list secret_name namespace name
