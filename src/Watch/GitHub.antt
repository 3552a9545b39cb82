-- ===== src/Watch/GitHub.antt =====
-- The watches of controllers/githubsecretengineconfig_controller.go.
use vault_config_operator.Common.{String, Bool, Option, [], ◌∷◌, List}
use vault_config_operator.Common.Action.{Action}
use vault_config_operator.Kinds.GitHubSecretEngineConfig.{GitHubSecretEngineConfig}
use vault_config_operator.Watch.{
  WatchedSecret, SecretFilter, Listed, Request, is_secret_update, is_secret_create, find_applicable,
  enqueue,
}

abbrev pub ssh_secrets : SecretFilter
ssh_secrets = record {
  barred_kind = "kubernetes.io/ssh-auth";
  compared = ("ssh-privatekey", "ssh-privatekey") ∷ [];
}

unfoldable pub is_ssh_secret_update : Option WatchedSecret → Option WatchedSecret → Bool
is_ssh_secret_update old new = is_secret_update ssh_secrets old new

unfoldable pub is_ssh_secret_create : Option WatchedSecret → Bool
is_ssh_secret_create new = is_secret_create ssh_secrets new

abbrev pub secret_name : GitHubSecretEngineConfig → Option String
secret_name d = d.spec.ssh_key_reference.secret

unfoldable pub find_applicable_for_secret :
    String → List (Listed GitHubSecretEngineConfig) → List (Listed GitHubSecretEngineConfig)
find_applicable_for_secret name items = find_applicable secret_name name items

module _ {W : Type 0} (list : String → Action W (List (Listed GitHubSecretEngineConfig))) where
  unfoldable pub enqueue_for_secret : String → String → Action W (List Request)
  enqueue_for_secret namespace name = enqueue list secret_name namespace name
