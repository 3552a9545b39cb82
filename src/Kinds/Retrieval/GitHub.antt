-- ===== src/Kinds/Retrieval/GitHub.antt =====
-- The key of GitHubSecretEngineConfig: api/v1alpha1/githubsecretengineconfig_types.go.
use vault_config_operator.Common.{String}
use vault_config_operator.Common.Action.{Action, get, ◌>>=◌}
use vault_config_operator.Vault.{Vault}
use vault_config_operator.Endpoint.{Cell}
use vault_config_operator.Watch.{WatchedSecret}
use vault_config_operator.Kinds.GitHubSecretEngineConfig.{GitHubSecretEngineConfig}
use vault_config_operator.Kinds.Retrieval.Key.{KeyRetrieval, retrieve_key}

abbrev pub retrieval : KeyRetrieval GitHubSecretEngineConfig
retrieval = record {
  secret_kind = "kubernetes.io/ssh-auth";
  entry = "ssh-privatekey";
  set = λ key d. record d {
    spec = record (d.spec) { gh_config = record (d.spec.gh_config) { retrieved_ssh_key = key } };
  };
}

module _ {W : Type 0} (v : Vault W) (get_secret : String → Action W WatchedSecret) where
  unfoldable pub set_internal_credentials : Action (Cell GitHubSecretEngineConfig W) (Unit {0})
  set_internal_credentials = do
    c ← get
    retrieve_key v get_secret retrieval c.object.spec.ssh_key_reference.secret
        c.object.spec.ssh_key_reference.vault_secret

  unfoldable pub prepare_internal_values : Action (Cell GitHubSecretEngineConfig W) (Unit {0})
  unfolding set_internal_credentials
  prepare_internal_values = set_internal_credentials
