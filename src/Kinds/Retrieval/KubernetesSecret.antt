-- ===== src/Kinds/Retrieval/KubernetesSecret.antt =====
-- The key of KubernetesSecretEngineConfig: api/v1alpha1/kubernetessecretengineconfig_types.go.
use vault_config_operator.Common.{String}
use vault_config_operator.Common.Action.{Action, get, ◌>>=◌}
use vault_config_operator.Vault.{Vault}
use vault_config_operator.Endpoint.{Cell}
use vault_config_operator.Watch.{WatchedSecret}
use vault_config_operator.Kinds.KubernetesSecretEngineConfig.{KubernetesSecretEngineConfig}
use vault_config_operator.Kinds.Retrieval.Key.{KeyRetrieval, retrieve_key}

abbrev pub retrieval : KeyRetrieval KubernetesSecretEngineConfig
retrieval = record {
  secret_kind = "kubernetes.io/service-account-token";
  entry = "token";
  set = λ key d. record d {
    spec = record (d.spec) {
      kube_se_config = record (d.spec.kube_se_config) { retrieved_service_account_jwt = key };
    };
  };
}

module _ {W : Type 0} (v : Vault W) (get_secret : String → Action W WatchedSecret) where
  unfoldable pub set_internal_credentials : Action (Cell KubernetesSecretEngineConfig W) (Unit {0})
  set_internal_credentials = do
    c ← get
    retrieve_key v get_secret retrieval c.object.spec.jwt_reference.secret
        c.object.spec.jwt_reference.vault_secret

  unfoldable pub prepare_internal_values : Action (Cell KubernetesSecretEngineConfig W) (Unit {0})
  unfolding set_internal_credentials
  prepare_internal_values = set_internal_credentials
