-- ===== src/Kinds/Retrieval/AzureSecret.antt =====
-- The credentials of AzureSecretEngineConfig: api/v1alpha1/azuresecretengineconfig_types.go.
use vault_config_operator.Common.{String, if◌then◌else◌}
use vault_config_operator.Common.Action.{Action, pure, get, ◌>>=◌}
use vault_config_operator.Vault.{Vault}
use vault_config_operator.Endpoint.{Cell}
use vault_config_operator.Database.Retrieval.{Lookups}
use vault_config_operator.Kinds.AzureSecretEngineConfig.{AzureSecretEngineConfig}
use vault_config_operator.Kinds.Retrieval.{Retrieval, is_default, retrieve}

abbrev pub set_client_id_and_client_secret :
    String → String → AzureSecretEngineConfig → AzureSecretEngineConfig
set_client_id_and_client_secret username password d = record d {
  spec = record (d.spec) {
    azure_se_config = record (d.spec.azure_se_config) {
      retrieved_client_id = username;
      retrieved_client_password = password;
    };
  };
}

abbrev pub retrieval : Retrieval AzureSecretEngineConfig
retrieval = record {
  username = λ d. d.spec.azure_se_config.client_id;
  username_beside_secret = λ d. d.spec.azure_se_config.client_id;
  set = set_client_id_and_client_secret;
}

module _ {W : Type 0} (v : Vault W) (k : Lookups W) where
  unfoldable pub set_internal_credentials : Action (Cell AzureSecretEngineConfig W) (Unit {0})
  set_internal_credentials = do c ← get; retrieve v k retrieval c.object.spec.azure_credentials

  unfoldable pub prepare_internal_values : Action (Cell AzureSecretEngineConfig W) (Unit {0})
  unfolding set_internal_credentials
  prepare_internal_values = do
    c ← get
    if is_default "clientid" "clientsecret" c.object.spec.azure_credentials
        then pure tt
        else set_internal_credentials
