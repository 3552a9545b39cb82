-- ===== src/Kinds/Retrieval/GcpAuth.antt =====
-- The credentials of GCPAuthEngineConfig: api/v1alpha1/gcpauthengineconfig_types.go.
use vault_config_operator.Common.{String, if◌then◌else◌}
use vault_config_operator.Common.Action.{Action, pure, get, ◌>>=◌}
use vault_config_operator.Vault.{Vault}
use vault_config_operator.Endpoint.{Cell}
use vault_config_operator.Database.Retrieval.{Lookups}
use vault_config_operator.Kinds.GcpAuthEngineConfig.{GcpAuthEngineConfig}
use vault_config_operator.Kinds.Retrieval.{Retrieval, is_default, retrieve}

abbrev pub set_service_account_and_credentials :
    String → String → GcpAuthEngineConfig → GcpAuthEngineConfig
set_service_account_and_credentials username password d = record d {
  spec = record (d.spec) {
    gcp_config = record (d.spec.gcp_config) {
      retrieved_service_account = username;
      retrieved_credentials = password;
    };
  };
}

abbrev pub retrieval : Retrieval GcpAuthEngineConfig
retrieval = record {
  username = λ d. d.spec.gcp_config.service_account;
  username_beside_secret = λ d. d.spec.gcp_credentials.username_key;
  set = set_service_account_and_credentials;
}

module _ {W : Type 0} (v : Vault W) (k : Lookups W) where
  unfoldable pub set_internal_credentials : Action (Cell GcpAuthEngineConfig W) (Unit {0})
  set_internal_credentials = do c ← get; retrieve v k retrieval c.object.spec.gcp_credentials

  unfoldable pub prepare_internal_values : Action (Cell GcpAuthEngineConfig W) (Unit {0})
  unfolding set_internal_credentials
  prepare_internal_values = do
    c ← get
    if is_default "serviceaccount" "credentials" c.object.spec.gcp_credentials
        then pure tt
        else set_internal_credentials
