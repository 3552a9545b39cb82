-- ===== src/Kinds/Retrieval/Quay.antt =====
-- The token of QuaySecretEngineConfig: api/v1alpha1/quaysecretengineconfig_types.go.
use vault_config_operator.Common.{String, none, some}
use vault_config_operator.Common.Action.{plain, Action, fail, of_result, get, modify, ◌>>=◌}
use vault_config_operator.Vault.{Vault, read_secret}
use vault_config_operator.Endpoint.{Cell, in_world}
use vault_config_operator.Credentials.{RootCredentialConfig, VaultSecretReference}
use vault_config_operator.RandomSecret.{RandomSecret}
use vault_config_operator.RandomSecret
use vault_config_operator.Database.Retrieval.{Lookups, bytes_at, text_at, contents_of}
use vault_config_operator.Kinds.QuaySecretEngineConfig.{QuaySecretEngineConfig}

abbrev pub set_token : String → QuaySecretEngineConfig → QuaySecretEngineConfig
set_token token q = record q {
  spec = record (q.spec) { quay_config = record (q.spec.quay_config) { retrieved_token = token } };
}

module _ {W : Type 0} (v : Vault W) (k : Lookups W) where
  abbrev keep_token : String → Action (Cell QuaySecretEngineConfig W) (Unit {0})
  keep_token token = modify (λ c. record c { object = set_token token c.object })

  abbrev from_random_secret : String → Action (Cell QuaySecretEngineConfig W) (Unit {0})
  from_random_secret name = do
    random_secret ← in_world (k.get_random_secret name)
    answer ← in_world (read_secret v (RandomSecret.get_path random_secret))
    contents ← of_result (contents_of answer)
    token ← of_result (text_at random_secret.spec.secret_key contents)
    keep_token token

  abbrev from_secret : String → String → Action (Cell QuaySecretEngineConfig W) (Unit {0})
  from_secret key name = do
    contents ← in_world (k.get_secret name)
    keep_token (bytes_at key contents)

  abbrev from_vault_secret :
      String → VaultSecretReference → Action (Cell QuaySecretEngineConfig W) (Unit {0})
  from_vault_secret key reference = do
    answer ← in_world (read_secret v reference.path)
    contents ← of_result (contents_of answer)
    token ← of_result (text_at key contents)
    keep_token token

  abbrev from_credentials : RootCredentialConfig → Action (Cell QuaySecretEngineConfig W) (Unit {0})
  from_credentials credentials = elim credentials.random_secret [
    | some name ↦ from_random_secret name
    | none ↦ elim credentials.secret [
      | some name ↦ from_secret credentials.password_key name
      | none ↦ elim credentials.vault_secret [
        | some reference ↦ from_vault_secret credentials.password_key reference
        | none ↦ fail (plain "no means of retrieving a secret was specified")
      ]
    ]
  ]

  unfoldable pub set_internal_credentials : Action (Cell QuaySecretEngineConfig W) (Unit {0})
  set_internal_credentials = do c ← get; from_credentials c.object.spec.root_credentials

  unfoldable pub prepare_internal_values : Action (Cell QuaySecretEngineConfig W) (Unit {0})
  unfolding set_internal_credentials
  prepare_internal_values = set_internal_credentials
