-- ===== src/Database/Retrieval.antt =====
-- Where the root credentials of a database are read: `setInternalCredentials`.
use vault_config_operator.Common.{String, List, [], ◌∷◌, Option, none, some, if◌then◌else◌, str_eq}
use vault_config_operator.Common.Action.{
  plain, Result, ok, err, Action, pure, fail, of_result, get, modify, ◌>>=◌,
}
use vault_config_operator.Payload.{Payload}
use vault_config_operator.Vault.{Vault, Secret, read_secret}
use vault_config_operator.Endpoint.{Cell, in_world}
use vault_config_operator.Engine.{as_map, as_string, entries_of}
use vault_config_operator.Credentials.{RootCredentialConfig, VaultSecretReference}
use vault_config_operator.RandomSecret.{RandomSecret}
use vault_config_operator.RandomSecret
use vault_config_operator.Database.{DatabaseSecretEngineConfig, value_at}

-- The objects that `kubeClient` reads: RandomSecrets, and the data of Secrets.
pub record Lookups (W : Type 0) : Type 0 where
  pub get_random_secret : String → Action W RandomSecret
  pub get_secret : String → Action W (List (String × String))

-- `string(secret.Data[k])`, empty for a missing key.
abbrev pub bytes_at : String → List (String × String) → String
bytes_at k [] = ""
bytes_at k ((j, s) ∷ m) = if str_eq j k then s else bytes_at k m

-- `secret.Data[k].(string)`
abbrev pub text_at : String → Payload → Result String
text_at k m = as_string (value_at k m)

abbrev pub contents_of : Option Secret → Result Payload
contents_of none = err (plain "secret not found")
contents_of (some secret) = ok (entries_of secret.contents)

module _ {W : Type 0} (v : Vault W) (k : Lookups W) where
  unfoldable pub set_username_and_password :
      String → String → Action (Cell DatabaseSecretEngineConfig W) (Unit {0})
  set_username_and_password username password = modify (λ c. record c {
    object = record (c.object) {
      spec = record (c.object.spec) {
        dbse_config = record (c.object.spec.dbse_config) {
          retrieved_username = username;
          retrieved_password = password;
        };
      };
    };
  })

  abbrev pub from_random_secret : String → Action (Cell DatabaseSecretEngineConfig W) (Unit {0})
  from_random_secret name = do
    c ← get
    random_secret ← in_world (k.get_random_secret name)
    answer ← in_world (read_secret v (RandomSecret.get_path random_secret))
    contents ← of_result (contents_of answer)
    actual_data ← of_result (
        if random_secret.spec.is_kv_secrets_engine_v2
        then as_map (value_at "data" contents)
        else ok contents)
    password ← of_result (text_at random_secret.spec.secret_key actual_data)
    set_username_and_password c.object.spec.dbse_config.username password

  abbrev pub from_secret : String → Action (Cell DatabaseSecretEngineConfig W) (Unit {0})
  from_secret name = do
    c ← get
    contents ← in_world (k.get_secret name)
    set_username_and_password
        (if str_eq c.object.spec.dbse_config.username ""
          then bytes_at c.object.spec.root_credentials.username_key contents
          else c.object.spec.dbse_config.username)
        (bytes_at c.object.spec.root_credentials.password_key contents)

  abbrev pub from_vault_secret :
      VaultSecretReference → Action (Cell DatabaseSecretEngineConfig W) (Unit {0})
  from_vault_secret reference = do
    c ← get
    answer ← in_world (read_secret v reference.path)
    contents ← of_result (contents_of answer)
    username ← of_result (
        if str_eq c.object.spec.dbse_config.username ""
        then text_at c.object.spec.root_credentials.username_key contents
        else ok c.object.spec.dbse_config.username)
    password ← of_result (text_at c.object.spec.root_credentials.password_key contents)
    set_username_and_password username password

  abbrev pub from_credentials :
      RootCredentialConfig → Action (Cell DatabaseSecretEngineConfig W) (Unit {0})
  from_credentials credentials = elim credentials.random_secret [
    | some name ↦ from_random_secret name
    | none ↦ elim credentials.secret [
      | some name ↦ from_secret name
      | none ↦ elim credentials.vault_secret [
        | some reference ↦ from_vault_secret reference
        | none ↦ fail (plain "no means of retrieving a secret was specified")
      ]
    ]
  ]

  unfoldable pub set_internal_credentials : Action (Cell DatabaseSecretEngineConfig W) (Unit {0})
  set_internal_credentials = do
    c ← get
    elim c.object.status.last_root_password_rotation [
      | some rotated ↦ pure tt
      | none ↦ from_credentials c.object.spec.root_credentials
    ]
