-- ===== src/RabbitMq/Retrieval.antt =====
-- Where the credentials of a RabbitMQ engine are read: `setInternalCredentials`, which takes what
-- Vault answers for either version of the KV engine.
use vault_config_operator.Common.{String, Option, none, some, if◌then◌else◌, str_eq}
use vault_config_operator.Common.Action.{
  plain, Result, ok, err, Action, fail, of_result, get, modify, ◌>>=◌,
}
use vault_config_operator.Payload.{Payload, Value, str, obj, lookup}
use vault_config_operator.Vault.{Vault, read_secret}
use vault_config_operator.Endpoint.{Cell, in_world}
use vault_config_operator.Credentials.{RootCredentialConfig, VaultSecretReference}
use vault_config_operator.RandomSecret.{RandomSecret}
use vault_config_operator.RandomSecret
use vault_config_operator.Database.Retrieval.{Lookups, bytes_at, contents_of}
use vault_config_operator.RabbitMq.{RabbitMqSecretEngineConfig, set_username_and_password}

-- `dataInterface.(map[string]interface{})`, with an error where it fails.
abbrev pub nested_data : Value → Result Payload
nested_data (obj m) = ok m
nested_data _ = err (plain "vault secret data is not in expected format for KV v2")

abbrev pub data_or : Payload → Option Value → Result Payload
data_or contents none = ok contents
data_or contents (some nested) = nested_data nested

-- The data of a secret, under "data" where there is such a key.
unfoldable pub secret_data : Payload → Result Payload
secret_data contents = data_or contents (lookup "data" contents)

-- `secretData[k].(string)`, with an error where it fails.
abbrev pub text_or : String → Option Value → Result String
text_or message (some (str s)) = ok s
text_or message _ = err (plain message)

module _ {W : Type 0} (v : Vault W) (k : Lookups W) where
  abbrev pub Step : Type 0
  Step = Action (Cell RabbitMqSecretEngineConfig W) (Unit {0})

  abbrev pub keep : String → String → Step
  keep username password =
      modify (λ c. record c { object = set_username_and_password username password c.object })

  -- What Vault answers at a path.
  unfoldable pub data_at : String → Action (Cell RabbitMqSecretEngineConfig W) Payload
  data_at path = do
    answer ← in_world (read_secret v path)
    contents ← of_result (contents_of answer)
    of_result (secret_data contents)

  unfoldable pub from_random_secret : String → Step
  from_random_secret name = do
    c ← get
    random_secret ← in_world (k.get_random_secret name)
    found ← data_at (RandomSecret.get_path random_secret)
    password ← of_result (
        text_or "secret key not found or not a string in vault secret"
          (lookup random_secret.spec.secret_key found))
    keep c.object.spec.rmqse_config.username password

  unfoldable pub from_secret : RootCredentialConfig → String → Step
  from_secret credentials name = do
    c ← get
    contents ← in_world (k.get_secret name)
    keep
        (if str_eq c.object.spec.rmqse_config.username ""
          then bytes_at credentials.username_key contents
          else c.object.spec.rmqse_config.username)
        (bytes_at credentials.password_key contents)

  unfoldable pub from_vault_secret : RootCredentialConfig → VaultSecretReference → Step
  from_vault_secret credentials reference = do
    c ← get
    found ← data_at reference.path
    username ← of_result (
        if str_eq c.object.spec.rmqse_config.username ""
        then text_or "username key not found or not a string in vault secret"
            (lookup credentials.username_key found)
        else ok c.object.spec.rmqse_config.username)
    password ← of_result (
        text_or "password key not found or not a string in vault secret"
          (lookup credentials.password_key found))
    keep username password

  abbrev pub from_credentials :
      RootCredentialConfig → Option String → Option String → Option VaultSecretReference → Step
  from_credentials credentials (some name) secret vault_secret = from_random_secret name
  from_credentials credentials none (some name) vault_secret = from_secret credentials name
  from_credentials credentials none none (some reference) = from_vault_secret credentials reference
  from_credentials credentials none none none =
      fail (plain "no means of retrieving a secret was specified")

  unfoldable pub set_internal_credentials : Step
  set_internal_credentials = do
    c ← get
    from_credentials c.object.spec.root_credentials c.object.spec.root_credentials.random_secret
        c.object.spec.root_credentials.secret c.object.spec.root_credentials.vault_secret
