-- ===== src/Kinds/Retrieval/Key.antt =====
-- Where the configurations of the GitHub and the Kubernetes secret engine read their one key: the
-- method `setInternalCredentials` of githubsecretengineconfig_types.go and
-- kubernetessecretengineconfig_types.go in api/v1alpha1.
use vault_config_operator.Common.{String, not, Option, none, some, if◌then◌else◌, str_eq}
use vault_config_operator.Common.Text.{◌^^◌}
use vault_config_operator.Common.Action.{
  plain, Result, panic, Action, fail, of_result, modify, ◌>>=◌,
}
use vault_config_operator.Vault.{Vault, Secret}
use vault_config_operator.Endpoint.{Cell, in_world}
use vault_config_operator.Engine.{entries_of}
use vault_config_operator.Credentials.{VaultSecretReference}
use vault_config_operator.Database.Retrieval.{bytes_at, text_at}
use vault_config_operator.Watch.{WatchedSecret}

-- The type that a Kubernetes secret must have, its entry, and the field that keeps what was read.
pub record KeyRetrieval (O : Type 0) : Type 0 where
  pub secret_kind : String
  pub entry : String
  pub set : String → O → O

-- `secret.Data["key"].(string)`; a nil secret is a nil pointer.
abbrev pub key_in : Option Secret → Result String
key_in none = panic
key_in (some secret) = text_at "key" (entries_of secret.contents)

module _ {O W : Type 0} (v : Vault W) (get_secret : String → Action W WatchedSecret)
    (r : KeyRetrieval O) where
  abbrev pub keep : String → Action (Cell O W) (Unit {0})
  keep key = modify (λ c. record c { object = r.set key c.object })

  unfoldable pub key_from_secret : String → Action (Cell O W) (Unit {0})
  key_from_secret name = do
    secret ← in_world (get_secret name)
    if not (str_eq secret.kind r.secret_kind)
        then fail (plain ("secret must be of type: " ^^ r.secret_kind))
        else keep (bytes_at r.entry secret.contents)

  unfoldable pub key_from_vault_secret : VaultSecretReference → Action (Cell O W) (Unit {0})
  key_from_vault_secret reference = do
    answer ← in_world (v.logical_read reference.path)
    key ← of_result (key_in answer)
    keep key

  abbrev pub retrieve_key :
      Option String → Option VaultSecretReference → Action (Cell O W) (Unit {0})
  retrieve_key secret vault_secret = elim secret [
    | some name ↦ key_from_secret name
    | none ↦ elim vault_secret [
      | some reference ↦ key_from_vault_secret reference
      | none ↦ fail (plain "no means of retrieving a secret was specified")
    ]
  ]
