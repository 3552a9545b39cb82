-- ===== src/Kinds/Retrieval.antt =====
-- Where the configurations of engines read their credentials: the method `setInternalCredentials`,
-- which has one text in several files of api/v1alpha1, but for the fields.
pub mod AzureAuth
pub mod AzureSecret
pub mod GcpAuth
pub mod LdapAuth
pub mod JwtOidcAuth
pub mod Key
pub mod GitHub
pub mod KubernetesSecret
pub mod Quay
pub mod Reviewer
pub mod LdapTls
mod Tests
use vault_config_operator.Common.{
  String, Bool, true, false, not, ◌&&◌, Option, none, some, is_some, if◌then◌else◌, str_eq,
}
use vault_config_operator.Common.Action.{
  plain, ok, Action, pure, fail, of_result, get, modify, ◌>>=◌,
}
use vault_config_operator.Vault.{Vault, read_secret}
use vault_config_operator.Endpoint.{Cell, in_world}
use vault_config_operator.Credentials.{RootCredentialConfig, VaultSecretReference}
use vault_config_operator.RandomSecret.{RandomSecret}
use vault_config_operator.RandomSecret
use vault_config_operator.Database.Retrieval.{Lookups, bytes_at, text_at, contents_of}

-- The fields of a kind: the user name of its specification, the one that is set where that is not
-- empty and the credentials come from a Kubernetes secret, and `Set…` of both.
pub record Retrieval (O : Type 0) : Type 0 where
  pub username : O → String
  pub username_beside_secret : O → String
  pub set : String → String → O → O

-- The credentials of which nothing is given but the names of the keys, as in the test
-- `reflect.DeepEqual(…, RootCredentialConfig{…})`.
abbrev pub is_default : String → String → RootCredentialConfig → Bool
is_default username_key password_key credentials =
    not (is_some credentials.vault_secret)
    && not (is_some credentials.secret)
    && not (is_some credentials.random_secret)
    && str_eq credentials.password_key password_key
    && str_eq credentials.username_key username_key

module _ {O W : Type 0} (v : Vault W) (k : Lookups W) (r : Retrieval O) where
  abbrev set_both : String → String → Action (Cell O W) (Unit {0})
  set_both username password = modify (λ c. record c { object = r.set username password c.object })

  abbrev from_random_secret : String → Action (Cell O W) (Unit {0})
  from_random_secret name = do
    c ← get
    random_secret ← in_world (k.get_random_secret name)
    answer ← in_world (read_secret v (RandomSecret.get_path random_secret))
    contents ← of_result (contents_of answer)
    password ← of_result (text_at random_secret.spec.secret_key contents)
    set_both (r.username c.object) password

  abbrev from_secret : RootCredentialConfig → String → Action (Cell O W) (Unit {0})
  from_secret credentials name = do
    c ← get
    contents ← in_world (k.get_secret name)
    set_both
        (if str_eq (r.username c.object) ""
          then bytes_at credentials.username_key contents
          else r.username_beside_secret c.object)
        (bytes_at credentials.password_key contents)

  abbrev from_vault_secret :
      RootCredentialConfig → VaultSecretReference → Action (Cell O W) (Unit {0})
  from_vault_secret credentials reference = do
    c ← get
    answer ← in_world (read_secret v reference.path)
    contents ← of_result (contents_of answer)
    username ← of_result (
        if str_eq (r.username c.object) ""
        then text_at credentials.username_key contents
        else ok (r.username c.object))
    password ← of_result (text_at credentials.password_key contents)
    set_both username password

  abbrev pub retrieve : RootCredentialConfig → Action (Cell O W) (Unit {0})
  retrieve credentials = elim credentials.random_secret [
    | some name ↦ from_random_secret name
    | none ↦ elim credentials.secret [
      | some name ↦ from_secret credentials name
      | none ↦ elim credentials.vault_secret [
        | some reference ↦ from_vault_secret credentials reference
        | none ↦ fail (plain "no means of retrieving a secret was specified")
      ]
    ]
  ]
