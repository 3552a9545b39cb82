-- ===== src/Credentials.antt =====
-- Where root credentials come from: `RootCredentialConfig` of api/v1alpha1/utils/commons.go.
use vault_config_operator.Common.{
  ℕ, String, Bool, List, ◌+◌, ◌==◌, Option, none, some, is_some, if◌then◌else◌,
}
use vault_config_operator.Common.Action.{Error, plain}

pub record VaultSecretReference : Type 0 where
  pub path : String

-- Of an object reference only the name is used.
pub record RootCredentialConfig : Type 0 where
  pub vault_secret : Option VaultSecretReference
  pub secret : Option String
  pub random_secret : Option String
  pub password_key : String
  pub username_key : String

-- `TargetNamespaceConfig` of the same file; of the label selector, a text of it.
pub record TargetNamespaceConfig : Type 0 where
  pub target_namespace_selector : Option String
  pub target_namespaces : Option (List String)

abbrev pub count_of : Bool → ℕ
count_of b = if b then 1 else 0

abbrev pub only_one : Error
only_one =
    plain
      "only one of spec.rootCredentials.vaultSecret or spec.rootCredentials.secret or spec.rootCredentials.randomSecret can be specified"

unfoldable pub validate_either_from_vault_secret_or_from_secret :
    RootCredentialConfig → Option Error
validate_either_from_vault_secret_or_from_secret credentials =
    if count_of (is_some credentials.secret) + count_of (is_some credentials.vault_secret) == 1
    then none
    else some only_one

unfoldable pub validate_either_from_vault_secret_or_from_secret_or_from_random_secret :
    RootCredentialConfig → Option Error
validate_either_from_vault_secret_or_from_secret_or_from_random_secret credentials =
    if count_of (is_some credentials.random_secret)
        + count_of (is_some credentials.secret)
        + count_of (is_some credentials.vault_secret)
      == 1
    then none
    else some only_one
