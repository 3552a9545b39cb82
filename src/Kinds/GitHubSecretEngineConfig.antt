-- ===== src/Kinds/GitHubSecretEngineConfig.antt =====
-- The resource GitHubSecretEngineConfig: api/v1alpha1/githubsecretengineconfig_types.go.
use vault_config_operator.Common.{
  String, Bool, ◌+◌, ◌==◌, not, List, Option, none, some, is_some, if◌then◌else◌, str_eq,
}
use vault_config_operator.Common.Int.{ℤ}
use vault_config_operator.Common.Text.{◌^^◌}
use vault_config_operator.Common.Action.{Error, plain}
use vault_config_operator.Payload.{Payload, end, field, str, int, erase, map_equal}
use vault_config_operator.Conditions.{Condition}
use vault_config_operator.KubeAuth.{KubeAuthConfiguration, VaultConnection}
use vault_config_operator.Credentials.{VaultSecretReference, count_of}

pub record SshKeyConfig : Type 0 where
  pub vault_secret : Option VaultSecretReference
  pub secret : Option String

pub record GhConfig : Type 0 where
  pub application_id : ℤ
  pub github_api_base_url : String
  pub retrieved_ssh_key : String

pub record GitHubSecretEngineConfigSpec : Type 0 where
  pub connection : Option VaultConnection
  pub authentication : KubeAuthConfiguration
  pub path : String
  pub gh_config : GhConfig
  pub ssh_key_reference : SshKeyConfig

pub record GitHubSecretEngineConfigStatus : Type 0 where
  pub conditions : List Condition

pub record GitHubSecretEngineConfig : Type 0 where
  pub metadata_name : String
  pub spec : GitHubSecretEngineConfigSpec
  pub status : GitHubSecretEngineConfigStatus

unfoldable pub get_path : GitHubSecretEngineConfig → String
get_path d = d.spec.path ^^ "/" ^^ "config"

unfoldable pub to_map : GhConfig → Payload
to_map i =
    field "app_id" (int i.application_id)
      (field "prv_key" (str i.retrieved_ssh_key) (field "base_url" (str i.github_api_base_url) end))

unfoldable pub get_payload : GitHubSecretEngineConfig → Payload
get_payload d = to_map d.spec.gh_config

unfoldable pub is_equivalent_to_desired_state : GitHubSecretEngineConfig → Option Payload → Bool
is_equivalent_to_desired_state d payload =
    map_equal (erase "prv_key" (to_map d.spec.gh_config)) payload

unfoldable pub is_valid : GitHubSecretEngineConfig → Option Error
is_valid r =
    if not (
      count_of (is_some r.spec.ssh_key_reference.secret)
        + count_of (is_some r.spec.ssh_key_reference.vault_secret)
      == 1)
    then some (
        plain
          "only one of spec.sSHKeyReference.vaultSecret or spec.sSHKeyReference.secret can be specified")
    else none

-- The webhook `ValidateUpdate`, the new object first.
unfoldable pub validate_update : GitHubSecretEngineConfig → GitHubSecretEngineConfig → Option Error
validate_update r old =
    if not (str_eq r.spec.path old.spec.path)
    then some (plain "spec.path cannot be updated")
    else is_valid r
