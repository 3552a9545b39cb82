-- ===== src/Kinds/DatabaseSecretEngineStaticRole.antt =====
-- The resource DatabaseSecretEngineStaticRole:
-- api/v1alpha1/databasesecretenginestaticrole_types.go and its webhook.
use vault_config_operator.Common.{
  ℕ, ◌+◌, String, Bool, not, List, [], ◌∷◌, Option, none, some, if◌then◌else◌, ◌==◌, str_eq,
}
use vault_config_operator.Common.Int.{ℤ}
use vault_config_operator.Common.Text.{◌^^◌}
use vault_config_operator.Common.Action.{Error, plain}
use vault_config_operator.Paths.{cleanse_path}
use vault_config_operator.Payload.{Payload, end, field, str, int, strs, dict, insert, map_equal}
use vault_config_operator.Conditions.{Condition}
use vault_config_operator.KubeAuth.{KubeAuthConfiguration, VaultConnection}

pub record PasswordCredentialConfig : Type 0 where
  pub password_policy : String

pub record RsaPrivateKeyCredentialConfig : Type 0 where
  pub key_bits : ℤ
  pub format : String

pub record DbseStaticRole : Type 0 where
  pub db_name : String
  pub username : String
  pub rotation_period : ℤ
  pub rotation_statements : Option (List String)
  pub credential_type : String
  pub password_credential_config : Option PasswordCredentialConfig
  pub rsa_private_key_credential_config : Option RsaPrivateKeyCredentialConfig

pub record DatabaseSecretEngineStaticRoleSpec : Type 0 where
  pub connection : Option VaultConnection
  pub authentication : KubeAuthConfiguration
  pub path : String
  pub dbse_static_role : DbseStaticRole
  pub name : String

pub record DatabaseSecretEngineStaticRoleStatus : Type 0 where
  pub conditions : List Condition

pub record DatabaseSecretEngineStaticRole : Type 0 where
  pub metadata_name : String
  pub spec : DatabaseSecretEngineStaticRoleSpec
  pub status : DatabaseSecretEngineStaticRoleStatus

unfoldable pub get_path : DatabaseSecretEngineStaticRole → String
get_path d =
    if not (str_eq d.spec.name "")
    then cleanse_path (d.spec.path ^^ "/" ^^ "static-roles" ^^ "/" ^^ d.spec.name)
    else cleanse_path (d.spec.path ^^ "/" ^^ "static-roles" ^^ "/" ^^ d.metadata_name)

unfoldable pub password_to_map : PasswordCredentialConfig → List (String × String)
password_to_map i = ("password_policy", i.password_policy) ∷ []

abbrev pub count_of : {A : Type 0} → Option A → ℕ
count_of none = 0
count_of (some _) = 1

-- Exactly one of the two configurations is to be given.
unfoldable pub validate_either_password_or_key : DatabaseSecretEngineStaticRole → Option Error
validate_either_password_or_key r =
    if not (
      count_of r.spec.dbse_static_role.password_credential_config
        + count_of r.spec.dbse_static_role.rsa_private_key_credential_config
      == 1)
    then some (
        plain
          "only one of spec.passwordCredentialConfig or spec.rsaPrivateKeyCredentialConfig can be specified")
    else none

-- The webhook `ValidateUpdate`, the new object first.
unfoldable pub validate_update :
    DatabaseSecretEngineStaticRole → DatabaseSecretEngineStaticRole → Option Error
validate_update r old =
    if not (str_eq r.spec.path old.spec.path)
    then some (plain "spec.path cannot be updated")
    else validate_either_password_or_key r

-- `itoa` is `strconv.Itoa`.
module _ (itoa : ℤ → String) where
  unfoldable pub key_to_map : RsaPrivateKeyCredentialConfig → List (String × String)
  key_to_map i = ("key_bits", itoa i.key_bits) ∷ ("format", i.format) ∷ []

  abbrev pub with_password : Option PasswordCredentialConfig → Payload → Payload
  with_password none payload = payload
  with_password (some i) payload =
      insert "credential_config" (dict (some (password_to_map i))) payload

  abbrev pub with_key : Option RsaPrivateKeyCredentialConfig → Payload → Payload
  with_key none payload = payload
  with_key (some i) payload = insert "credential_config" (dict (some (key_to_map i))) payload

  -- Where both configurations are given, the key's takes the place of the password's.
  unfoldable pub to_map : DbseStaticRole → Payload
  to_map i = with_key i.rsa_private_key_credential_config (
      with_password i.password_credential_config (
        field "db_name" (str i.db_name) (
          field "username" (str i.username) (
            field "rotation_period" (int i.rotation_period) (
              field "rotation_statements" (strs i.rotation_statements)
                (field "credential_type" (str i.credential_type) end))))))

  unfoldable pub get_payload : DatabaseSecretEngineStaticRole → Payload
  get_payload d = to_map d.spec.dbse_static_role

  unfoldable pub is_equivalent_to_desired_state :
      DatabaseSecretEngineStaticRole → Option Payload → Bool
  is_equivalent_to_desired_state d payload = map_equal (to_map d.spec.dbse_static_role) payload
