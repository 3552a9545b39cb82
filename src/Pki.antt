-- ===== src/Pki.antt =====
-- The endpoint of a PKI engine's configuration: api/v1alpha1/utils/vautlpkiengineobject.go.
pub mod Config
mod Tests
use vault_config_operator.Common.{String, Bool, true, false, not, Option, none, some, if◌then◌else◌}
use vault_config_operator.Common.Action.{Action, pure, get, ◌>>=◌}
use vault_config_operator.Payload.{Payload}
use vault_config_operator.Vault.{Vault, Secret, read, write, write_with_response}
use vault_config_operator.Endpoint.{Cell, VaultObject, in_world, delete_at}

-- Interface `VaultPKIEngineObject`.
pub record VaultPkiEngineObject (O W : Type 0) : Type 0 where
  pub get_generate_path : O → String
  pub get_delete_path : O → String
  pub get_generated_status : O → Bool
  pub set_generated_status : Bool → O → O
  pub get_config_urls_path : O → String
  pub get_config_crl_path : O → String
  pub get_config_urls_payload : O → Payload
  pub get_config_crl_payload : O → Payload
  pub create_exported : Option Secret → Action (Cell O W) Bool
  pub set_exported_status : Bool → O → O
  pub set_intermediate : Action (Cell O W) (Unit {0})
  pub get_signed_status : O → Bool
  pub set_signed_status : Bool → O → O

module _ {O W : Type 0} (v : Vault W) (o : VaultObject O W) (k : VaultPkiEngineObject O W) where
  unfoldable pub pki_exists : Action (Cell O W) Bool
  pki_exists = do c ← get; pure (k.get_generated_status c.object)

  unfoldable pub generate : Action (Cell O W) (Option Secret)
  generate = do
    c ← get
    in_world (write_with_response v (k.get_generate_path c.object) (o.get_payload c.object))

  unfoldable pub pki_delete_if_exists : Action (Cell O W) (Unit {0})
  pki_delete_if_exists = do c ← get; delete_at v (k.get_delete_path c.object)

  unfoldable pub read_config : String → Action (Cell O W) (Option Payload)
  read_config path = do answer ← in_world (read v path); pure answer.0

  -- Whatever `config_path` is, the write goes to the path of the CRL configuration.
  unfoldable pub create_or_update_config : String → Payload → Action (Cell O W) (Unit {0})
  unfolding read_config
  create_or_update_config config_path payload = do
    c ← get
    current ← read_config config_path
    if not (o.is_equivalent_to_desired_state c.object current)
        then in_world (write v (k.get_config_crl_path c.object) payload)
        else pure tt

  unfoldable pub create_or_update_config_urls : Action (Cell O W) (Unit {0})
  create_or_update_config_urls = do
    c ← get
    create_or_update_config (k.get_config_urls_path c.object) (k.get_config_urls_payload c.object)

  unfoldable pub create_or_update_config_crl : Action (Cell O W) (Unit {0})
  create_or_update_config_crl = do
    c ← get
    create_or_update_config (k.get_config_crl_path c.object) (k.get_config_crl_payload c.object)
