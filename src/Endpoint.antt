-- ===== src/Endpoint.antt =====
-- The endpoints of api/v1alpha1/utils/vaultobject.go: an object of the operator and the place in
-- Vault where it is kept.
pub mod Converge
pub mod Delete
mod Tests
use vault_config_operator.Common.{
  ℕ, String, Bool, true, false, not, Option, none, some, if◌then◌else◌,
}
use vault_config_operator.Common.Action.{
  Error, Result, ok, err, panic, Action, pure, fail, of_result, get, try, ◌>>=◌, ◌>>◌,
}
use vault_config_operator.Common.Text.{replace_first}
use vault_config_operator.Payload.{Payload}
use vault_config_operator.Vault.{Vault, Secret, has_status, is_404, read, write}

-- The object that a Go pointer refers to, with the world around it: calls change both.
pub record Cell (O W : Type 0) : Type 0 where
  pub object : O
  pub world : W

-- A call that leaves the object alone.
abbrev pub in_world {ℓ} : {O W : Type 0} {A : Type ℓ} → Action W A → Action (Cell O W) A
in_world m c = let (r, w) = m c.world in (r, record c { world = w })

-- The methods of interface `VaultObject` that the endpoints and reconcilers call; `IsDeletable` is
-- among the fields of `KubeObject`. A payload that was read may be the nil map.
pub record VaultObject (O W : Type 0) : Type 0 where
  pub get_path : O → String
  pub get_payload : O → Payload
  pub is_equivalent_to_desired_state : O → Option Payload → Bool
  pub prepare_internal_values : Action (Cell O W) (Unit {0})
  pub prepare_tls_config : Action (Cell O W) (Unit {0})

-- The end of `DeleteIfExists` and its like: a 404 is no error.
abbrev pub delete_answer : Result (Option Secret) → Result (Unit {0})
delete_answer (ok _) = ok tt
delete_answer (err e) = if has_status is_404 e then ok tt else err e
delete_answer panic = panic

module _ {O W : Type 0} (v : Vault W) where
  abbrev pub delete_at : String → Action (Cell O W) (Unit {0})
  delete_at path = do
    answer ← try (in_world (v.logical_delete path))
    of_result (delete_answer answer)

module _ {O W : Type 0} (v : Vault W) (o : VaultObject O W) where
  unfoldable pub delete_kvv2_if_exists : Action (Cell O W) (Unit {0})
  delete_kvv2_if_exists = do
    c ← get
    delete_at v (replace_first "/data/" "/metadata/" (o.get_path c.object))

  unfoldable pub delete_if_exists : Action (Cell O W) (Unit {0})
  delete_if_exists = do c ← get; delete_at v (o.get_path c.object)

  unfoldable pub exists : Action (Cell O W) Bool
  exists = do c ← get; answer ← in_world (read v (o.get_path c.object)); pure answer.1

  unfoldable pub create : Action (Cell O W) (Unit {0})
  create = do c ← get; in_world (write v (o.get_path c.object) (o.get_payload c.object))

  unfoldable pub create_or_update : Action (Cell O W) (Unit {0})
  create_or_update = do
    c ← get
    answer ← in_world (read v (o.get_path c.object))
    if not answer.1
        then in_world (write v (o.get_path c.object) (o.get_payload c.object))
        else if not (o.is_equivalent_to_desired_state c.object answer.0)
        then in_world (write v (o.get_path c.object) (o.get_payload c.object))
        else pure tt

-- What `RabbitMQEngineConfigVaultObject` adds.
pub record RabbitMqObject (O : Type 0) : Type 0 where
  pub get_lease_path : O → String
  pub get_lease_payload : O → Payload
  pub check_ttl_values_provided : O → Bool

module _ {O W : Type 0} (v : Vault W) (o : VaultObject O W) (q : RabbitMqObject O) where
  unfoldable pub create_or_update_lease : Action (Cell O W) (Unit {0})
  create_or_update_lease = do
    c ← get
    if q.check_ttl_values_provided c.object then pure tt else do
      answer ← in_world (read v (q.get_lease_path c.object))
      if not answer.1
          then in_world (write v (q.get_lease_path c.object) (q.get_lease_payload c.object))
          else if not (o.is_equivalent_to_desired_state c.object answer.0)
          then in_world (write v (q.get_lease_path c.object) (q.get_lease_payload c.object))
          else pure tt
