-- ===== src/RabbitMq/Controller.antt =====
-- The reconciler of RabbitMQSecretEngineConfigs: controllers/rabbitmqsecretengineconfig_controller.go,
-- from the prepared context on.
use vault_config_operator.Common.{if◌then◌else◌}
use vault_config_operator.Common.Action.{ok, Action, ◌>>◌}
use vault_config_operator.Vault.{Vault}
use vault_config_operator.Endpoint.{Cell, VaultObject, create, create_or_update_lease}
use vault_config_operator.Outcome.{KubeObject, Kube, Outcome, no_error}
use vault_config_operator.Reconcile.{report}
use vault_config_operator.Database.Retrieval.{Lookups}
use vault_config_operator.RabbitMq.{
  RabbitMqSecretEngineConfig, get_path, get_payload, is_equivalent_to_desired_state, leases,
}
use vault_config_operator.RabbitMq.Retrieval.{set_internal_credentials}

module _ {W : Type 0} (v : Vault W) (l : Lookups W) where
  abbrev pub rabbits : VaultObject RabbitMqSecretEngineConfig W
  rabbits = record {
    get_path = λ d. get_path d;
    get_payload = λ d. get_payload d;
    is_equivalent_to_desired_state = λ d payload. is_equivalent_to_desired_state d payload;
    prepare_internal_values = set_internal_credentials v l;
    prepare_tls_config = λ c. (ok tt, c);
  }

  unfoldable pub manage_reconcile_logic : Action (Cell RabbitMqSecretEngineConfig W) (Unit {0})
  manage_reconcile_logic =
      set_internal_credentials v l >> create v rabbits >> create_or_update_lease v rabbits leases

  -- An object that is being deleted is left as it is, in Vault too.
  unfoldable pub reconcile_rabbit_mq :
      KubeObject RabbitMqSecretEngineConfig
      → Kube RabbitMqSecretEngineConfig W
      → Action (Cell RabbitMqSecretEngineConfig W) Outcome
  reconcile_rabbit_mq x k c =
      if c.object.deleting
      then (ok no_error, c)
      else let (r, c') = manage_reconcile_logic c in
        report x k manage_reconcile_logic manage_reconcile_logic r c'
