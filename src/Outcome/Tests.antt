-- ===== src/Outcome/Tests.antt =====
-- `ManageOutcome` with an API server in memory.
use vault_config_operator.Common.{refl, none}
use vault_config_operator.Common.Int.{pos}
use vault_config_operator.Endpoint.{Cell}
use vault_config_operator.Conditions.{add_or_replace_condition}
use vault_config_operator.Outcome.{
  no_error, get_finalizer, to_lower, record_condition, ensure_finalizer,
  manage_outcome_with_requeue,
}
use vault_config_operator.Outcome.Recorded.{IsGuarded, manage_outcome-IsGuarded}
use vault_config_operator.Samples.Memory.{Store, stored_at}
use vault_config_operator.Samples.Cluster.{Item, items, server, server-IsApi, fresh, occupied}

runs : Unit {0}
unfolding get_finalizer to_lower record_condition ensure_finalizer manage_outcome_with_requeue
    add_or_replace_condition
runs = tt

abbrev cell : Cell Item Store
cell = record { object = fresh; world = occupied }

manage_outcome-IsGuarded_example :
    IsGuarded items server stored_at server-IsApi
      (manage_outcome_with_requeue items server none (pos 0) cell).1.object
unfolding runs
manage_outcome-IsGuarded_example =
    manage_outcome-IsGuarded items server stored_at server-IsApi (pos 0) cell no_error refl refl
      refl
