-- ===== src/Reconcile/Tests.antt =====
-- Whole cycles over servers in memory, and the theorems on them at these runs.
use vault_config_operator.Common.{false, refl, ◌≡◌, true, [], arith, Option}
use vault_config_operator.Common.Action.{Error, plain, api, response, Result, ok, err}
use vault_config_operator.Vault.Store.{IsStore}
use vault_config_operator.Payload.{map_equal, deep_equal}
use vault_config_operator.Vault.{Vault, Secret, read, write, has_status, is_404}
use vault_config_operator.Endpoint.{Cell, create_or_update, delete_if_exists}
use vault_config_operator.Conditions.{add_or_replace_condition}
use vault_config_operator.Outcome.{
  ends_well, no_error, get_finalizer, to_lower, record_condition, ensure_finalizer, manage_outcome,
  manage_outcome_with_requeue,
}
use vault_config_operator.Reconcile.{
  reconcile, reconcile_resource, reconcile_deleted, resource_logic, prepare, clean_up_loop,
  manage_clean_up_logic,
}
use vault_config_operator.Reconcile.Resource.{IsReconciled, reconcile_resource-IsReconciled}
use vault_config_operator.Reconcile.Deletion.{
  IsReleased, reconcile_resource-IsReleased, reconcile_resource_keeps_finalizer,
  reconcile_resource_unguarded,
}
use vault_config_operator.Samples.Memory.{Differ, Store, memory, stored_at, as_is, memory-IsStore}
use vault_config_operator.Samples.Cluster.{
  Item, items, vault_items, server, server-IsApi, items-deletable, fresh, leaving, occupied,
}

runs : Unit {0}
unfolding reconcile_resource reconcile reconcile_deleted resource_logic prepare clean_up_loop
    manage_clean_up_logic create_or_update delete_if_exists read write map_equal deep_equal
    get_finalizer to_lower record_condition ensure_finalizer manage_outcome
    manage_outcome_with_requeue add_or_replace_condition
runs = tt

abbrev cell : Cell Item Store
cell = record { object = fresh; world = occupied }

abbrev gone : Cell Item Store
gone = record { object = leaving; world = occupied }

reconcile_resource-IsReconciled_example :
    IsReconciled items server memory vault_items stored_at as_is Differ memory-IsStore server-IsApi
      items-deletable cell
      (reconcile_resource items server memory vault_items cell).1
unfolding runs
reconcile_resource-IsReconciled_example =
    reconcile_resource-IsReconciled items server memory vault_items stored_at as_is Differ
      memory-IsStore server-IsApi items-deletable cell no_error refl refl refl

reconcile_resource-IsReleased_example :
    IsReleased items server memory vault_items stored_at as_is Differ memory-IsStore server-IsApi
      gone
      (reconcile_resource items server memory vault_items gone).1
unfolding runs
reconcile_resource-IsReleased_example =
    reconcile_resource-IsReleased items server memory vault_items stored_at as_is Differ
      memory-IsStore server-IsApi gone no_error refl refl refl refl

abbrev refusal : Result (Option Secret)
refusal = err (plain "sealed")

-- A Vault server that refuses to delete.
abbrev sealed : Vault Store
sealed = record memory { logical_delete = λ p w. (refusal, w) }

sealed-IsStore : IsStore sealed stored_at as_is Differ
sealed-IsStore = record {
  read_keeps = memory-IsStore.read_keeps;
  read_found = memory-IsStore.read_found;
  read_nothing = memory-IsStore.read_nothing;
  read_missing = memory-IsStore.read_missing;
  write_stores = memory-IsStore.write_stores;
  write_keeps = memory-IsStore.write_keeps;
  delete_removes = λ p w s h. cc;
  delete_missing = λ p w e h m. refused e h m;
  delete_keeps = λ p q w h. refl;
}
  where
    refused : {A : Type 0} (e : Error) → refusal ≡ err e → has_status is_404 e ≡ true → A
    refused (plain text) h m = ground arith
    refused (api found text) h m = ground arith
    refused (response code text) h m = cc

reconcile_resource_keeps_finalizer_example :
    (items.contains_finalizer
        (get_finalizer items leaving)
        (reconcile_resource items server sealed vault_items gone).1.object
      ≡ true)
    × (ends_well (reconcile_resource items server sealed vault_items gone).0 ≡ false)
unfolding runs
reconcile_resource_keeps_finalizer_example =
    reconcile_resource_keeps_finalizer items server sealed vault_items stored_at as_is Differ
      sealed-IsStore server-IsApi gone (plain "sealed") refl refl refl

abbrev abandoned : Cell Item Store
abandoned = record gone { object = record leaving { finalizers = [] } }

reconcile_resource_unguarded_example :
    reconcile_resource items server memory vault_items abandoned ≡ (ok no_error, abandoned)
unfolding runs
reconcile_resource_unguarded_example =
    reconcile_resource_unguarded items server memory vault_items abandoned refl refl
