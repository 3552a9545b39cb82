-- ===== src/Reconcile.antt =====
-- The reconcilers of controllers/vaultresourcecontroller, for resources, engines and PKI engines.
-- Their `Reconcile` and `manageCleanUpLogic` have one text, which takes the parts that differ.
pub mod CleanUp
pub mod Resource
pub mod Deletion
mod Tests
use vault_config_operator.Common.{
  String, Bool, true, false, not, Option, none, some, List, [], ◌∷◌, if◌then◌else◌,
}
use vault_config_operator.Common.Int.{pos}
use vault_config_operator.Common.Action.{
  Error, Result, ok, err, panic, Action, pure, get, modify, ◌>>=◌, ◌>>◌,
}
use vault_config_operator.Vault.{Vault, Secret}
use vault_config_operator.Endpoint.{Cell, VaultObject, create, create_or_update, delete_if_exists}
use vault_config_operator.Conditions.{Condition, is_success}
use vault_config_operator.Outcome.{
  KubeObject, Kube, Outcome, no_error, get_finalizer, wants_finalizer, manage_outcome,
}
use vault_config_operator.Engine.{
  VaultEngineObject, engine_exists, create_or_update_tune_config, get_accessor,
}
use vault_config_operator.Pki.{
  VaultPkiEngineObject, generate, pki_delete_if_exists, create_or_update_config_urls,
  create_or_update_config_crl,
}

module _ {O W : Type 0} (x : KubeObject O) (delete : Action (Cell O W) (Unit {0})) where
  -- The loop of `manageCleanUpLogic`: a delete for each condition that tells of a success.
  unfoldable pub clean_up_loop : List Condition → Action (Cell O W) (Unit {0})
  clean_up_loop [] = pure tt
  clean_up_loop (condition ∷ conditions) =
      let rest = clean_up_loop conditions in if is_success condition then delete >> rest else rest

  unfoldable pub manage_clean_up_logic : Action (Cell O W) (Unit {0})
  manage_clean_up_logic c =
      if wants_finalizer (x.deletable c.object)
      then clean_up_loop (x.get_conditions c.object) c
      else (ok tt, c)

module _ {O W : Type 0} (x : KubeObject O) (k : Kube O W)
    (delete logic : Action (Cell O W) (Unit {0})) where
  -- A step that ended, with or without an error, is reported by `ManageOutcome`.
  abbrev pub report : Result (Unit {0}) → Action (Cell O W) Outcome
  report (ok _) c = manage_outcome x k none c
  report (err e) c = manage_outcome x k (some e) c
  report panic c = (panic, c)

  -- After the update without the finalizer nothing more is recorded, unless it failed.
  abbrev pub report_removal : Result (Unit {0}) → Action (Cell O W) Outcome
  report_removal (ok _) c = (ok no_error, c)
  report_removal (err e) c = manage_outcome x k (some e) c
  report_removal panic c = (panic, c)

  abbrev pub without_finalizer : Cell O W → Cell O W
  without_finalizer c = record c { object = x.remove_finalizer (get_finalizer x c.object) c.object }

  abbrev pub remove_finalizer : Result (Unit {0}) → Action (Cell O W) Outcome
  remove_finalizer (ok _) c = let (r, c') = k.update (without_finalizer c) in report_removal r c'
  remove_finalizer (err e) c = manage_outcome x k (some e) c
  remove_finalizer panic c = (panic, c)

  unfoldable pub reconcile_deleted : Action (Cell O W) Outcome
  reconcile_deleted c =
      if not (x.contains_finalizer (get_finalizer x c.object) c.object)
      then (ok no_error, c)
      else let (r, c') = manage_clean_up_logic x delete c in remove_finalizer r c'

  unfoldable pub reconcile : Action (Cell O W) Outcome
  reconcile c =
      if x.is_deleting c.object then reconcile_deleted c else let (r, c') = logic c in report r c'

module _ {O W : Type 0} (v : Vault W) (o : VaultObject O W) where
  unfoldable pub prepare : Action (Cell O W) (Unit {0})
  prepare = o.prepare_internal_values >> o.prepare_tls_config

  -- `VaultResource.manageReconcileLogic`
  unfoldable pub resource_logic : Action (Cell O W) (Unit {0})
  resource_logic = prepare >> create_or_update v o

  module _ (g : VaultEngineObject O) where
    -- `VaultEngineResource.manageReconcileLogic`
    unfoldable pub engine_logic : Action (Cell O W) (Unit {0})
    engine_logic = do
      prepare
      found ← engine_exists v o g
      if not found then create v o else create_or_update_tune_config v o g
      accessor ← get_accessor v o g
      modify (λ c. record c { object = g.set_accessor accessor c.object })

  module _ (p : VaultPkiEngineObject O W) where
    abbrev pub change : (O → O) → Action (Cell O W) (Unit {0})
    change f = modify (λ c. record c { object = f c.object })

    unfoldable pub generate_once : Action (Cell O W) (Unit {0})
    generate_once = do
      c ← get
      if p.get_generated_status c.object then pure tt else do
        secret ← generate v o p
        change (p.set_generated_status true)
        exported ← p.create_exported secret
        change (p.set_exported_status exported)

    unfoldable pub sign_once : Action (Cell O W) (Unit {0})
    sign_once = do
      c ← get
      if p.get_signed_status c.object
          then pure tt
          else (p.set_intermediate >> change (p.set_signed_status true))

    -- `VaultPKIEngineResource.manageReconcileLogic`, which prepares no TLS configuration.
    unfoldable pub pki_logic : Action (Cell O W) (Unit {0})
    pki_logic = do
      o.prepare_internal_values
      generate_once
      sign_once
      create_or_update_config_urls v o p
      create_or_update_config_crl v o p

module _ {O W : Type 0} (x : KubeObject O) (k : Kube O W) (v : Vault W) (o : VaultObject O W) where
  -- `VaultResource.Reconcile`
  unfoldable pub reconcile_resource : Action (Cell O W) Outcome
  reconcile_resource = reconcile x k (delete_if_exists v o) (resource_logic v o)

  -- `VaultEngineResource.Reconcile`
  unfoldable pub reconcile_engine : VaultEngineObject O → Action (Cell O W) Outcome
  reconcile_engine g = reconcile x k (delete_if_exists v o) (engine_logic v o g)

  -- `VaultPKIEngineResource.Reconcile`
  unfoldable pub reconcile_pki : VaultPkiEngineObject O W → Action (Cell O W) Outcome
  reconcile_pki p = reconcile x k (pki_delete_if_exists v o p) (pki_logic v o p)
