-- ===== src/Reconcile/Resource.antt =====
-- Reconciling a resource that is not being deleted.
use vault_config_operator.Common.{String, ◌≡◌, refl, ◌∙◌, true, false, Option, none}
use vault_config_operator.Common.Int.{pos}
use vault_config_operator.Common.Action.{Result, ok, err, panic}
use vault_config_operator.Payload.{Payload}
use vault_config_operator.Vault.{Vault}
use vault_config_operator.Vault.Store.{IsStore}
use vault_config_operator.Endpoint.{Cell, VaultObject, create_or_update, delete_if_exists}
use vault_config_operator.Endpoint.Converge.{IsReached, create_or_update-IsReached}
use vault_config_operator.Outcome.{KubeObject, Kube, Outcome, wants_finalizer, manage_outcome}
use vault_config_operator.Outcome.Api.{IsApi}
use vault_config_operator.Outcome.Recorded.{
  manage_outcome_failure, manage_outcome-at, manage_outcome-IsGuarded, IsGuarded,
}
use vault_config_operator.Reconcile.{reconcile, report, reconcile_resource, resource_logic, prepare}
use vault_config_operator.Reconcile.CleanUp.{>>-ok}

module _ {O W : Type 0} (x : KubeObject O) (k : Kube O W) (v : Vault W) (o : VaultObject O W)
    (at : W → String → Option Payload) (stored : String → Payload → Payload)
    (apart : String → String → Type 0) (s : IsStore v at stored apart) (a : IsApi x k at)
    (deletable : (y : O) → wants_finalizer (x.deletable y) ≡ true) where
  -- What a cycle that succeeded has done: the object was prepared, its place in Vault holds its
  -- desired state, no place apart from it has changed since it was prepared, and the object holds its
  -- finalizer.
  abbrev pub IsReconciled : Cell O W → Cell O W → Type 0
  IsReconciled c c' =
      (c₁ : Cell O W) × (prepare v o c ≡ (ok tt, c₁))
      × IsReached v o at stored apart s c₁ c'.world
      × ((q : String) → apart (o.get_path c₁.object) q → at c'.world q ≡ at c₁.world q)
      × IsGuarded x k at a c'.object

  logic-IsReached :
      (c : Cell O W)
      → (resource_logic v o c).0 ≡ ok tt
      → let c' = (resource_logic v o c).1 in
        (c₁ : Cell O W) × (prepare v o c ≡ (ok tt, c₁))
        × IsReached v o at stored apart s c₁ c'.world
        × ((q : String) → apart (o.get_path c₁.object) q → at c'.world q ≡ at c₁.world q)
  unfolding resource_logic
  logic-IsReached c h =
      let (_, prepared, updated, e) = >>-ok (prepare v o) (create_or_update v o) c h in
      let c₁ = (prepare v o c).1 in
      let (reached, others, _) = create_or_update-IsReached v o at stored apart s c₁ updated in
      rw e (c₁, (λ i. (prepared i, c₁)), reached, others)

  report-IsReconciled :
      (c c' : Cell O W) (r : Result (Unit {0})) (out : Outcome)
      → (r ≡ ok tt
          → (c₁ : Cell O W) × (prepare v o c ≡ (ok tt, c₁))
            × IsReached v o at stored apart s c₁ c'.world
            × ((q : String) → apart (o.get_path c₁.object) q → at c'.world q ≡ at c₁.world q))
      → (report x k (delete_if_exists v o) (resource_logic v o) r c').0 ≡ ok out
      → out.error ≡ none
      → IsReconciled c (report x k (delete_if_exists v o) (resource_logic v o) r c').1
  unfolding manage_outcome
  report-IsReconciled c c' (ok tt) out h e n =
      let (c₁, prepared, reached, others) = h refl in
      let same = manage_outcome-at x k at a none (pos 0) c' in
      (
        c₁,
        prepared,
        rw same reached,
        λ q ne. same q ∙ others q ne,
        manage_outcome-IsGuarded x k at a (pos 0) c' out (deletable c'.object) e n,
      )
  report-IsReconciled c c' (err e') out h e n =
      absurd ((manage_outcome_failure x k at a e' (pos 0) c').0 out e n)
  report-IsReconciled c c' panic out h e n = cc

  -- Where every object may be deleted: a cycle of an object that is not being deleted, which reports
  -- no error, has prepared the object and brought its place in Vault to the desired state of the
  -- object as it was prepared, has changed no place apart from it since, and leaves the object with
  -- its finalizer.
  pub reconcile_resource-IsReconciled :
      (c : Cell O W) (out : Outcome)
      → x.is_deleting c.object ≡ false
      → (reconcile_resource x k v o c).0 ≡ ok out
      → out.error ≡ none
      → IsReconciled c (reconcile_resource x k v o c).1
  unfolding reconcile_resource reconcile
  reconcile_resource-IsReconciled c out living e n = rw living (
      report-IsReconciled c (resource_logic v o c).1 (resource_logic v o c).0 out
        (logic-IsReached c) (rw living at e) n)
