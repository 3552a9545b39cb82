-- ===== src/Controllers/Served.antt =====
-- Requests for the resources that most of the controllers reconcile, from the login on.
use vault_config_operator.Common.{String, ◌≡◌, refl, true, false, Option, none}
use vault_config_operator.Common.Int.{pos}
use vault_config_operator.Common.Action.{Error, Result, ok, err, panic, Action}
use vault_config_operator.Payload.{Payload}
use vault_config_operator.Vault.{Vault}
use vault_config_operator.Vault.Store.{IsStore}
use vault_config_operator.Endpoint.{Cell, VaultObject}
use vault_config_operator.Outcome.{Outcome, ends_well, wants_finalizer, manage_outcome}
use vault_config_operator.Outcome.Api.{IsApi}
use vault_config_operator.Outcome.Recorded.{manage_outcome_failure, manage_outcome-ends_well}
use vault_config_operator.Reconcile.{reconcile_resource}
use vault_config_operator.Reconcile.Resource.{IsReconciled, reconcile_resource-IsReconciled}
use vault_config_operator.KubeAuth.{Platform, Session}
use vault_config_operator.Controllers.{
  NamespacedName, Controller, Authenticable, prepare_context, on_client, in_context, on_request,
  serve_resource,
}

-- Whatever reconciler would follow: where no client comes out of the login, the cycle does not
-- end well, and the finalizers of the object, which may be in deletion, are as they were.
pub in_context_refused :
    {O U C Config P A : Type 0} (e : Platform U C Config) (r : Controller O (Session U C))
    (m : Authenticable O) (at : Session U C → P → A) (a : IsApi r.objects r.kube at)
    (reconciler : C → Action (Cell O (Session U C)) Outcome) (issue : Error) (f : String)
    (c : Cell O (Session U C))
    → (prepare_context e r m c).0 ≡ err issue
    → (ends_well (in_context e r m reconciler c).0 ≡ false)
      × (r.objects.contains_finalizer f (in_context e r m reconciler c).1.object
          ≡ r.objects.contains_finalizer f c.object)
unfolding in_context manage_outcome prepare_context
in_context_refused e r m at a reconciler issue f c refused =
    rw refused
      (manage_outcome-ends_well r.objects r.kube at a issue (pos 0) (prepare_context e r m c).1 f)

module _ {O U C Config : Type 0} (e : Platform U C Config) (r : Controller O (Session U C))
    (m : Authenticable O) (vault_of : C → Vault (Session U C))
    (objects_of : Vault (Session U C) → VaultObject O (Session U C))
    (at : Session U C → String → Option Payload) (stored : String → Payload → Payload)
    (apart : String → String → Type 0)
    (s : (client : C) → IsStore (vault_of client) at stored apart) (a : IsApi r.objects r.kube at)
    (deletable : (o : O) → wants_finalizer (r.objects.deletable o) ≡ true) where
  abbrev reconciler : C → Action (Cell O (Session U C)) Outcome
  reconciler client =
      reconcile_resource r.objects r.kube (vault_of client) (objects_of (vault_of client))

  -- What a request that was served has done: a client was logged in for the object, and the cycle
  -- with that client has reconciled it and ended in the world `w`.
  abbrev pub IsServed : Cell O (Session U C) → Session U C → Type 0
  IsServed c w =
      (client : C) × (c₁ : Cell O (Session U C)) × (prepare_context e r m c ≡ (ok client, c₁))
      × ((reconciler client c₁).1.world ≡ w)
      × IsReconciled r.objects r.kube (vault_of client) (objects_of (vault_of client)) at stored
          apart (s client) a deletable c₁ (reconciler client c₁).1

  on_client-IsServed :
      (c c₁ : Cell O (Session U C)) (answer : Result C) (out : Outcome)
      → prepare_context e r m c ≡ (answer, c₁)
      → r.objects.is_deleting c₁.object ≡ false
      → (on_client e r m reconciler answer c₁).0 ≡ ok out
      → out.error ≡ none
      → IsServed c (on_client e r m reconciler answer c₁).1.world
  unfolding manage_outcome
  on_client-IsServed c c₁ (ok client) out prepared living h n = (
    client,
    c₁,
    prepared,
    refl,
    reconcile_resource-IsReconciled r.objects r.kube (vault_of client)
        (objects_of (vault_of client)) at stored apart (s client) a deletable c₁ out living h n,
  )
  on_client-IsServed c c₁ (err issue) out prepared living h n =
      absurd ((manage_outcome_failure r.objects r.kube at a issue (pos 0) c₁).0 out h n)
  on_client-IsServed c c₁ panic out prepared living h n = cc

  -- Where every object of the kind may be deleted, the stores of all clients are one, and the API
  -- server leaves Vault alone: a request for an object that is there and not being deleted, when it
  -- is served without an error, was served by a cycle with a client that was logged in for the
  -- object. That cycle has prepared the object, its place in Vault holds its desired state, no place
  -- apart from it has changed since, and the object as the cycle leaves it holds its finalizer.
  pub serve_resource-IsServed :
      (request : NamespacedName) (o : O) (w w₀ : Session U C) (out : Outcome)
      → r.get_object request w ≡ (ok o, w₀)
      → r.objects.is_deleting o ≡ false
      → (serve_resource e r m vault_of objects_of request w).0 ≡ ok out
      → out.error ≡ none
      → IsServed
          (record { object = o; world = w₀ })
          (serve_resource e r m vault_of objects_of request w).1
  unfolding on_request in_context prepare_context
  serve_resource-IsServed request o w w₀ out found living h n =
      let c : Cell O (Session U C) = record { object = o; world = w₀ } in
      rw found (
        on_client-IsServed c (prepare_context e r m c).1 (prepare_context e r m c).0 out refl living
          (rw found at h) n)
