-- ===== src/Controllers.antt =====
-- `Reconcile` of the controllers in controllers/, from a request on: the object is fetched, a Vault
-- client is logged in for it by `prepareContext` of controllers/commons.go, and a reconciler of
-- controllers/vaultresourcecontroller takes over. The world is the one of KubeAuth.antt, with the
-- cache of clients.
pub mod Roles
pub mod Configs
pub mod Engines
pub mod Served
mod Tests
use vault_config_operator.Common.{String, Option, some, if◌then◌else◌}
use vault_config_operator.Common.Action.{Result, ok, err, panic, Action, get, ◌>>=◌}
use vault_config_operator.Vault.{Vault}
use vault_config_operator.Endpoint.{Cell, VaultObject, in_world}
use vault_config_operator.Outcome.{KubeObject, Kube, Outcome, no_error, failed, manage_outcome}
use vault_config_operator.Resource.{is_not_found}
use vault_config_operator.Reconcile.{reconcile_resource}
use vault_config_operator.KubeAuth.{
  KubeAuthConfiguration, VaultConnection, Platform, Session, get_vault_client,
}

pub record NamespacedName : Type 0 where
  pub namespace : String
  pub name : String

-- What a controller works with: the object's metadata, the API server and `Get`.
pub record Controller (O W : Type 0) : Type 0 where
  pub objects : KubeObject O
  pub kube : Kube O W
  pub get_object : NamespacedName → Action W O
  pub get_namespace : O → String

-- `GetVaultConnection` and `GetKubeAuthConfiguration`
pub record Authenticable (O : Type 0) : Type 0 where
  pub get_vault_connection : O → Option VaultConnection
  pub get_kube_auth_configuration : O → KubeAuthConfiguration

module _ {O W : Type 0} (r : Controller O W) (reconciler : Action (Cell O W) Outcome) where
  -- An object that is gone is nothing to reconcile.
  abbrev pub on_answer : Result O → Action W Outcome
  on_answer (ok instance) w =
      let (out, c) = reconciler (record { object = instance; world = w }) in (out, c.world)
  on_answer (err e) w = if is_not_found e then (ok no_error, w) else (ok (failed e), w)
  on_answer panic w = (panic, w)

  unfoldable pub on_request : NamespacedName → Action W Outcome
  on_request request w = let (answer, w') = r.get_object request w in on_answer answer w'

module _ {O U C Config : Type 0} (e : Platform U C Config) (r : Controller O (Session U C))
    (a : Authenticable O) where
  unfoldable pub prepare_context : Action (Cell O (Session U C)) C
  prepare_context = do
    c ← get
    in_world (
        get_vault_client e (a.get_kube_auth_configuration c.object)
          (a.get_vault_connection c.object) (r.get_namespace c.object))

  module _ (reconciler : C → Action (Cell O (Session U C)) Outcome) where
    abbrev pub on_client : Result C → Action (Cell O (Session U C)) Outcome
    on_client (ok client) c = reconciler client c
    on_client (err issue) c = manage_outcome r.objects r.kube (some issue) c
    on_client panic c = (panic, c)

    -- The reconciler, with the client that is made for the object.
    unfoldable pub in_context : Action (Cell O (Session U C)) Outcome
    in_context c = let (client, c') = prepare_context c in on_client client c'

  -- The text that most of the controllers have: `vault_of` are the calls of a client.
  abbrev pub serve_resource :
      (C → Vault (Session U C))
      → (Vault (Session U C) → VaultObject O (Session U C))
      → NamespacedName
      → Action (Session U C) Outcome
  serve_resource vault_of objects_of = on_request r (
      in_context (λ client.
        reconcile_resource r.objects r.kube (vault_of client) (objects_of (vault_of client))))
