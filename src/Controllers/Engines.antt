-- ===== src/Controllers/Engines.antt =====
-- The controllers of mounts, and those that have a reconciler of their own.
use vault_config_operator.Common.{String, Bool, Option}
use vault_config_operator.Common.Int.{ℤ}
use vault_config_operator.Common.Action.{Action}
use vault_config_operator.Vault.{Vault}
use vault_config_operator.Endpoint.{Cell}
use vault_config_operator.Outcome.{Outcome}
use vault_config_operator.KubeAuth.{KubeAuthConfiguration, VaultConnection, Platform, Session}
use vault_config_operator.Reconcile.{reconcile_engine, reconcile_pki}
use vault_config_operator.SecretEngine.{SecretEngineMount, mounts, mount_engines}
use vault_config_operator.AuthEngine.{AuthEngineMount, auth_mounts, auth_mount_engines}
use vault_config_operator.Kinds.PkiSecretEngineConfig.{PkiSecretEngineConfig}
use vault_config_operator.Kinds.PkiSecretEngineConfig.Signing.{Secrets, pki_objects, pki_engines}
use vault_config_operator.Database.{DatabaseSecretEngineConfig}
use vault_config_operator.Database.Retrieval.{Lookups}
use vault_config_operator.Database.Controller.{reconcile_database}
use vault_config_operator.RabbitMq.{RabbitMqSecretEngineConfig}
use vault_config_operator.RabbitMq.Controller.{reconcile_rabbit_mq}
use vault_config_operator.RandomSecret.{RandomSecret, Runtime}
use vault_config_operator.RandomSecret.Password.{ByteSets}
use vault_config_operator.RandomSecret.Controller.{reconcile_random_secret}
use vault_config_operator.VaultSecret.{VaultSecret}
use vault_config_operator.VaultSecret.Controller.{Environment, reconcile_vault_secret}
use vault_config_operator.Controllers.{NamespacedName, Controller, on_request, in_context}
use vault_config_operator.Controllers.Roles.{Reconciler}

module _ {U C Config : Type 0} (e : Platform U C Config) (vault_of : C → Vault (Session U C)) where
  abbrev serve_with :
      {O : Type 0} (r : Controller O (Session U C))
      → (O → Option VaultConnection)
      → (O → KubeAuthConfiguration)
      → (Vault (Session U C) → Action (Cell O (Session U C)) Outcome)
      → NamespacedName
      → Action (Session U C) Outcome
  serve_with r connection authentication reconciler = on_request r (
      in_context e r
        (record { get_vault_connection = connection; get_kube_auth_configuration = authentication })
        (λ client. reconciler (vault_of client)))

  unfoldable pub reconcile_secret_engine_mount : Reconciler e vault_of SecretEngineMount
  reconcile_secret_engine_mount r =
      serve_with r (λ d. d.spec.connection) (λ d. d.spec.authentication)
        (λ v. reconcile_engine r.objects r.kube v mounts mount_engines)

  unfoldable pub reconcile_auth_engine_mount : Reconciler e vault_of AuthEngineMount
  reconcile_auth_engine_mount r =
      serve_with r (λ d. d.spec.connection) (λ d. d.spec.authentication)
        (λ v. reconcile_engine r.objects r.kube v auth_mounts auth_mount_engines)

  unfoldable pub reconcile_pki_secret_engine_config :
      Secrets (Session U C) → Reconciler e vault_of PkiSecretEngineConfig
  reconcile_pki_secret_engine_config k r =
      serve_with r (λ d. d.spec.connection) (λ d. d.spec.authentication)
        (λ v. reconcile_pki r.objects r.kube v (pki_objects v k) (pki_engines v k))

  -- A database is followed by the rotation of its root password.
  unfoldable pub reconcile_database_secret_engine_config :
      (String → Lookups (Session U C))
      → (ℤ → ℤ → Bool)
      → Reconciler e vault_of DatabaseSecretEngineConfig
  reconcile_database_secret_engine_config l nearly_over r =
      serve_with r (λ d. d.spec.connection) (λ d. d.spec.authentication)
        (λ v c. reconcile_database r.objects r.kube v (l (r.get_namespace c.object)) nearly_over c)

  unfoldable pub reconcile_rabbit_mq_secret_engine_config :
      (String → Lookups (Session U C)) → Reconciler e vault_of RabbitMqSecretEngineConfig
  reconcile_rabbit_mq_secret_engine_config l r =
      serve_with r (λ d. d.spec.connection) (λ d. d.spec.authentication)
        (λ v c. reconcile_rabbit_mq v (l (r.get_namespace c.object)) r.objects r.kube c)

  unfoldable pub reconcile_random_secrets :
      {S : Type 0} → ByteSets S → Runtime (Session U C) → Reconciler e vault_of RandomSecret
  reconcile_random_secrets b t r =
      serve_with r (λ d. d.spec.connection) (λ d. d.spec.authentication)
        (λ v. reconcile_random_secret r.objects r.kube v b t)

-- A VaultSecret is fetched without a login: each of its definitions logs in by itself.
unfoldable pub reconcile_vault_secrets :
    {U C Config : Type 0}
    → Environment U C Config
    → Controller VaultSecret (Session U C)
    → NamespacedName
    → Action (Session U C) Outcome
reconcile_vault_secrets e r = on_request r (reconcile_vault_secret e)
