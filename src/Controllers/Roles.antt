-- ===== src/Controllers/Roles.antt =====
-- The controllers of resources that prepare nothing before a cycle.
use vault_config_operator.Common.{String, Bool, Option}
use vault_config_operator.Common.Int.{ℤ}
use vault_config_operator.Common.Action.{ok, Action}
use vault_config_operator.Payload.{Payload}
use vault_config_operator.Vault.{Vault}
use vault_config_operator.Endpoint.{VaultObject}
use vault_config_operator.Outcome.{Outcome}
use vault_config_operator.KubeAuth.{KubeAuthConfiguration, VaultConnection, Platform, Session}
use vault_config_operator.Controllers.{NamespacedName, Controller, serve_resource}
use vault_config_operator.RabbitMq.Role.{RabbitMqSecretEngineRole, Json}
use vault_config_operator.RabbitMq.Role
use vault_config_operator.Kinds.AzureAuthEngineRole.{AzureAuthEngineRole}
use vault_config_operator.Kinds.AzureAuthEngineRole
use vault_config_operator.Kinds.AzureSecretEngineRole.{AzureSecretEngineRole}
use vault_config_operator.Kinds.AzureSecretEngineRole
use vault_config_operator.Kinds.CertAuthEngineConfig.{CertAuthEngineConfig}
use vault_config_operator.Kinds.CertAuthEngineConfig
use vault_config_operator.Kinds.CertAuthEngineRole.{CertAuthEngineRole}
use vault_config_operator.Kinds.CertAuthEngineRole
use vault_config_operator.Kinds.DatabaseSecretEngineRole.{DatabaseSecretEngineRole}
use vault_config_operator.Kinds.DatabaseSecretEngineRole
use vault_config_operator.Kinds.DatabaseSecretEngineStaticRole.{DatabaseSecretEngineStaticRole}
use vault_config_operator.Kinds.DatabaseSecretEngineStaticRole
use vault_config_operator.Kinds.GcpAuthEngineRole.{GcpAuthEngineRole}
use vault_config_operator.Kinds.GcpAuthEngineRole
use vault_config_operator.Kinds.GitHubSecretEngineRole.{GitHubSecretEngineRole}
use vault_config_operator.Kinds.GitHubSecretEngineRole
use vault_config_operator.Kinds.Group.{Group}
use vault_config_operator.Kinds.Group
use vault_config_operator.Kinds.JwtOidcAuthEngineRole.{JwtOidcAuthEngineRole}
use vault_config_operator.Kinds.JwtOidcAuthEngineRole
use vault_config_operator.Kinds.KubernetesSecretEngineRole.{KubernetesSecretEngineRole}
use vault_config_operator.Kinds.KubernetesSecretEngineRole
use vault_config_operator.Kinds.LdapAuthEngineGroup.{LdapAuthEngineGroup}
use vault_config_operator.Kinds.LdapAuthEngineGroup
use vault_config_operator.Kinds.PasswordPolicy.{PasswordPolicy}
use vault_config_operator.Kinds.PasswordPolicy
use vault_config_operator.Kinds.PkiSecretEngineRole.{PkiSecretEngineRole}
use vault_config_operator.Kinds.PkiSecretEngineRole

-- An object whose `PrepareInternalValues` and `PrepareTLSConfig` return nil.
abbrev pub unprepared :
    {O W : Type 0} → (O → String) → (O → Payload) → (O → Option Payload → Bool) → VaultObject O W
unprepared get_path get_payload is_equivalent_to_desired_state = record {
  get_path = get_path;
  get_payload = get_payload;
  is_equivalent_to_desired_state = is_equivalent_to_desired_state;
  prepare_internal_values = λ c. (ok tt, c);
  prepare_tls_config = λ c. (ok tt, c);
}

module _ {U C Config : Type 0} (e : Platform U C Config) (vault_of : C → Vault (Session U C)) where
  abbrev pub Reconciler : Type 0 → Type 0
  Reconciler O = Controller O (Session U C) → NamespacedName → Action (Session U C) Outcome

  abbrev pub serve_unprepared :
      {O : Type 0}
      → (O → Option VaultConnection)
      → (O → KubeAuthConfiguration)
      → (O → String)
      → (O → Payload)
      → (O → Option Payload → Bool)
      → Reconciler O
  serve_unprepared connection authentication get_path get_payload is_equivalent r =
      serve_resource e r
        (record { get_vault_connection = connection; get_kube_auth_configuration = authentication })
        vault_of (λ v. unprepared get_path get_payload is_equivalent)

  unfoldable pub reconcile_azure_auth_engine_role : Reconciler AzureAuthEngineRole
  reconcile_azure_auth_engine_role =
      serve_unprepared (λ d. d.spec.connection) (λ d. d.spec.authentication)
        AzureAuthEngineRole.get_path AzureAuthEngineRole.get_payload
        AzureAuthEngineRole.is_equivalent_to_desired_state

  unfoldable pub reconcile_azure_secret_engine_role : Reconciler AzureSecretEngineRole
  reconcile_azure_secret_engine_role =
      serve_unprepared (λ d. d.spec.connection) (λ d. d.spec.authentication)
        AzureSecretEngineRole.get_path AzureSecretEngineRole.get_payload
        AzureSecretEngineRole.is_equivalent_to_desired_state

  unfoldable pub reconcile_cert_auth_engine_config : Reconciler CertAuthEngineConfig
  reconcile_cert_auth_engine_config =
      serve_unprepared (λ d. d.spec.connection) (λ d. d.spec.authentication)
        CertAuthEngineConfig.get_path CertAuthEngineConfig.get_payload
        CertAuthEngineConfig.is_equivalent_to_desired_state

  unfoldable pub reconcile_cert_auth_engine_role : Reconciler CertAuthEngineRole
  reconcile_cert_auth_engine_role =
      serve_unprepared (λ d. d.spec.connection) (λ d. d.spec.authentication)
        CertAuthEngineRole.get_path CertAuthEngineRole.get_payload
        CertAuthEngineRole.is_equivalent_to_desired_state

  unfoldable pub reconcile_database_secret_engine_role : Reconciler DatabaseSecretEngineRole
  reconcile_database_secret_engine_role =
      serve_unprepared (λ d. d.spec.connection) (λ d. d.spec.authentication)
        DatabaseSecretEngineRole.get_path DatabaseSecretEngineRole.get_payload
        DatabaseSecretEngineRole.is_equivalent_to_desired_state

  unfoldable pub reconcile_database_secret_engine_static_role :
      (ℤ → String) → Reconciler DatabaseSecretEngineStaticRole
  reconcile_database_secret_engine_static_role itoa =
      serve_unprepared (λ d. d.spec.connection) (λ d. d.spec.authentication)
        DatabaseSecretEngineStaticRole.get_path (DatabaseSecretEngineStaticRole.get_payload itoa)
        (DatabaseSecretEngineStaticRole.is_equivalent_to_desired_state itoa)

  unfoldable pub reconcile_gcp_auth_engine_role : Reconciler GcpAuthEngineRole
  reconcile_gcp_auth_engine_role =
      serve_unprepared (λ d. d.spec.connection) (λ d. d.spec.authentication)
        GcpAuthEngineRole.get_path GcpAuthEngineRole.get_payload
        GcpAuthEngineRole.is_equivalent_to_desired_state

  unfoldable pub reconcile_github_secret_engine_role : Reconciler GitHubSecretEngineRole
  reconcile_github_secret_engine_role =
      serve_unprepared (λ d. d.spec.connection) (λ d. d.spec.authentication)
        GitHubSecretEngineRole.get_path GitHubSecretEngineRole.get_payload
        GitHubSecretEngineRole.is_equivalent_to_desired_state

  unfoldable pub reconcile_group : Reconciler Group
  reconcile_group =
      serve_unprepared (λ d. d.spec.connection) (λ d. d.spec.authentication) Group.get_path
        Group.get_payload Group.is_equivalent_to_desired_state

  unfoldable pub reconcile_jwt_oidc_auth_engine_role : Reconciler JwtOidcAuthEngineRole
  reconcile_jwt_oidc_auth_engine_role =
      serve_unprepared (λ d. d.spec.connection) (λ d. d.spec.authentication)
        JwtOidcAuthEngineRole.get_path JwtOidcAuthEngineRole.get_payload
        JwtOidcAuthEngineRole.is_equivalent_to_desired_state

  unfoldable pub reconcile_kubernetes_secret_engine_role : Reconciler KubernetesSecretEngineRole
  reconcile_kubernetes_secret_engine_role =
      serve_unprepared (λ d. d.spec.connection) (λ d. d.spec.authentication)
        KubernetesSecretEngineRole.get_path KubernetesSecretEngineRole.get_payload
        KubernetesSecretEngineRole.is_equivalent_to_desired_state

  unfoldable pub reconcile_ldap_auth_engine_group : Reconciler LdapAuthEngineGroup
  reconcile_ldap_auth_engine_group =
      serve_unprepared (λ d. d.spec.connection) (λ d. d.spec.authentication)
        LdapAuthEngineGroup.get_path LdapAuthEngineGroup.get_payload
        LdapAuthEngineGroup.is_equivalent_to_desired_state

  unfoldable pub reconcile_password_policy : Reconciler PasswordPolicy
  reconcile_password_policy =
      serve_unprepared (λ d. d.spec.connection) (λ d. d.spec.authentication) PasswordPolicy.get_path
        PasswordPolicy.get_payload PasswordPolicy.is_equivalent_to_desired_state

  unfoldable pub reconcile_pki_secret_engine_role : Reconciler PkiSecretEngineRole
  reconcile_pki_secret_engine_role =
      serve_unprepared (λ d. d.spec.connection) (λ d. d.spec.authentication)
        PkiSecretEngineRole.get_path PkiSecretEngineRole.get_payload
        PkiSecretEngineRole.is_equivalent_to_desired_state

  unfoldable pub reconcile_rabbit_mq_secret_engine_role : Json → Reconciler RabbitMqSecretEngineRole
  reconcile_rabbit_mq_secret_engine_role j =
      serve_unprepared (λ d. d.spec.connection) (λ d. d.spec.authentication) Role.get_path
        (Role.get_payload j) (Role.is_equivalent_to_desired_state j)
