-- ===== src/Controllers/Configs.antt =====
-- The controllers of resources that read credentials, keys or names before a cycle.
use vault_config_operator.Common.{String, Option}
use vault_config_operator.Common.Action.{ok, Action}
use vault_config_operator.Vault.{Vault}
use vault_config_operator.Endpoint.{Cell, VaultObject}
use vault_config_operator.KubeAuth.{
  KubeAuthConfiguration, VaultConnection, Platform, Session, in_session,
}
use vault_config_operator.Database.Retrieval.{Lookups}
use vault_config_operator.Watch.{WatchedSecret}
use vault_config_operator.Policy.{Policy}
use vault_config_operator.Policy
use vault_config_operator.Policy.Accessors
use vault_config_operator.Controllers.{serve_resource}
use vault_config_operator.Controllers.Roles.{Reconciler, unprepared}
use vault_config_operator.Kinds.GroupAlias.{GroupAlias}
use vault_config_operator.Kinds.GroupAlias
use vault_config_operator.Kinds.GroupAlias.Preparation
use vault_config_operator.Kinds.KubernetesAuthEngineConfig.{KubernetesAuthEngineConfig}
use vault_config_operator.Kinds.KubernetesAuthEngineConfig
use vault_config_operator.Kinds.KubernetesAuthEngineRole.{KubernetesAuthEngineRole}
use vault_config_operator.Kinds.KubernetesAuthEngineRole
use vault_config_operator.Kinds.Namespaces.{Selectors}
use vault_config_operator.Kinds.Namespaces
use vault_config_operator.Kinds.Retrieval.Reviewer
use vault_config_operator.Kinds.Retrieval.LdapTls
use vault_config_operator.Kinds.AzureAuthEngineConfig.{AzureAuthEngineConfig}
use vault_config_operator.Kinds.AzureAuthEngineConfig
use vault_config_operator.Kinds.Retrieval.AzureAuth
use vault_config_operator.Kinds.AzureSecretEngineConfig.{AzureSecretEngineConfig}
use vault_config_operator.Kinds.AzureSecretEngineConfig
use vault_config_operator.Kinds.Retrieval.AzureSecret
use vault_config_operator.Kinds.GcpAuthEngineConfig.{GcpAuthEngineConfig}
use vault_config_operator.Kinds.GcpAuthEngineConfig
use vault_config_operator.Kinds.Retrieval.GcpAuth
use vault_config_operator.Kinds.JwtOidcAuthEngineConfig.{JwtOidcAuthEngineConfig}
use vault_config_operator.Kinds.JwtOidcAuthEngineConfig
use vault_config_operator.Kinds.Retrieval.JwtOidcAuth
use vault_config_operator.Kinds.LdapAuthEngineConfig.{LdapAuthEngineConfig}
use vault_config_operator.Kinds.LdapAuthEngineConfig
use vault_config_operator.Kinds.Retrieval.LdapAuth
use vault_config_operator.Kinds.QuaySecretEngineConfig.{QuaySecretEngineConfig}
use vault_config_operator.Kinds.QuaySecretEngineConfig
use vault_config_operator.Kinds.Retrieval.Quay
use vault_config_operator.Kinds.GitHubSecretEngineConfig.{GitHubSecretEngineConfig}
use vault_config_operator.Kinds.GitHubSecretEngineConfig
use vault_config_operator.Kinds.Retrieval.GitHub
use vault_config_operator.Kinds.KubernetesSecretEngineConfig.{KubernetesSecretEngineConfig}
use vault_config_operator.Kinds.KubernetesSecretEngineConfig
use vault_config_operator.Kinds.Retrieval.KubernetesSecret

module _ {U C Config : Type 0} (e : Platform U C Config) (vault_of : C → Vault (Session U C)) where
  abbrev Step : Type 0 → Type 0
  Step O = Action (Cell O (Session U C)) (Unit {0})

  -- `prepare` and `prepare_tls` are the two methods that prepare an object, in its namespace.
  abbrev serve :
      {O : Type 0}
      → (O → Option VaultConnection)
      → (O → KubeAuthConfiguration)
      → VaultObject O (Session U C)
      → (String → Vault (Session U C) → Step O)
      → (String → Vault (Session U C) → Step O)
      → Reconciler e vault_of O
  serve connection authentication objects prepare prepare_tls r =
      serve_resource e r
        (record { get_vault_connection = connection; get_kube_auth_configuration = authentication })
        vault_of
        (λ v. record objects {
          prepare_internal_values = λ c. prepare (r.get_namespace c.object) v c;
          prepare_tls_config = λ c. prepare_tls (r.get_namespace c.object) v c;
        })

  unfoldable pub reconcile_azure_auth_engine_config :
      (String → Lookups (Session U C)) → Reconciler e vault_of AzureAuthEngineConfig
  reconcile_azure_auth_engine_config l =
      serve (λ d. d.spec.connection) (λ d. d.spec.authentication)
        (unprepared AzureAuthEngineConfig.get_path AzureAuthEngineConfig.get_payload
          AzureAuthEngineConfig.is_equivalent_to_desired_state)
        (λ namespace v. AzureAuth.prepare_internal_values v (l namespace))
        (λ namespace v. λ c. (ok tt, c))

  unfoldable pub reconcile_azure_secret_engine_config :
      (String → Lookups (Session U C)) → Reconciler e vault_of AzureSecretEngineConfig
  reconcile_azure_secret_engine_config l =
      serve (λ d. d.spec.connection) (λ d. d.spec.authentication)
        (unprepared AzureSecretEngineConfig.get_path AzureSecretEngineConfig.get_payload
          AzureSecretEngineConfig.is_equivalent_to_desired_state)
        (λ namespace v. AzureSecret.prepare_internal_values v (l namespace))
        (λ namespace v. λ c. (ok tt, c))

  unfoldable pub reconcile_gcp_auth_engine_config :
      (String → Lookups (Session U C)) → Reconciler e vault_of GcpAuthEngineConfig
  reconcile_gcp_auth_engine_config l =
      serve (λ d. d.spec.connection) (λ d. d.spec.authentication)
        (unprepared GcpAuthEngineConfig.get_path GcpAuthEngineConfig.get_payload
          GcpAuthEngineConfig.is_equivalent_to_desired_state)
        (λ namespace v. GcpAuth.prepare_internal_values v (l namespace))
        (λ namespace v. λ c. (ok tt, c))

  unfoldable pub reconcile_jwt_oidc_auth_engine_config :
      (String → Lookups (Session U C)) → Reconciler e vault_of JwtOidcAuthEngineConfig
  reconcile_jwt_oidc_auth_engine_config l =
      serve (λ d. d.spec.connection) (λ d. d.spec.authentication)
        (unprepared JwtOidcAuthEngineConfig.get_path JwtOidcAuthEngineConfig.get_payload
          JwtOidcAuthEngineConfig.is_equivalent_to_desired_state)
        (λ namespace v. JwtOidcAuth.prepare_internal_values v (l namespace))
        (λ namespace v. λ c. (ok tt, c))

  unfoldable pub reconcile_ldap_auth_engine_config :
      (String → Lookups (Session U C)) → Reconciler e vault_of LdapAuthEngineConfig
  reconcile_ldap_auth_engine_config l =
      serve (λ d. d.spec.connection) (λ d. d.spec.authentication)
        (unprepared LdapAuthEngineConfig.get_path LdapAuthEngineConfig.get_payload
          LdapAuthEngineConfig.is_equivalent_to_desired_state)
        (λ namespace v. LdapAuth.prepare_internal_values v (l namespace))
        (λ namespace v. LdapTls.prepare_tls_config (l namespace).get_secret)

  unfoldable pub reconcile_quay_secret_engine_config :
      (String → Lookups (Session U C)) → Reconciler e vault_of QuaySecretEngineConfig
  reconcile_quay_secret_engine_config l =
      serve (λ d. d.spec.connection) (λ d. d.spec.authentication)
        (unprepared QuaySecretEngineConfig.get_path QuaySecretEngineConfig.get_payload
          QuaySecretEngineConfig.is_equivalent_to_desired_state)
        (λ namespace v. Quay.prepare_internal_values v (l namespace))
        (λ namespace v. Quay.set_internal_credentials v (l namespace))

  unfoldable pub reconcile_github_secret_engine_config :
      (String → String → Action (Session U C) WatchedSecret)
      → Reconciler e vault_of GitHubSecretEngineConfig
  reconcile_github_secret_engine_config get_secret =
      serve (λ d. d.spec.connection) (λ d. d.spec.authentication)
        (unprepared GitHubSecretEngineConfig.get_path GitHubSecretEngineConfig.get_payload
          GitHubSecretEngineConfig.is_equivalent_to_desired_state)
        (λ namespace v. GitHub.prepare_internal_values v (get_secret namespace))
        (λ namespace v. GitHub.set_internal_credentials v (get_secret namespace))

  unfoldable pub reconcile_kubernetes_secret_engine_config :
      (String → String → Action (Session U C) WatchedSecret)
      → Reconciler e vault_of KubernetesSecretEngineConfig
  reconcile_kubernetes_secret_engine_config get_secret =
      serve (λ d. d.spec.connection) (λ d. d.spec.authentication)
        (unprepared KubernetesSecretEngineConfig.get_path KubernetesSecretEngineConfig.get_payload
          KubernetesSecretEngineConfig.is_equivalent_to_desired_state)
        (λ namespace v. KubernetesSecret.prepare_internal_values v (get_secret namespace))
        (λ namespace v. λ c. (ok tt, c))

  unfoldable pub reconcile_group_alias : Reconciler e vault_of GroupAlias
  reconcile_group_alias r =
      serve (λ d. d.spec.connection) (λ d. d.spec.authentication)
        (unprepared GroupAlias.get_path GroupAlias.get_payload
          GroupAlias.is_equivalent_to_desired_state)
        (λ namespace v. Preparation.prepare_internal_values v r.kube.status_update)
        (λ namespace v. λ c. (ok tt, c)) r

  unfoldable pub reconcile_kubernetes_auth_engine_config :
      Reconciler e vault_of KubernetesAuthEngineConfig
  reconcile_kubernetes_auth_engine_config =
      serve (λ d. d.spec.connection) (λ d. d.spec.authentication)
        (unprepared KubernetesAuthEngineConfig.get_path KubernetesAuthEngineConfig.get_payload
          KubernetesAuthEngineConfig.is_equivalent_to_desired_state)
        (λ namespace v.
          Reviewer.prepare_internal_values
            (λ account ns seconds. in_session (e.create_token account ns seconds)) (λ d. namespace))
        (λ namespace v. λ c. (ok tt, c))

  unfoldable pub reconcile_kubernetes_auth_engine_role :
      {S : Type 0} → Selectors S (Session U C) → Reconciler e vault_of KubernetesAuthEngineRole
  reconcile_kubernetes_auth_engine_role n =
      serve (λ d. d.spec.connection) (λ d. d.spec.authentication)
        (unprepared KubernetesAuthEngineRole.get_path KubernetesAuthEngineRole.get_payload
          KubernetesAuthEngineRole.is_equivalent_to_desired_state)
        (λ namespace v. Namespaces.prepare_internal_values n) (λ namespace v. λ c. (ok tt, c))

  unfoldable pub reconcile_policy : Reconciler e vault_of Policy
  reconcile_policy =
      serve (λ d. d.spec.connection) (λ d. d.spec.authentication)
        (unprepared Policy.get_path Policy.get_payload Policy.is_equivalent_to_desired_state)
        (λ namespace v. Accessors.prepare_internal_values v) (λ namespace v. λ c. (ok tt, c))
