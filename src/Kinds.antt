-- ===== src/Kinds.antt =====
-- The resources that differ in their specification alone: one module for each of their files in
-- api/v1alpha1.
pub mod AzureAuthEngineConfig
pub mod AzureAuthEngineRole
pub mod AzureSecretEngineConfig
pub mod AzureSecretEngineRole
pub mod CertAuthEngineConfig
pub mod CertAuthEngineRole
pub mod DatabaseSecretEngineRole
pub mod DatabaseSecretEngineStaticRole
pub mod GcpAuthEngineRole
pub mod GitHubSecretEngineConfig
pub mod GitHubSecretEngineRole
pub mod Group
pub mod GroupAlias
pub mod KubernetesAuthEngineConfig
pub mod KubernetesAuthEngineRole
pub mod KubernetesSecretEngineConfig
pub mod KubernetesSecretEngineRole
pub mod LdapAuthEngineGroup
pub mod PasswordPolicy
pub mod PkiSecretEngineConfig
pub mod PkiSecretEngineRole
pub mod QuaySecretEngineConfig
pub mod Drift
mod Tests
pub mod GcpAuthEngineConfig
pub mod JwtOidcAuthEngineConfig
pub mod JwtOidcAuthEngineRole
pub mod LdapAuthEngineConfig
pub mod Retrieval
pub mod Namespaces
