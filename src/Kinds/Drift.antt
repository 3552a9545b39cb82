-- ===== src/Kinds/Drift.antt =====
-- Kinds of resources that never recognise what Vault answers as their desired state: their maps
-- hold integers, durations and slices of Go's own types, which JSON never decodes to.
use vault_config_operator.Common.{
  String, ◌≡◌, refl, Bool, true, false, Option, none, some, is_some, str_eq, Bool-cases, inl, inr,
}
use vault_config_operator.Common.Action.{ok, Action}
use vault_config_operator.Common.Int.{ℤ}
use vault_config_operator.Payload.{Payload, end, field, str, int, strs, lookup, erase}
use vault_config_operator.Payload.Decoded.{erase-IsDecodedMap, IsDecodedMap, map_equal_native}
use vault_config_operator.Vault.{Vault, read, write}
use vault_config_operator.Endpoint.{Cell, VaultObject, in_world, create_or_update}
use vault_config_operator.Kinds.AzureAuthEngineConfig.{AzureAuthEngineConfig}
use vault_config_operator.Kinds.AzureAuthEngineConfig
use vault_config_operator.Kinds.AzureAuthEngineRole.{AzureAuthEngineRole}
use vault_config_operator.Kinds.AzureAuthEngineRole
use vault_config_operator.Kinds.CertAuthEngineConfig.{CertAuthEngineConfig}
use vault_config_operator.Kinds.CertAuthEngineConfig
use vault_config_operator.Kinds.CertAuthEngineRole.{CertAuthEngineRole}
use vault_config_operator.Kinds.CertAuthEngineRole
use vault_config_operator.Kinds.GcpAuthEngineConfig.{GcpAuthEngineConfig}
use vault_config_operator.Kinds.GcpAuthEngineConfig
use vault_config_operator.Kinds.JwtOidcAuthEngineConfig.{JwtOidcAuthEngineConfig}
use vault_config_operator.Kinds.JwtOidcAuthEngineConfig
use vault_config_operator.Kinds.JwtOidcAuthEngineRole.{JwtOidcAuthEngineRole}
use vault_config_operator.Kinds.JwtOidcAuthEngineRole
use vault_config_operator.Kinds.LdapAuthEngineConfig.{LdapAuthEngineConfig}
use vault_config_operator.Kinds.LdapAuthEngineConfig
use vault_config_operator.Kinds.DatabaseSecretEngineRole.{DatabaseSecretEngineRole}
use vault_config_operator.Kinds.DatabaseSecretEngineRole
use vault_config_operator.Kinds.DatabaseSecretEngineStaticRole.{
  DatabaseSecretEngineStaticRole, DbseStaticRole, PasswordCredentialConfig,
  RsaPrivateKeyCredentialConfig, with_key, with_password,
}
use vault_config_operator.Kinds.DatabaseSecretEngineStaticRole
use vault_config_operator.Kinds.GcpAuthEngineRole.{GcpAuthEngineRole}
use vault_config_operator.Kinds.GcpAuthEngineRole
use vault_config_operator.Kinds.GitHubSecretEngineConfig.{GitHubSecretEngineConfig}
use vault_config_operator.Kinds.GitHubSecretEngineConfig
use vault_config_operator.Kinds.GitHubSecretEngineRole.{GitHubSecretEngineRole}
use vault_config_operator.Kinds.GitHubSecretEngineRole
use vault_config_operator.Kinds.Group.{Group}
use vault_config_operator.Kinds.Group
use vault_config_operator.Kinds.KubernetesAuthEngineConfig.{KubernetesAuthEngineConfig}
use vault_config_operator.Kinds.KubernetesAuthEngineConfig
use vault_config_operator.Kinds.KubernetesAuthEngineRole.{KubernetesAuthEngineRole}
use vault_config_operator.Kinds.KubernetesAuthEngineRole
use vault_config_operator.Kinds.KubernetesSecretEngineRole.{KubernetesSecretEngineRole}
use vault_config_operator.Kinds.KubernetesSecretEngineRole
use vault_config_operator.Kinds.PkiSecretEngineRole.{PkiSecretEngineRole}
use vault_config_operator.Kinds.PkiSecretEngineRole

-- One constructor for each of the kinds.
pub data TypedResource : Type 0 where
  azure_auth_engine_config : AzureAuthEngineConfig → TypedResource
  azure_auth_engine_role : AzureAuthEngineRole → TypedResource
  cert_auth_engine_config : CertAuthEngineConfig → TypedResource
  cert_auth_engine_role : CertAuthEngineRole → TypedResource
  gcp_auth_engine_config : GcpAuthEngineConfig → TypedResource
  jwt_oidc_auth_engine_config : JwtOidcAuthEngineConfig → TypedResource
  jwt_oidc_auth_engine_role : JwtOidcAuthEngineRole → TypedResource
  ldap_auth_engine_config : LdapAuthEngineConfig → TypedResource
  database_secret_engine_role : DatabaseSecretEngineRole → TypedResource
  database_secret_engine_static_role : (ℤ → String) → DatabaseSecretEngineStaticRole → TypedResource
  gcp_auth_engine_role : GcpAuthEngineRole → TypedResource
  git_hub_secret_engine_config : GitHubSecretEngineConfig → TypedResource
  git_hub_secret_engine_role : GitHubSecretEngineRole → TypedResource
  group : Group → TypedResource
  kubernetes_auth_engine_config : KubernetesAuthEngineConfig → TypedResource
  kubernetes_auth_engine_role : KubernetesAuthEngineRole → TypedResource
  kubernetes_secret_engine_role : KubernetesSecretEngineRole → TypedResource
  pki_secret_engine_role : PkiSecretEngineRole → TypedResource

unfoldable pub path_of : TypedResource → String
path_of (azure_auth_engine_config d) = AzureAuthEngineConfig.get_path d
path_of (azure_auth_engine_role d) = AzureAuthEngineRole.get_path d
path_of (cert_auth_engine_config d) = CertAuthEngineConfig.get_path d
path_of (cert_auth_engine_role d) = CertAuthEngineRole.get_path d
path_of (gcp_auth_engine_config d) = GcpAuthEngineConfig.get_path d
path_of (jwt_oidc_auth_engine_config d) = JwtOidcAuthEngineConfig.get_path d
path_of (jwt_oidc_auth_engine_role d) = JwtOidcAuthEngineRole.get_path d
path_of (ldap_auth_engine_config d) = LdapAuthEngineConfig.get_path d
path_of (database_secret_engine_role d) = DatabaseSecretEngineRole.get_path d
path_of (database_secret_engine_static_role itoa d) = DatabaseSecretEngineStaticRole.get_path d
path_of (gcp_auth_engine_role d) = GcpAuthEngineRole.get_path d
path_of (git_hub_secret_engine_config d) = GitHubSecretEngineConfig.get_path d
path_of (git_hub_secret_engine_role d) = GitHubSecretEngineRole.get_path d
path_of (group d) = Group.get_path d
path_of (kubernetes_auth_engine_config d) = KubernetesAuthEngineConfig.get_path d
path_of (kubernetes_auth_engine_role d) = KubernetesAuthEngineRole.get_path d
path_of (kubernetes_secret_engine_role d) = KubernetesSecretEngineRole.get_path d
path_of (pki_secret_engine_role d) = PkiSecretEngineRole.get_path d

unfoldable pub payload_of : TypedResource → Payload
payload_of (azure_auth_engine_config d) = AzureAuthEngineConfig.get_payload d
payload_of (azure_auth_engine_role d) = AzureAuthEngineRole.get_payload d
payload_of (cert_auth_engine_config d) = CertAuthEngineConfig.get_payload d
payload_of (cert_auth_engine_role d) = CertAuthEngineRole.get_payload d
payload_of (gcp_auth_engine_config d) = GcpAuthEngineConfig.get_payload d
payload_of (jwt_oidc_auth_engine_config d) = JwtOidcAuthEngineConfig.get_payload d
payload_of (jwt_oidc_auth_engine_role d) = JwtOidcAuthEngineRole.get_payload d
payload_of (ldap_auth_engine_config d) = LdapAuthEngineConfig.get_payload d
payload_of (database_secret_engine_role d) = DatabaseSecretEngineRole.get_payload d
payload_of (database_secret_engine_static_role itoa d) =
    DatabaseSecretEngineStaticRole.get_payload itoa d
payload_of (gcp_auth_engine_role d) = GcpAuthEngineRole.get_payload d
payload_of (git_hub_secret_engine_config d) = GitHubSecretEngineConfig.get_payload d
payload_of (git_hub_secret_engine_role d) = GitHubSecretEngineRole.get_payload d
payload_of (group d) = Group.get_payload d
payload_of (kubernetes_auth_engine_config d) = KubernetesAuthEngineConfig.get_payload d
payload_of (kubernetes_auth_engine_role d) = KubernetesAuthEngineRole.get_payload d
payload_of (kubernetes_secret_engine_role d) = KubernetesSecretEngineRole.get_payload d
payload_of (pki_secret_engine_role d) = PkiSecretEngineRole.get_payload d

unfoldable pub recognises : TypedResource → Option Payload → Bool
recognises (azure_auth_engine_config d) = AzureAuthEngineConfig.is_equivalent_to_desired_state d
recognises (azure_auth_engine_role d) = AzureAuthEngineRole.is_equivalent_to_desired_state d
recognises (cert_auth_engine_config d) = CertAuthEngineConfig.is_equivalent_to_desired_state d
recognises (cert_auth_engine_role d) = CertAuthEngineRole.is_equivalent_to_desired_state d
recognises (gcp_auth_engine_config d) = GcpAuthEngineConfig.is_equivalent_to_desired_state d
recognises (jwt_oidc_auth_engine_config d) =
    JwtOidcAuthEngineConfig.is_equivalent_to_desired_state d
recognises (jwt_oidc_auth_engine_role d) = JwtOidcAuthEngineRole.is_equivalent_to_desired_state d
recognises (ldap_auth_engine_config d) = LdapAuthEngineConfig.is_equivalent_to_desired_state d
recognises (database_secret_engine_role d) =
    DatabaseSecretEngineRole.is_equivalent_to_desired_state d
recognises (database_secret_engine_static_role itoa d) =
    DatabaseSecretEngineStaticRole.is_equivalent_to_desired_state itoa d
recognises (gcp_auth_engine_role d) = GcpAuthEngineRole.is_equivalent_to_desired_state d
recognises (git_hub_secret_engine_config d) =
    GitHubSecretEngineConfig.is_equivalent_to_desired_state d
recognises (git_hub_secret_engine_role d) = GitHubSecretEngineRole.is_equivalent_to_desired_state d
recognises (group d) = Group.is_equivalent_to_desired_state d
recognises (kubernetes_auth_engine_config d) =
    KubernetesAuthEngineConfig.is_equivalent_to_desired_state d
recognises (kubernetes_auth_engine_role d) =
    KubernetesAuthEngineRole.is_equivalent_to_desired_state d
recognises (kubernetes_secret_engine_role d) =
    KubernetesSecretEngineRole.is_equivalent_to_desired_state d
recognises (pki_secret_engine_role d) = PkiSecretEngineRole.is_equivalent_to_desired_state d

-- The endpoint's view of any of them, with whatever the kind prepares before a cycle.
abbrev pub typed_objects :
    {W : Type 0}
    → Action (Cell TypedResource W) (Unit {0})
    → Action (Cell TypedResource W) (Unit {0})
    → VaultObject TypedResource W
typed_objects prepare prepare_tls = record {
  get_path = λ r. path_of r;
  get_payload = λ r. payload_of r;
  is_equivalent_to_desired_state = λ r payload. recognises r payload;
  prepare_internal_values = prepare;
  prepare_tls_config = prepare_tls;
}

-- The rotation period is there, whichever credentials are configured.
period_found :
    (itoa : ℤ → String) (p : Option PasswordCredentialConfig)
    (k : Option RsaPrivateKeyCredentialConfig) (i : DbseStaticRole)
    → lookup "rotation_period" (
        with_key itoa k (
          with_password itoa p (
            field "db_name" (str i.db_name) (
              field "username" (str i.username) (
                field "rotation_period" (int i.rotation_period) (
                  field "rotation_statements"
                    (strs i.rotation_statements)
                    (field "credential_type" (str i.credential_type) end)))))))
      ≡ some (int i.rotation_period)
period_found itoa none none i = refl
period_found itoa none (some k) i = refl
period_found itoa (some p) none i = refl
period_found itoa (some p) (some k) i = refl

recognises-decoded :
    (r : TypedResource) (m : Payload) → IsDecodedMap m → recognises r (some m) ≡ false
unfolding recognises AzureAuthEngineConfig.is_equivalent_to_desired_state
    AzureAuthEngineConfig.to_map AzureAuthEngineRole.is_equivalent_to_desired_state
    AzureAuthEngineRole.to_map CertAuthEngineConfig.is_equivalent_to_desired_state
    CertAuthEngineConfig.to_map CertAuthEngineRole.is_equivalent_to_desired_state
    CertAuthEngineRole.to_map GcpAuthEngineConfig.is_equivalent_to_desired_state
    GcpAuthEngineConfig.to_map JwtOidcAuthEngineConfig.is_equivalent_to_desired_state
    JwtOidcAuthEngineConfig.to_map JwtOidcAuthEngineRole.is_equivalent_to_desired_state
    JwtOidcAuthEngineRole.to_map LdapAuthEngineConfig.is_equivalent_to_desired_state
    LdapAuthEngineConfig.to_map DatabaseSecretEngineRole.is_equivalent_to_desired_state
    DatabaseSecretEngineRole.to_map DatabaseSecretEngineStaticRole.is_equivalent_to_desired_state
    DatabaseSecretEngineStaticRole.to_map GcpAuthEngineRole.is_equivalent_to_desired_state
    GcpAuthEngineRole.to_map GitHubSecretEngineConfig.is_equivalent_to_desired_state
    GitHubSecretEngineConfig.to_map GitHubSecretEngineRole.is_equivalent_to_desired_state
    GitHubSecretEngineRole.to_map Group.is_equivalent_to_desired_state Group.to_map
    KubernetesAuthEngineConfig.is_equivalent_to_desired_state KubernetesAuthEngineConfig.to_map
    KubernetesAuthEngineRole.is_equivalent_to_desired_state KubernetesAuthEngineRole.to_map
    KubernetesSecretEngineRole.is_equivalent_to_desired_state KubernetesSecretEngineRole.to_map
    PkiSecretEngineRole.is_equivalent_to_desired_state PkiSecretEngineRole.to_map
recognises-decoded (azure_auth_engine_config d) m decoded =
    map_equal_native "max_retries" _ m refl refl decoded
recognises-decoded (azure_auth_engine_role d) m decoded =
    map_equal_native "bound_service_principal_ids" _ m refl refl decoded
recognises-decoded (cert_auth_engine_config d) m decoded =
    map_equal_native "ocsp_cache_size" _ m refl refl decoded
recognises-decoded (cert_auth_engine_role d) m decoded =
    map_equal_native "allowed_common_names" _ m refl refl decoded
recognises-decoded (gcp_auth_engine_config d) m decoded =
    map_equal_native "custom_endpoint" _ m refl refl decoded
recognises-decoded (jwt_oidc_auth_engine_config d) m decoded =
    map_equal_native "oidc_response_types" _ m refl refl decoded
recognises-decoded (jwt_oidc_auth_engine_role d) m decoded =
    map_equal_native "bound_audiences" _ m refl refl decoded
recognises-decoded (ldap_auth_engine_config d) m decoded =
    map_equal_native "token_num_uses" _ m refl refl decoded
recognises-decoded (database_secret_engine_role d) m decoded =
    map_equal_native "default_ttl" _ m refl refl decoded
recognises-decoded (database_secret_engine_static_role itoa d) m decoded =
    let i = d.spec.dbse_static_role in
    map_equal_native "rotation_period" _ m
      (period_found itoa i.password_credential_config i.rsa_private_key_credential_config i) refl
      decoded
recognises-decoded (gcp_auth_engine_role d) m decoded =
    map_equal_native "bound_service_accounts" _ m refl refl decoded
recognises-decoded (git_hub_secret_engine_config d) m decoded =
    map_equal_native "app_id" _ m refl refl decoded
recognises-decoded (git_hub_secret_engine_role d) m decoded =
    map_equal_native "installation_id" _ m refl refl decoded
recognises-decoded (group d) m decoded =
    elim (Bool-cases (str_eq d.spec.group_config.kind "internal")) [
      | inl p ↦ rw p (
          map_equal_native "metadata" _ (erase "name" m) refl refl
            (erase-IsDecodedMap "name" m decoded))
      | inr p ↦ rw p (
          map_equal_native "metadata" _ (erase "name" m) refl refl
            (erase-IsDecodedMap "name" m decoded))
    ]
recognises-decoded (kubernetes_auth_engine_config d) m decoded =
    map_equal_native "pem_keys" _ m refl refl decoded
recognises-decoded (kubernetes_auth_engine_role d) m decoded =
    elim (Bool-cases (is_some d.spec.v_role.audience)) [
      | inl p ↦ rw p (map_equal_native "bound_service_account_names" _ m refl refl decoded)
      | inr p ↦ rw p (map_equal_native "bound_service_account_names" _ m refl refl decoded)
    ]
recognises-decoded (kubernetes_secret_engine_role d) m decoded =
    map_equal_native "allowed_kubernetes_namespaces" _ m refl refl decoded
recognises-decoded (pki_secret_engine_role d) m decoded =
    map_equal_native "ttl" _ m refl refl decoded

-- If Vault answers the read of a resource of one of these kinds with any map that JSON decodes to,
-- then CreateOrUpdate is the write of the payload: it is never skipped.
pub create_or_update_typed_again :
    {W : Type 0} (v : Vault W) (prepare prepare_tls : Action (Cell TypedResource W) (Unit {0}))
    (c : Cell TypedResource W) (m : Payload)
    → (read v (path_of c.object) c.world).0 ≡ ok (some m, true)
    → IsDecodedMap m
    → create_or_update v (typed_objects prepare prepare_tls) c
      ≡ in_world
          (write v (path_of c.object) (payload_of c.object))
          (record c { world = (read v (path_of c.object) c.world).1 })
unfolding create_or_update
create_or_update_typed_again v prepare prepare_tls c m found decoded =
    rw (found, recognises-decoded c.object m decoded) refl
