-- ===== src/Kinds/Retrieval/LdapTls.antt =====
-- The certificates of LDAPAuthEngineConfig: `PrepareTLSConfig` of
-- api/v1alpha1/ldapauthengineconfig_types.go.
use vault_config_operator.Common.{
  String, Bool, false, not, ◌&&◌, ◌||◌, List, Option, none, some, is_some, if◌then◌else◌, str_eq,
}
use vault_config_operator.Common.Action.{Action, pure, get, modify, ◌>>=◌}
use vault_config_operator.Endpoint.{Cell, in_world}
use vault_config_operator.KubeAuth.{TlsConfig}
use vault_config_operator.Database.Retrieval.{bytes_at}
use vault_config_operator.Kinds.LdapAuthEngineConfig.{LdapAuthEngineConfig}

abbrev pub set_certificates : String → String → String → LdapAuthEngineConfig → LdapAuthEngineConfig
set_certificates certificate client_cert client_key d = record d {
  spec = record (d.spec) {
    ldap_config = record (d.spec.ldap_config) {
      retrieved_certificate = certificate;
      retrieved_client_tls_cert = client_cert;
      retrieved_client_tls_key = client_key;
    };
  };
}

abbrev is_unnamed : Option String → Bool
is_unnamed none = false
is_unnamed (some name) = str_eq name ""

-- `reflect.DeepEqual(…, TLSConfig{TLSSecret: &LocalObjectReference{}})`
abbrev pub is_default_tls : TlsConfig → Bool
is_default_tls t =
    not (is_some t.cacert)
    && (is_unnamed t.tls_secret && (not t.skip_verify && not (is_some t.tls_server_name)))

abbrev pub has_certificates : LdapAuthEngineConfig → Bool
has_certificates d =
    not (str_eq d.spec.ldap_config.certificate "")
    || (not (str_eq d.spec.ldap_config.client_tls_cert "")
        || not (str_eq d.spec.ldap_config.client_tls_key ""))

-- `get_secret` reads the data of a Secret in the object's namespace.
module _ {W : Type 0} (get_secret : String → Action W (List (String × String))) where
  abbrev pub keep :
      (LdapAuthEngineConfig → LdapAuthEngineConfig)
      → Action (Cell LdapAuthEngineConfig W) (Unit {0})
  keep f = modify (λ c. record c { object = f c.object })

  unfoldable pub set_tls_config : Action (Cell LdapAuthEngineConfig W) (Unit {0})
  set_tls_config = do
    c ← get
    elim c.object.spec.tls_config.tls_secret [
      | some name ↦ do
        contents ← in_world (get_secret name)
        keep (
            set_certificates (bytes_at "ca.crt" contents) (bytes_at "tls.crt" contents)
              (bytes_at "tls.key" contents))
      | none ↦
          if has_certificates c.object
          then keep (λ d.
            set_certificates d.spec.ldap_config.certificate d.spec.ldap_config.client_tls_cert
              d.spec.ldap_config.client_tls_key d)
          else pure tt
    ]

  unfoldable pub prepare_tls_config : Action (Cell LdapAuthEngineConfig W) (Unit {0})
  prepare_tls_config = do
    c ← get
    if is_default_tls c.object.spec.tls_config then pure tt else set_tls_config
