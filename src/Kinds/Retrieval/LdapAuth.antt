-- ===== src/Kinds/Retrieval/LdapAuth.antt =====
-- The credentials of LDAPAuthEngineConfig: api/v1alpha1/ldapauthengineconfig_types.go.
use vault_config_operator.Common.{String}
use vault_config_operator.Common.Action.{Action, get, ◌>>=◌}
use vault_config_operator.Vault.{Vault}
use vault_config_operator.Endpoint.{Cell}
use vault_config_operator.Database.Retrieval.{Lookups}
use vault_config_operator.Kinds.LdapAuthEngineConfig.{LdapAuthEngineConfig}
use vault_config_operator.Kinds.Retrieval.{Retrieval, retrieve}

abbrev pub set_username_and_password : String → String → LdapAuthEngineConfig → LdapAuthEngineConfig
set_username_and_password username password d = record d {
  spec = record (d.spec) {
    ldap_config = record (d.spec.ldap_config) {
      retrieved_username = username;
      retrieved_password = password;
    };
  };
}

abbrev pub retrieval : Retrieval LdapAuthEngineConfig
retrieval = record {
  username = λ d. d.spec.ldap_config.bind_dn;
  username_beside_secret = λ d. d.spec.ldap_config.bind_dn;
  set = set_username_and_password;
}

module _ {W : Type 0} (v : Vault W) (k : Lookups W) where
  unfoldable pub set_internal_credentials : Action (Cell LdapAuthEngineConfig W) (Unit {0})
  set_internal_credentials = do c ← get; retrieve v k retrieval c.object.spec.bind_credentials

  unfoldable pub prepare_internal_values : Action (Cell LdapAuthEngineConfig W) (Unit {0})
  unfolding set_internal_credentials
  prepare_internal_values = set_internal_credentials
