-- ===== src/Pki/Config.antt =====
-- Where the two configuration steps of a PKI engine write.
use vault_config_operator.Common.{String, ◌≡◌, ◌∙◌, Bool, false, Option, some, arith}
use vault_config_operator.Common.Action.{ok}
use vault_config_operator.Payload.{Payload}
use vault_config_operator.Vault.{Vault, read}
use vault_config_operator.Vault.Store.{IsStore}
use vault_config_operator.Vault.Calls.{read-keeps, write-keeps, write-stores}
use vault_config_operator.Endpoint.{Cell, VaultObject}
use vault_config_operator.Pki.{
  VaultPkiEngineObject, create_or_update_config, create_or_update_config_urls,
  create_or_update_config_crl,
}

module _ {O W : Type 0} (v : Vault W) (o : VaultObject O W) (k : VaultPkiEngineObject O W)
    (at : W → String → Option Payload) (stored : String → Payload → Payload)
    (apart : String → String → Type 0) (s : IsStore v at stored apart) where
  -- A configuration step writes nowhere but at the path of the CRL configuration.
  create_or_update_config-keeps :
      (path q : String) (d : Payload) (c : Cell O W)
      → apart (k.get_config_crl_path c.object) q
      → let c' = (create_or_update_config v o k path d c).1 in
        (at c'.world q ≡ at c.world q) × (c'.object ≡ c.object)
  unfolding create_or_update_config
  create_or_update_config-keeps path q d c ne = ground (
    arith,
    read-keeps v at stored apart s path q c.world,
    write-keeps v at stored apart s (k.get_config_crl_path c.object) q d (read v path c.world).1 ne,
  )

  create_or_update_config-stores :
      (path : String) (d : Payload) (c : Cell O W) (now : Option Payload) (found : Bool)
      → (read v path c.world).0 ≡ ok (now, found)
      → o.is_equivalent_to_desired_state c.object now ≡ false
      → (create_or_update_config v o k path d c).0 ≡ ok tt
      → at (create_or_update_config v o k path d c).1.world (k.get_config_crl_path c.object)
        ≡ some (stored (k.get_config_crl_path c.object) d)
  unfolding create_or_update_config
  create_or_update_config-stores path d c now found e differs h = ground (
    arith,
    write-stores v at stored apart s (k.get_config_crl_path c.object) d (read v path c.world).1,
  )

  -- If the path of the CRL configuration is apart from that of the URLs, neither configuration step,
  -- whatever it returns, changes what is at the path of the URLs.
  pub config_urls_never_written :
      (c : Cell O W)
      → apart (k.get_config_crl_path c.object) (k.get_config_urls_path c.object)
      → let urls = k.get_config_urls_path c.object in
        let c' = (create_or_update_config_urls v o k c).1 in
        let c'' = (create_or_update_config_crl v o k c').1 in
        (at c'.world urls ≡ at c.world urls) × (at c''.world urls ≡ at c.world urls)
  unfolding create_or_update_config_urls create_or_update_config_crl
  config_urls_never_written c ne =
      let urls = k.get_config_urls_path c.object in
      let (kept, same) =
        create_or_update_config-keeps urls urls (k.get_config_urls_payload c.object) c ne in
      let c' = (create_or_update_config_urls v o k c).1 in
      let (kept', _) =
        create_or_update_config-keeps (k.get_config_crl_path c'.object) urls
          (k.get_config_crl_payload c'.object) c' (rw same ne) in
      (kept, kept' ∙ kept)

  -- If the path of the URLs can be read and the object does not take what is there for its desired
  -- state, a step for the URLs that succeeds has stored the URLs' payload at the path of the CRL
  -- configuration.
  pub config_urls_overwrites_crl :
      (c : Cell O W)
      → (d : Option Payload) (found : Bool)
      → (read v (k.get_config_urls_path c.object) c.world).0 ≡ ok (d, found)
      → o.is_equivalent_to_desired_state c.object d ≡ false
      → (create_or_update_config_urls v o k c).0 ≡ ok tt
      → at (create_or_update_config_urls v o k c).1.world (k.get_config_crl_path c.object)
        ≡ some (stored (k.get_config_crl_path c.object) (k.get_config_urls_payload c.object))
  unfolding create_or_update_config_urls
  config_urls_overwrites_crl c d found e differs h =
      create_or_update_config-stores (k.get_config_urls_path c.object)
        (k.get_config_urls_payload c.object) c d found e differs h
