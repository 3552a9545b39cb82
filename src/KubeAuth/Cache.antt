-- ===== src/KubeAuth/Cache.antt =====
-- The cache as a map, and what a cached client is a client of.
use vault_config_operator.Common.{
  String, ◌≡◌, refl, true, false, List, [], ◌∷◌, Option, none, some, arith, if◌then◌else◌, str_eq,
  eq_iff, eq_refl, ap, ◌∙◌, subst,
}
use vault_config_operator.Common.Action.{ok, Action, pure, of_result, ◌>>◌}
use vault_config_operator.Common.Bind.{bind-ok, bind-at, ok-inj}
use vault_config_operator.KubeAuth.{
  KubeAuthConfiguration, VaultConnection, Platform, Session, load, store, discard, get_cache_key,
  is_true, is_unset_or_true, get_vault_client, cache_get, cache_put, log_in, get_jwt_token,
  create_vault_client,
}

module _ {C : Type 0} where
  pub load-store :
      (k j : String) (c : C) (m : List (String × C))
      → load j (store k c m) ≡ (if str_eq k j then some c else load j m)
  load-store k j c [] = refl
  load-store k j c ((i, d) ∷ m) =
      ground (arith, eq_iff k j, eq_iff i k, eq_iff i j, load-store k j c m)

  pub load-discard :
      (k j : String) (m : List (String × C))
      → load j (discard k m) ≡ (if str_eq k j then none else load j m)
  load-discard k j [] = ground arith
  load-discard k j ((i, d) ∷ m) =
      ground (arith, eq_iff k j, eq_iff i k, eq_iff i j, load-discard k j m)

module _ {W C Config : Type 0} (e : Platform W C Config) where
  -- With the cache enabled, a cached client whose token is still valid is handed out for every
  -- configuration with its key, whatever connection the caller names, and no login takes place.
  get_vault_client_cached :
      (kc : KubeAuthConfiguration) (connection : Option VaultConnection) (ns key : String)
      (client : C) (s : Session W C)
      → is_true (e.lookup_env "CACHE_VAULT_TOKEN" s.world) ≡ true
      → get_cache_key kc ns ≡ ok key
      → load key s.cache ≡ some client
      → (e.lookup_self client s.world).0 ≡ ok tt
      → get_vault_client e kc connection ns s
        ≡ (ok client, record s { world = (e.lookup_self client s.world).1 })
  unfolding get_vault_client cache_get
  get_vault_client_cached kc connection ns key client s enabled k found valid =
      rw (enabled, k, found, valid) refl

  -- With the variable set to anything but "true", the cache is not read: the call is a login.
  pub get_vault_client_uncached :
      (kc : KubeAuthConfiguration) (connection : Option VaultConnection) (ns : String)
      (s : Session W C)
      → is_true (e.lookup_env "CACHE_VAULT_TOKEN" s.world) ≡ false
      → get_vault_client e kc connection ns s ≡ log_in e kc connection ns s
  unfolding get_vault_client
  get_vault_client_uncached kc connection ns s off = rw off refl

  put_in_cache :
      (kc : KubeAuthConfiguration) (ns : String) (client : C) (s : Session W C)
      → (cache_put e kc ns client s).0 ≡ ok tt
      → (key : String) × (get_cache_key kc ns ≡ ok key)
        × (load key (cache_put e kc ns client s).1.cache ≡ some client)
  unfolding cache_put
  put_in_cache kc ns client s h =
      let (key, k, _) = bind-ok (of_result (get_cache_key kc ns)) _ s tt h in
      (
        key,
        k,
        ap (λ r. load key (r.1.cache)) (bind-at (of_result (get_cache_key kc ns)) _ s key k)
            ∙ load-store key key client s.cache
            ∙ rw (eq_refl key) refl,
      )

  abbrev kept : KubeAuthConfiguration → String → C → Option String → Action (Session W C) C
  kept kc ns client o =
      (if is_unset_or_true o then cache_put e kc ns client else pure tt) >> pure client

  kept_in_cache :
      (kc : KubeAuthConfiguration) (ns : String) (client client' : C) (o : Option String)
      (s : Session W C)
      → o ≡ some "true"
      → (kept kc ns client' o s).0 ≡ ok client
      → (key : String) × (get_cache_key kc ns ≡ ok key)
        × (load key (kept kc ns client' o s).1.cache ≡ some client)
  kept_in_cache kc ns client client' o s enabled h =
      let h' = subst (λ o. (kept kc ns client' o s).0 ≡ ok client) enabled h in
      let (_, p, q) = bind-ok (cache_put e kc ns client') _ s client h' in
      let (key, k, found) = put_in_cache kc ns client' s p in
      (
        key,
        k,
        ap (λ o. load key (kept kc ns client' o s).1.cache) enabled
            ∙ ap (λ r. load key (r.1.cache))
                (bind-at (cache_put e kc ns client') (λ _. pure client') s tt p)
            ∙ found
            ∙ ap (λ c. some c) (ok-inj q),
      )

  logged_in :
      (kc : KubeAuthConfiguration) (connection : Option VaultConnection) (ns : String) (client : C)
      (s : Session W C)
      → ((w : W) → e.lookup_env "CACHE_VAULT_TOKEN" w ≡ some "true")
      → (log_in e kc connection ns s).0 ≡ ok client
      → (key : String) × (get_cache_key kc ns ≡ ok key)
        × (load key (log_in e kc connection ns s).1.cache ≡ some client)
  unfolding log_in
  logged_in kc connection ns client s enabled h =
      let (jwt, j, h') = bind-ok (get_jwt_token e kc ns) _ s client h in
      let s' = (get_jwt_token e kc ns s).1 in
      let (client', l, h'') = bind-ok (create_vault_client e kc connection jwt ns) _ s' client h' in
      let s'' = (create_vault_client e kc connection jwt ns s').1 in
      let o = e.lookup_env "CACHE_VAULT_TOKEN" s''.world in
      let (key, k, found) = kept_in_cache kc ns client client' o s'' (enabled s''.world) h'' in
      (
        key,
        k,
        ap (λ r. load key (r.1.cache))
              (bind-at (get_jwt_token e kc ns) _ s jwt j
                ∙ bind-at (create_vault_client e kc connection jwt ns) _ s' client' l)
            ∙ found,
      )

  -- With the cache enabled, a client that a login handed out is handed out again by the next call
  -- for the same configuration and namespace, as long as its token is valid.
  pub get_vault_client-log_in :
      (kc : KubeAuthConfiguration) (connection connection' : Option VaultConnection) (ns : String)
      (client : C) (s : Session W C)
      → ((w : W) → e.lookup_env "CACHE_VAULT_TOKEN" w ≡ some "true")
      → (log_in e kc connection ns s).0 ≡ ok client
      → (e.lookup_self client (log_in e kc connection ns s).1.world).0 ≡ ok tt
      → (get_vault_client e kc connection' ns (log_in e kc connection ns s).1).0 ≡ ok client
  get_vault_client-log_in kc connection connection' ns client s enabled h valid =
      let s' = (log_in e kc connection ns s).1 in
      let (key, k, found) = logged_in kc connection ns client s enabled h in
      ap (λ r. r.0)
        (get_vault_client_cached kc connection' ns key client s' (rw (enabled s'.world) refl) k
          found valid)
