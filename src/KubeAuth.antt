-- ===== src/KubeAuth.antt =====
-- Logging in to Vault with a Kubernetes service account, and the cache of clients:
-- api/v1alpha1/utils/commons.go.
pub mod Cache
mod Tests
use vault_config_operator.Common.{
  ℕ, String, Bool, true, false, not, ◌&&◌, ◌||◌, List, [], ◌∷◌, Option, none, some, if◌then◌else◌,
  str_eq,
}
use vault_config_operator.Common.Int.{ℤ}
use vault_config_operator.Common.Action.{
  Error, plain, Result, ok, err, panic, Action, pure, fail, of_result, get, modify, try, ◌>>=◌,
  ◌>>◌,
}
use vault_config_operator.Common.Text.{◌^^◌}
use vault_config_operator.Paths.{cleanse_path}
use vault_config_operator.Payload.{Payload, end, field, str}
use vault_config_operator.Vault.{Secret}

-- A nil `ServiceAccount` is `none`; of an object reference only the name is used.
pub record KubeAuthConfiguration : Type 0 where
  pub service_account : Option String
  pub path : String
  pub role : String
  pub namespace : String

pub record TlsConfig : Type 0 where
  pub cacert : Option String
  pub tls_secret : Option String
  pub skip_verify : Bool
  pub tls_server_name : Option String

pub record VaultConnection : Type 0 where
  pub tls_config : Option TlsConfig
  pub address : String
  pub time_out : Option ℤ
  pub max_retries : Option ℤ

unfoldable pub get_kube_auth_path : KubeAuthConfiguration → String
get_kube_auth_path kc = cleanse_path ("auth/" ^^ kc.path ^^ "/login")

unfoldable pub get_service_account_name : KubeAuthConfiguration → String
get_service_account_name kc = elim kc.service_account [ none ↦ "default" | some name ↦ name ]

-- The key names no Vault server; a nil service account is a nil pointer here.
abbrev pub key_of : String → KubeAuthConfiguration → Option String → Result String
key_of kube_namespace kc none = panic
key_of kube_namespace kc (some account) =
    ok (kube_namespace ^^ ":" ^^ account ^^ ":" ^^ kc.path ^^ ":" ^^ kc.role ^^ ":" ^^ kc.namespace)

unfoldable pub get_cache_key : KubeAuthConfiguration → String → Result String
get_cache_key kc kube_namespace = key_of kube_namespace kc kc.service_account

-- The libraries that a login goes through: the environment, the API server's token request, and
-- the Vault client. `configure` is what the client's configuration is made from a connection by
-- `getConnectionConfig`, which reads a TLS secret of the namespace.
pub record Platform (W C Config : Type 0) : Type 0 where
  pub lookup_env : String → W → Option String
  pub create_token : String → String → ℕ → Action W String
  pub default_config : Config
  pub configure : VaultConnection → String → Action W Config
  pub new_client : Config → Action W C
  pub set_namespace : String → C → C
  pub set_token : String → C → C
  pub client_write : C → String → Payload → Action W (Option Secret)
  pub lookup_self : C → Action W (Unit {0})

-- The package variable `vaultClientCache`, beside the world.
pub record Session (W C : Type 0) : Type 0 where
  pub cache : List (String × C)
  pub world : W

abbrev pub in_session {ℓ} : {W C : Type 0} {A : Type ℓ} → Action W A → Action (Session W C) A
in_session m s = let (r, w) = m s.world in (r, record s { world = w })

module _ {C : Type 0} where
  -- `sync.Map`: `Load`, `Store` and `Delete`.
  abbrev pub load : String → List (String × C) → Option C
  load k [] = none
  load k ((j, c) ∷ m) = if str_eq j k then some c else load k m

  abbrev pub store : String → C → List (String × C) → List (String × C)
  store k c [] = (k, c) ∷ []
  store k c ((j, d) ∷ m) = if str_eq j k then (k, c) ∷ m else (j, d) ∷ store k c m

  abbrev pub discard : String → List (String × C) → List (String × C)
  discard k [] = []
  discard k ((j, d) ∷ m) = if str_eq j k then discard k m else (j, d) ∷ discard k m

-- `lookup, ok := os.LookupEnv(…)`, `ok && lookup == "true"`
abbrev pub is_true : Option String → Bool
is_true none = false
is_true (some value) = str_eq value "true"

-- `!ok || lookup == "true"`
abbrev pub is_unset_or_true : Option String → Bool
is_unset_or_true none = true
is_unset_or_true (some value) = str_eq value "true"

module _ {W C Config : Type 0} (e : Platform W C Config) (kc : KubeAuthConfiguration) where
  -- `VaultClientCache.Get`, `Put` and `Delete`.
  unfoldable pub cache_get : String → Action (Session W C) (Option C)
  cache_get kube_namespace = do
    key ← of_result (get_cache_key kc kube_namespace)
    s ← get
    pure (load key s.cache)

  unfoldable pub cache_put : String → C → Action (Session W C) (Unit {0})
  cache_put kube_namespace client = do
    key ← of_result (get_cache_key kc kube_namespace)
    modify (λ s. record s { cache = store key client s.cache })

  unfoldable pub cache_delete : String → Action (Session W C) (Unit {0})
  cache_delete kube_namespace = do
    key ← of_result (get_cache_key kc kube_namespace)
    modify (λ s. record s { cache = discard key s.cache })

  -- A token for ten minutes.
  unfoldable pub get_jwt_token : String → Action (Session W C) String
  get_jwt_token kube_namespace =
      in_session (e.create_token (get_service_account_name kc) kube_namespace 600)

  abbrev pub config_for : Option VaultConnection → String → Action (Session W C) Config
  config_for none kube_namespace = pure e.default_config
  config_for (some connection) kube_namespace = in_session (e.configure connection kube_namespace)

  abbrev pub in_namespace : C → C
  in_namespace client =
      if str_eq kc.namespace "" then client else e.set_namespace kc.namespace client

  -- A nil secret after a login is a nil pointer.
  abbrev pub token_of : Option Secret → Result String
  token_of none = panic
  token_of (some secret) = ok secret.client_token

  -- Without the lifetime watcher that it starts in the background.
  unfoldable pub create_vault_client :
      Option VaultConnection → String → String → Action (Session W C) C
  create_vault_client connection jwt kube_namespace = do
    config ← config_for connection kube_namespace
    client ← in_session (e.new_client config)
    secret ← in_session (
        e.client_write (in_namespace client) (get_kube_auth_path kc)
          (field "jwt" (str jwt) (field "role" (str kc.role) end)))
    token ← of_result (token_of secret)
    pure (e.set_token token (in_namespace client))

  -- A fresh login, and its place in the cache.
  unfoldable pub log_in : Option VaultConnection → String → Action (Session W C) C
  log_in connection kube_namespace = do
    jwt ← get_jwt_token kube_namespace
    client ← create_vault_client connection jwt kube_namespace
    s ← get
    if is_unset_or_true (e.lookup_env "CACHE_VAULT_TOKEN" s.world)
        then cache_put kube_namespace client
        else pure tt
    pure client

  -- A cached client is used if its token is still valid.
  abbrev pub reuse : Option VaultConnection → String → Option C → Action (Session W C) C
  reuse connection kube_namespace none = log_in connection kube_namespace
  reuse connection kube_namespace (some client) = do
    valid ← try (in_session (e.lookup_self client))
    elim valid [ ok _ ↦ pure client | _ ↦ log_in connection kube_namespace ]

  unfoldable pub get_vault_client : Option VaultConnection → String → Action (Session W C) C
  get_vault_client connection kube_namespace = do
    s ← get
    if is_true (e.lookup_env "CACHE_VAULT_TOKEN" s.world)
        then (do cached ← cache_get kube_namespace; reuse connection kube_namespace cached)
        else log_in connection kube_namespace
