-- ===== src/Watch/Unwatched.antt =====
-- A Secret from which a key can be read, and the watch that should tell of its changes.
use vault_config_operator.Common.{
  String, ◌≡◌, refl, sym, ap, ◌∙◌, Bool, true, false, not, if◌then◌else◌, some, str_eq,
}
use vault_config_operator.Common.Action.{Error, ok, Action, fail}
use vault_config_operator.Common.Bind.{bind-at}
use vault_config_operator.Endpoint.{Cell, in_world}
use vault_config_operator.Vault.{Vault}
use vault_config_operator.Watch.{WatchedSecret, SecretFilter, is_secret_update, is_secret_create}
use vault_config_operator.Watch.GitHub.{ssh_secrets}
use vault_config_operator.Watch.KubernetesSecret.{sa_token_secrets}
use vault_config_operator.Kinds.GitHubSecretEngineConfig.{GitHubSecretEngineConfig}
use vault_config_operator.Kinds.KubernetesSecretEngineConfig.{KubernetesSecretEngineConfig}
use vault_config_operator.Kinds.Retrieval.Key.{KeyRetrieval, key_from_secret}
use vault_config_operator.Kinds.Retrieval.GitHub
use vault_config_operator.Kinds.Retrieval.KubernetesSecret

-- `f` passes on neither the creation of the Secret nor an update to it.
abbrev pub Ignores : SecretFilter → WatchedSecret → WatchedSecret → Type 0
Ignores f old secret =
    (is_secret_create f (some secret) ≡ false)
    × (is_secret_update f (some old) (some secret) ≡ false)

barred-Ignores :
    (f : SecretFilter) (old secret : WatchedSecret)
    → str_eq secret.kind f.barred_kind ≡ true
    → Ignores f old secret
unfolding is_secret_create is_secret_update
barred-Ignores f old secret h = (rw h refl, rw h refl)

-- What goes on after a test has passed it.
guard-ok :
    {S : Type 0} (b : Bool) (issue : Error) (m : Action S (Unit {0})) (s : S)
    → ((if not b then fail issue else m) s).0 ≡ ok tt
    → b ≡ true
guard-ok true issue m s h = refl
guard-ok false issue m s h = cc

module _ {O W : Type 0} (v : Vault W) (get_secret : String → Action W WatchedSecret)
    (r : KeyRetrieval O) where
  key_from_secret-kind :
      (name : String) (c : Cell O W) (secret : WatchedSecret)
      → (get_secret name c.world).0 ≡ ok secret
      → (key_from_secret v get_secret r name c).0 ≡ ok tt
      → str_eq secret.kind r.secret_kind ≡ true
  unfolding key_from_secret
  key_from_secret-kind name c secret h e =
      guard-ok (str_eq secret.kind r.secret_kind) _ _ _
        (sym (ap (λ r. r.0) (bind-at (in_world (get_secret name)) _ c secret h)) ∙ e)

-- If the configuration of the GitHub engine reads its key from a Kubernetes secret, the watch of its
-- controller passes on neither the creation of that secret nor an update to it.
pub github_key-Ignores :
    {W : Type 0} (v : Vault W) (get_secret : String → Action W WatchedSecret) (name : String)
    (c : Cell GitHubSecretEngineConfig W) (old secret : WatchedSecret)
    → (get_secret name c.world).0 ≡ ok secret
    → (key_from_secret v get_secret GitHub.retrieval name c).0 ≡ ok tt
    → Ignores ssh_secrets old secret
github_key-Ignores v get_secret name c old secret h e =
    barred-Ignores ssh_secrets old secret
      (key_from_secret-kind v get_secret GitHub.retrieval name c secret h e)

-- The same of the Kubernetes secret engine.
pub kubernetes_key-Ignores :
    {W : Type 0} (v : Vault W) (get_secret : String → Action W WatchedSecret) (name : String)
    (c : Cell KubernetesSecretEngineConfig W) (old secret : WatchedSecret)
    → (get_secret name c.world).0 ≡ ok secret
    → (key_from_secret v get_secret KubernetesSecret.retrieval name c).0 ≡ ok tt
    → Ignores sa_token_secrets old secret
kubernetes_key-Ignores v get_secret name c old secret h e =
    barred-Ignores sa_token_secrets old secret
      (key_from_secret-kind v get_secret KubernetesSecret.retrieval name c secret h e)
