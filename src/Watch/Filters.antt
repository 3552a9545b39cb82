-- ===== src/Watch/Filters.antt =====
-- Which updates of Secrets the watches of the controllers pass on.
use vault_config_operator.Common.{
  String, ◌≡◌, ◌≢◌, ◌↔◌, ◌⊎◌, refl, Bool, true, Bool-cases, inl, inr, arith, eq_iff, List, [], ◌∷◌,
  some, str_eq, any,
}
use vault_config_operator.Database.Retrieval.{bytes_at}
use vault_config_operator.Watch.{WatchedSecret, SecretFilter, is_same, is_secret_update}
use vault_config_operator.Watch.AzureAuth
use vault_config_operator.Watch.AzureSecret
use vault_config_operator.Watch.Database
use vault_config_operator.Watch.GcpAuth
use vault_config_operator.Watch.GitHub
use vault_config_operator.Watch.JwtOidcAuth
use vault_config_operator.Watch.KubernetesSecret
use vault_config_operator.Watch.LdapAuth
use vault_config_operator.Watch.Quay

-- The entry `i` of the old Secret is the entry `j` of the new one; a missing entry is empty.
abbrev pub Same : WatchedSecret → WatchedSecret → String → String → Type 0
Same old new i j = bytes_at i old.contents ≡ bytes_at j new.contents

-- A test is passed just by the Secrets of another type than `kind` of which `T` holds.
abbrev pub IsPassedBy : Bool → WatchedSecret → String → Type 0 → Type 0
IsPassedBy passed new kind T = (passed ≡ true) ↔ ((new.kind ≢ kind) × T)

abbrev AnySame : WatchedSecret → WatchedSecret → List (String × String) → Type 0
AnySame old new [] = ⊥
AnySame old new ((i, j) ∷ []) = Same old new i j
AnySame old new ((i, j) ∷ pair ∷ pairs) = Same old new i j ⊎ AnySame old new (pair ∷ pairs)

any-same :
    (old new : WatchedSecret) (pairs : List (String × String))
    → any (is_same old new) pairs ≡ true
    → AnySame old new pairs
any-same old new [] h = cc
any-same old new ((i, j) ∷ []) h =
    ground (arith, eq_iff (bytes_at i old.contents) (bytes_at j new.contents))
any-same old new ((i, j) ∷ pair ∷ pairs) h = elim (Bool-cases (is_same old new (i, j))) [
  | inl e ↦ inl ((eq_iff _ _).0 e)
  | inr e ↦ inr (any-same old new (pair ∷ pairs) (ground (arith, e, h)))
]

same-any :
    (old new : WatchedSecret) (pairs : List (String × String))
    → AnySame old new pairs
    → any (is_same old new) pairs ≡ true
same-any old new [] h = absurd h
same-any old new ((i, j) ∷ []) h =
    rw ((eq_iff (bytes_at i old.contents) (bytes_at j new.contents)).1 h) refl
same-any old new ((i, j) ∷ pair ∷ pairs) (inl h) =
    rw ((eq_iff (bytes_at i old.contents) (bytes_at j new.contents)).1 h) refl
same-any old new ((i, j) ∷ pair ∷ pairs) (inr h) =
    let rest = same-any old new (pair ∷ pairs) h in
    elim (Bool-cases (is_same old new (i, j))) [ inl e ↦ rw e refl | inr e ↦ rw e rest ]

is_secret_update-IsPassedBy :
    (f : SecretFilter) (old new : WatchedSecret)
    → IsPassedBy
        (is_secret_update f (some old) (some new))
        new
        f.barred_kind
        (AnySame old new f.compared)
unfolding is_secret_update
is_secret_update-IsPassedBy f old new = elim (Bool-cases (str_eq new.kind f.barred_kind)) [
  | inl e ↦
      (λ h. absurd (ground (arith, e, h)), λ p. absurd (p.0 ((eq_iff new.kind f.barred_kind).0 e)))
  | inr e ↦ (
    λ h. (
      λ same. absurd (ground (arith, e, (eq_iff new.kind f.barred_kind).1 same)),
      any-same old new f.compared (ground (arith, e, h)),
    ),
    λ p. rw e (same-any old new f.compared p.1),
  )
]

-- Each of the ten filters of the nine controllers, with the type and the entries it compares.
abbrev pub ArePassed : WatchedSecret → WatchedSecret → Type 0
ArePassed old new =
    IsPassedBy (AzureAuth.is_basic_auth_secret_update (some old) (some new)) new
      "kubernetes.io/basic-auth"
      (Same old new "clientid" "clientid" ⊎ Same old new "clientsecret" "clientsecret")
    × IsPassedBy (AzureSecret.is_basic_auth_secret_update (some old) (some new)) new
        "kubernetes.io/basic-auth"
        (Same old new "clientid" "clientid" ⊎ Same old new "clientsecret" "clientsecret")
    × IsPassedBy (Database.is_basic_auth_secret_update (some old) (some new)) new
        "kubernetes.io/basic-auth"
        (Same old new "username" "username" ⊎ Same old new "password" "password")
    × IsPassedBy (GcpAuth.is_basic_auth_secret_update (some old) (some new)) new
        "kubernetes.io/basic-auth"
        (Same old new "serviceaccount" "credentials" ⊎ Same old new "credentials" "credentials")
    × IsPassedBy (GitHub.is_ssh_secret_update (some old) (some new)) new "kubernetes.io/ssh-auth"
        (Same old new "ssh-privatekey" "ssh-privatekey")
    × IsPassedBy (JwtOidcAuth.is_basic_auth_secret_update (some old) (some new)) new
        "kubernetes.io/basic-auth"
        (Same old new "username" "username" ⊎ Same old new "password" "password")
    × IsPassedBy (KubernetesSecret.is_sa_token_secret_update (some old) (some new)) new
        "kubernetes.io/service-account-token" (Same old new "token" "token")
    × IsPassedBy (LdapAuth.is_basic_auth_secret_update (some old) (some new)) new
        "kubernetes.io/basic-auth"
        (Same old new "username" "username" ⊎ Same old new "password" "password")
    × IsPassedBy (LdapAuth.is_tls_secret_update (some old) (some new)) new "kubernetes.io/tls" (
        Same old new "ca.crt" "ca.crt"
        ⊎ (Same old new "tls.crt" "tls.crt" ⊎ Same old new "tls.key" "tls.key"))
    × IsPassedBy (Quay.is_basic_auth_secret_update (some old) (some new)) new
        "kubernetes.io/basic-auth" (Same old new "password" "password")

-- An update of a Secret is passed on, by each of the filters of the nine controllers, just if the
-- new Secret is not of the type that the filter is named after, and one of the entries that are
-- compared is as it was: a change of all of them, and any change of a Secret of that type, is passed
-- over. The filter for GCP compares the old service account with the new credentials.
pub secret_updates-ArePassed : (old new : WatchedSecret) → ArePassed old new
unfolding AzureAuth.is_basic_auth_secret_update AzureSecret.is_basic_auth_secret_update
    Database.is_basic_auth_secret_update GcpAuth.is_basic_auth_secret_update
    GitHub.is_ssh_secret_update JwtOidcAuth.is_basic_auth_secret_update
    KubernetesSecret.is_sa_token_secret_update LdapAuth.is_basic_auth_secret_update
    LdapAuth.is_tls_secret_update Quay.is_basic_auth_secret_update
secret_updates-ArePassed old new = (
  is_secret_update-IsPassedBy AzureAuth.basic_auth_secrets old new,
  is_secret_update-IsPassedBy AzureSecret.basic_auth_secrets old new,
  is_secret_update-IsPassedBy Database.basic_auth_secrets old new,
  is_secret_update-IsPassedBy GcpAuth.basic_auth_secrets old new,
  is_secret_update-IsPassedBy GitHub.ssh_secrets old new,
  is_secret_update-IsPassedBy JwtOidcAuth.basic_auth_secrets old new,
  is_secret_update-IsPassedBy KubernetesSecret.sa_token_secrets old new,
  is_secret_update-IsPassedBy LdapAuth.basic_auth_secrets old new,
  is_secret_update-IsPassedBy LdapAuth.tls_secrets old new,
  is_secret_update-IsPassedBy Quay.basic_auth_secrets old new,
)
