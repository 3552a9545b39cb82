-- ===== src/Watch.antt =====
-- The watches by which a controller of controllers/ comes to reconcile an object again: filters on
-- the events of Secrets and RandomSecrets, and the search for the objects that refer to them. Nine
-- controllers have one text for them, but for the fields.
pub mod AzureAuth
pub mod AzureSecret
pub mod Database
pub mod GcpAuth
pub mod GitHub
pub mod JwtOidcAuth
pub mod KubernetesAuth
pub mod KubernetesSecret
pub mod LdapAuth
pub mod Quay
pub mod Requests
pub mod Filters
pub mod Unwatched
pub mod Roles
mod Tests
use vault_config_operator.Common.{
  String, Bool, true, false, not, ◌||◌, ◌&&◌, List, [], ◌∷◌, Option, none, some, if◌then◌else◌,
  str_eq, any, map,
}
use vault_config_operator.Common.Int.{ℤ, eqb_ℤ}
use vault_config_operator.Common.Action.{
  Result, ok, err, panic, Action, pure, of_result, try, ◌>>=◌,
}
use vault_config_operator.Database.Retrieval.{bytes_at}

-- A Secret as a watch sees it.
pub record WatchedSecret : Type 0 where
  pub name : String
  pub namespace : String
  pub kind : String
  pub contents : List (String × String)

-- `predicate.Funcs` of a watch on Secrets: the type of Secret that is passed over, and the entries
-- that are compared, the one of the old Secret first.
pub record SecretFilter : Type 0 where
  pub barred_kind : String
  pub compared : List (String × String)

-- `bytes.Equal(oldSecret.Data[i], newSecret.Data[j])`; nil and empty are equal.
abbrev pub is_same : WatchedSecret → WatchedSecret → String × String → Bool
is_same old new (i, j) = str_eq (bytes_at i old.contents) (bytes_at j new.contents)

-- `UpdateFunc`, with `none` for an object of another type.
unfoldable pub is_secret_update : SecretFilter → Option WatchedSecret → Option WatchedSecret → Bool
is_secret_update f old none = false
is_secret_update f none (some new) = not (str_eq new.kind f.barred_kind)
is_secret_update f (some old) (some new) =
    if str_eq new.kind f.barred_kind then false else any (is_same old new) f.compared

-- `CreateFunc`
unfoldable pub is_secret_create : SecretFilter → Option WatchedSecret → Bool
is_secret_create f none = false
is_secret_create f (some new) = not (str_eq new.kind f.barred_kind)

-- `isUpdatedRandomSecret` on the times of the last update.
unfoldable pub is_updated_random_secret : Option (Option ℤ) → Option (Option ℤ) → Bool
is_updated_random_secret old none = false
is_updated_random_secret none (some new) = true
is_updated_random_secret (some old) (some none) = false
is_updated_random_secret (some none) (some (some new)) = true
is_updated_random_secret (some (some old)) (some (some new)) = not (eqb_ℤ new old)

-- An object that the API server lists.
pub record Listed (O : Type 0) : Type 0 where
  pub name : String
  pub namespace : String
  pub object : O

-- `reconcile.Request`
pub record Request : Type 0 where
  pub name : String
  pub namespace : String

abbrev pub names_it : String → Option String → Bool
names_it name none = false
names_it name (some other) = str_eq other name

module _ {O : Type 0} where
  -- The loop over the objects of the Secret's namespace.
  unfoldable pub find_applicable : (O → Option String) → String → List (Listed O) → List (Listed O)
  find_applicable reference name [] = []
  find_applicable reference name (vr ∷ items) =
      let rest = find_applicable reference name items in
      if names_it name (reference vr.object) then vr ∷ rest else rest

  abbrev pub request_of : Listed O → Request
  request_of x = record { name = x.name; namespace = x.namespace }

  abbrev pub found_or_none : Result (List (Listed O)) → Result (List (Listed O))
  found_or_none (ok items) = ok items
  found_or_none (err issue) = ok []
  found_or_none panic = panic

  -- `handler.EnqueueRequestsFromMapFunc`: an error of the listing is logged only.
  unfoldable pub enqueue :
      {W : Type 0}
      → (String → Action W (List (Listed O)))
      → (O → Option String)
      → String
      → String
      → Action W (List Request)
  enqueue list reference namespace name = do
    answer ← try (list namespace)
    items ← of_result (found_or_none answer)
    pure (map request_of (find_applicable reference name items))
