-- ===== src/Resource.antt =====
-- The helpers for Kubernetes resources in controllers/vaultresourcecontroller/utils.go. The client
-- (sigs.k8s.io/controller-runtime) is a parameter: four calls that act on a world `W`.
pub mod Applied
mod Tests
use vault_config_operator.Common.{
  String, Bool, true, false, not, Option, none, some, if◌then◌else◌, str_eq,
}
use vault_config_operator.Common.Action.{
  Error, api, response, plain, Result, ok, err, panic, Action, of_result, fail, try, ◌>>=◌,
}

-- The metadata that the helpers read and set.
pub record Resource (R : Type 0) : Type 0 where
  pub get_name : R → String
  pub get_namespace : R → String
  pub set_namespace : String → R → R
  pub get_resource_version : R → String
  pub set_resource_version : String → R → R

-- `get` takes the namespace first. What the calls write back to the object they are given is not
-- kept, for no caller of the helpers reads it.
pub record Client (R W : Type 0) : Type 0 where
  pub get : String → String → Action W R
  pub create : R → Action W (Unit {0})
  pub update : R → Action W (Unit {0})
  pub delete : R → Action W (Unit {0})

-- `apierrors.IsNotFound`
abbrev pub is_not_found : Error → Bool
is_not_found (api b message) = b
is_not_found _ = false

-- `DeleteResourceIfExists` fails on any other error.
abbrev pub deleted : Result (Unit {0}) → Result (Unit {0})
deleted (ok _) = ok tt
deleted (err e) = if is_not_found e then ok tt else err e
deleted panic = panic

module _ {R W : Type 0} (a : Resource R) (c : Client R W) where
  -- The owner is the function that sets the controller reference, whose error the code drops.
  abbrev pub owned : Option (R → R) → R → R
  owned none obj = obj
  owned (some set_controller_reference) obj = set_controller_reference obj

  abbrev pub placed : String → R → R
  placed namespace obj = if not (str_eq namespace "") then a.set_namespace namespace obj else obj

  -- The object as it is sent, but for the version.
  abbrev pub desired : Option (R → R) → String → R → R
  desired owner namespace obj = placed namespace (owned owner obj)

  abbrev pub apply : R → Result R → Action W (Unit {0})
  apply obj (ok obj2) = c.update (a.set_resource_version (a.get_resource_version obj2) obj)
  apply obj (err e) = if is_not_found e then c.create obj else fail e
  apply obj panic = of_result panic

  unfoldable pub create_or_update_resource : Option (R → R) → String → R → Action W (Unit {0})
  create_or_update_resource owner namespace obj = do
    found ← try (
        c.get (a.get_namespace (desired owner namespace obj))
          (a.get_name (desired owner namespace obj)))
    apply (desired owner namespace obj) found

  unfoldable pub delete_resource_if_exists : R → Action W (Unit {0})
  delete_resource_if_exists obj = do answer ← try (c.delete obj); of_result (deleted answer)
