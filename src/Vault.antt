-- ===== src/Vault.antt =====
-- The Vault client and the functions of api/v1alpha1/utils/vaultutils.go over it.
-- The client (github.com/hashicorp/vault/api) is a parameter: three calls that act on a world `W`,
-- which holds the server and whatever else the calls change.
pub mod Store
pub mod Calls
use vault_config_operator.Common.{
  ℕ, String, Bool, true, false, ◌||◌, List, [], ◌∷◌, Option, none, some, ◌==◌, if◌then◌else◌,
}
use vault_config_operator.Common.Action.{
  Error, response, api, plain, Result, ok, err, panic, Action, pure, fail, of_result, try, ◌>>=◌,
}
use vault_config_operator.Payload.{Payload, Fields, end, field, Value, str, insert}

-- `vault.Secret`, with `none` for a nil `Data` map. `client_token` is `Auth.ClientToken`.
pub record Secret : Type 0 where
  pub contents : Option Payload
  pub lease_id : String
  pub lease_duration : ℕ
  pub renewable : Bool
  pub client_token : String

-- `vaultClient.Logical()`: a nil `*vault.Secret` is `none`, and so is a nil payload.
pub record Vault (W : Type 0) : Type 0 where
  pub logical_read : String → Action W (Option Secret)
  pub logical_write : String → Option Payload → Action W (Option Secret)
  pub logical_delete : String → Action W (Option Secret)

-- `respErr, ok := err.(*vault.ResponseError)` and a test of the status code.
abbrev pub has_status : (ℕ → Bool) → Error → Bool
has_status test (response code message) = test code
has_status test _ = false

abbrev pub is_404 : ℕ → Bool
is_404 code = code == 404

abbrev pub is_404_or_204 : ℕ → Bool
is_404_or_204 code = code == 404 || code == 204

-- The result of `read` in Go is the map, nil or not, and whether there is a secret.
abbrev pub read_answer : Result (Option Secret) → Result (Option Payload × Bool)
read_answer (err e) = if has_status is_404_or_204 e then ok (none, false) else err e
read_answer panic = panic
read_answer (ok none) = ok (none, false)
read_answer (ok (some secret)) = ok (secret.contents, true)

-- A secret without data counts as not found: the latest version of a KV v2 secret was deleted.
abbrev pub with_data : Option Secret → Option Secret
with_data none = none
with_data (some secret) = elim secret.contents [ none ↦ none | some _ ↦ some secret ]

abbrev pub secret_answer : Result (Option Secret) → Result (Option Secret)
secret_answer (err e) = if has_status is_404 e then ok none else err e
secret_answer panic = panic
secret_answer (ok secret) = ok (with_data secret)

-- The loop that copies a `map[string]string` into a `map[string]interface{}`.
abbrev pub to_interfaces : List (String × String) → Payload
to_interfaces [] = end
to_interfaces ((k, s) ∷ m) = insert k (str s) (to_interfaces m)

module _ {W : Type 0} (v : Vault W) where
  unfoldable pub write_with_response : String → Payload → Action W (Option Secret)
  write_with_response path payload = v.logical_write path (some payload)

  unfoldable pub write : String → Payload → Action W (Unit {0})
  unfolding write_with_response
  write path payload = do _ ← write_with_response path payload; pure tt

  unfoldable pub read : String → Action W (Option Payload × Bool)
  read path = do answer ← try (v.logical_read path); of_result (read_answer answer)

  unfoldable pub read_secret : String → Action W (Option Secret)
  read_secret path = do answer ← try (v.logical_read path); of_result (secret_answer answer)

  unfoldable pub read_secret_with_payload :
      String → List (String × String) → Action W (Option Secret)
  read_secret_with_payload path payload = do
    answer ← try (v.logical_write path (some (to_interfaces payload)))
    of_result (secret_answer answer)
