-- ===== src/Vault/Store.antt =====
-- What the operator relies on of a Vault server, for the paths at which it keeps configuration:
-- a store that is read, written and deleted path by path.
use vault_config_operator.Common.{String, ◌≡◌, true, Option, none, some}
use vault_config_operator.Common.Action.{Error, ok, err}
use vault_config_operator.Payload.{Payload}
use vault_config_operator.Vault.{Vault, Secret, has_status, is_404, is_404_or_204}

-- `at w path` is what is stored in the world `w`; `stored path d` is the form that the server keeps
-- of a payload `d` written there; `apart p q` says that what is done at `p` does not show at `q`, as
-- for two policies of different names, but not for the data and the metadata of one KV version 2
-- secret. Nothing is said of calls that fail, but that a status of 404 or 204 means that nothing is
-- stored.
pub record IsStore {W : Type 0} (v : Vault W) (at : W → String → Option Payload)
    (stored : String → Payload → Payload) (apart : String → String → Type 0) : Type 0 where
  pub read_keeps : (p q : String) (w : W) → at (v.logical_read p w).1 q ≡ at w q
  pub read_found :
      (p : String) (w : W) (s : Secret) → (v.logical_read p w).0 ≡ ok (some s) → at w p ≡ s.contents
  pub read_nothing : (p : String) (w : W) → (v.logical_read p w).0 ≡ ok none → at w p ≡ none
  pub read_missing :
      (p : String) (w : W) (e : Error)
      → (v.logical_read p w).0 ≡ err e
      → has_status is_404_or_204 e ≡ true
      → at w p ≡ none
  pub write_stores :
      (p : String) (d : Payload) (w : W) (s : Option Secret)
      → (v.logical_write p (some d) w).0 ≡ ok s
      → at (v.logical_write p (some d) w).1 p ≡ some (stored p d)
  pub write_keeps :
      (p q : String) (d : Payload) (w : W)
      → apart p q
      → at (v.logical_write p (some d) w).1 q ≡ at w q
  pub delete_removes :
      (p : String) (w : W) (s : Option Secret)
      → (v.logical_delete p w).0 ≡ ok s
      → at (v.logical_delete p w).1 p ≡ none
  pub delete_missing :
      (p : String) (w : W) (e : Error)
      → (v.logical_delete p w).0 ≡ err e
      → has_status is_404 e ≡ true
      → at (v.logical_delete p w).1 p ≡ none
  pub delete_keeps : (p q : String) (w : W) → apart p q → at (v.logical_delete p w).1 q ≡ at w q
