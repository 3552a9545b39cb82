-- ===== src/Endpoint/Delete.antt =====
-- Deleting from Vault: what is gone is gone, and a second delete is no error.
use vault_config_operator.Common.{
  String, ◌≡◌, refl, ap, sym, ◌∙◌, true, Option, none, arith, Bool-cases, inl, inr, if◌then◌else◌,
}
use vault_config_operator.Common.Action.{Error, Result, ok, err, panic}
use vault_config_operator.Common.Text.{replace_first}
use vault_config_operator.Payload.{Payload}
use vault_config_operator.Vault.{Vault, Secret, has_status, is_404}
use vault_config_operator.Vault.Store.{IsStore}
use vault_config_operator.Vault.Calls.{try-of_result}
use vault_config_operator.Endpoint.{
  Cell, VaultObject, delete_answer, delete_at, delete_if_exists, delete_kvv2_if_exists,
}

delete_at_lem :
    {O W : Type 0} (v : Vault W) (p : String) (c : Cell O W)
    → delete_at v p c ≡ (
      delete_answer (v.logical_delete p c.world).0,
      record c { world = (v.logical_delete p c.world).1 },
    )
delete_at_lem v p c =
    try-of_result delete_answer (v.logical_delete p c.world).0
      (record c { world = (v.logical_delete p c.world).1 }) refl

-- A delete changes the world alone, however it ends.
pub delete_if_exists-object :
    {O W : Type 0} (v : Vault W) (o : VaultObject O W) (c : Cell O W)
    → (delete_if_exists v o c).1.object ≡ c.object
unfolding delete_if_exists
delete_if_exists-object v o c = rw delete_at_lem refl

module _ {O W : Type 0} (v : Vault W) (at : W → String → Option Payload)
    (stored : String → Payload → Payload) (apart : String → String → Type 0)
    (s : IsStore v at stored apart) where
  -- What a delete that succeeded leaves behind.
  abbrev pub IsGone : String → Cell O W → Cell O W → Type 0
  IsGone p c c' =
      (at c'.world p ≡ none)
      × ((q : String) → apart p q → at c'.world q ≡ at c.world q)
      × (c'.object ≡ c.object)

  delete_at-IsGone :
      (p : String) (c : Cell O W) → (delete_at v p c).0 ≡ ok tt → IsGone p c (delete_at v p c).1
  delete_at-IsGone p c h = rw delete_at_lem (
    gone (v.logical_delete p c.world).0 (s.delete_removes p c.world) (s.delete_missing p c.world)
        (ap (λ x. x.0) (sym (delete_at_lem v p c)) ∙ h),
    λ q ne. s.delete_keeps p q c.world ne,
    refl,
  )
    where
      gone :
          (r : Result (Option Secret))
          → ((x : Option Secret) → r ≡ ok x → at (v.logical_delete p c.world).1 p ≡ none)
          → ((e : Error)
              → r ≡ err e
              → has_status is_404 e ≡ true
              → at (v.logical_delete p c.world).1 p ≡ none)
          → delete_answer r ≡ ok tt
          → at (v.logical_delete p c.world).1 p ≡ none
      gone (ok x) f g h = f x refl
      gone (err e) f g h = elim (Bool-cases (has_status is_404 e)) [
        | inl missing ↦ g e refl missing
        | inr other ↦ ground arith
      ]
      gone panic f g h = cc

  -- A `DeleteIfExists` that returns no error leaves nothing at the object's place, whether there
  -- was something or not, and no place apart from it changes.
  pub delete_if_exists-IsGone :
      (o : VaultObject O W) (c : Cell O W)
      → (delete_if_exists v o c).0 ≡ ok tt
      → IsGone (o.get_path c.object) c (delete_if_exists v o c).1
  unfolding delete_if_exists
  delete_if_exists-IsGone o c h = delete_at-IsGone (o.get_path c.object) c h

  -- For a KV v2 secret the place is that of its metadata, so that all versions go.
  pub delete_kvv2_if_exists-IsGone :
      (o : VaultObject O W) (c : Cell O W)
      → (delete_kvv2_if_exists v o c).0 ≡ ok tt
      → IsGone
          (replace_first "/data/" "/metadata/" (o.get_path c.object))
          c
          (delete_kvv2_if_exists v o c).1
  unfolding delete_kvv2_if_exists
  delete_kvv2_if_exists-IsGone o c h =
      delete_at-IsGone (replace_first "/data/" "/metadata/" (o.get_path c.object)) c h

-- An object that Vault does not have is deleted without an error.
pub delete_if_exists_missing :
    {O W : Type 0} (v : Vault W) (o : VaultObject O W) (c : Cell O W) (e : Error)
    → (v.logical_delete (o.get_path c.object) c.world).0 ≡ err e
    → (delete_if_exists v o c).0 ≡ (if has_status is_404 e then ok tt else err e)
unfolding delete_if_exists
delete_if_exists_missing v o c e h =
    ap (λ x. x.0) (delete_at_lem v (o.get_path c.object) c) ∙ ap delete_answer h
