-- ===== src/Vault/Calls.antt =====
-- `read` and `write` as the store sees them.
use vault_config_operator.Common.{
  String, ◌≡◌, refl, ◌∙◌, sym, Bool, true, Option, none, some, arith, Bool-cases, inl, inr,
}
use vault_config_operator.Common.Action.{
  Error, Result, ok, err, panic, try_result, bind_result, of_result,
}
use vault_config_operator.Payload.{Payload}
use vault_config_operator.Vault.{Vault, Secret, read, write, read_answer, has_status, is_404_or_204}
use vault_config_operator.Vault.Store.{IsStore}

-- A caller that inspects the error of a call sees the call's result.
pub try-of_result {ℓ κ} :
    {S : Type 0} {A : Type ℓ} {B : Type κ} (f : Result A → Result B) (r : Result A) (s : S)
    → f panic ≡ panic
    → bind_result (λ answer. of_result (f answer)) (try_result r) s ≡ (f r, s)
try-of_result f (ok a) s h = refl
try-of_result f (err e) s h = refl
try-of_result f panic s h = λ i. (sym h i, s)

-- The result of a call whose value is dropped.
abbrev pub done : Result (Option Secret) → Result (Unit {0})
done (ok _) = ok tt
done (err e) = err e
done panic = panic

bind-done :
    {S : Type 0} (r : Result (Option Secret)) (s : S)
    → bind_result {0, 0} {B = Unit {0}} (λ _ s. (ok tt, s)) r s ≡ (done r, s)
bind-done (ok _) s = refl
bind-done (err e) s = refl
bind-done panic s = refl

done-ok : (r : Result (Option Secret)) → done r ≡ ok tt → (s : Option Secret) × (r ≡ ok s)
done-ok (ok s) h = (s, refl)
done-ok (err e) h = cc
done-ok panic h = cc

module _ {W : Type 0} (v : Vault W) where
  pub read_lem :
      (p : String) (w : W)
      → read v p w ≡ (read_answer (v.logical_read p w).0, (v.logical_read p w).1)
  unfolding read
  read_lem p w = try-of_result read_answer (v.logical_read p w).0 (v.logical_read p w).1 refl

  pub write_lem :
      (p : String) (d : Payload) (w : W)
      → write v p d w ≡ (done (v.logical_write p (some d) w).0, (v.logical_write p (some d) w).1)
  unfolding write
  write_lem p d w = bind-done (v.logical_write p (some d) w).0 (v.logical_write p (some d) w).1

  module _ (at : W → String → Option Payload) (stored : String → Payload → Payload)
      (apart : String → String → Type 0) (store : IsStore v at stored apart) where
    pub read-keeps : (p q : String) (w : W) → at (read v p w).1 q ≡ at w q
    read-keeps p q w = rw read_lem (store.read_keeps p q w)

    -- What a `read` that succeeds tells of the store.
    pub read-at :
        (p : String) (w : W) (d : Option Payload) (found : Bool)
        → (read v p w).0 ≡ ok (d, found)
        → at w p ≡ d
    read-at p w d found h =
        go (v.logical_read p w).0 (store.read_found p w) (store.read_nothing p w)
          (store.read_missing p w) (rw read_lem at h)
      where
        go :
            (r : Result (Option Secret))
            → ((s : Secret) → r ≡ ok (some s) → at w p ≡ s.contents)
            → (r ≡ ok none → at w p ≡ none)
            → ((e : Error) → r ≡ err e → has_status is_404_or_204 e ≡ true → at w p ≡ none)
            → read_answer r ≡ ok (d, found)
            → at w p ≡ d
        go (ok (some s)) f n m h = f s refl ∙ cc
        go (ok none) f n m h = n refl ∙ cc
        go (err e) f n m h = elim (Bool-cases (has_status is_404_or_204 e)) [
          | inl missing ↦ m e refl missing ∙ ground arith
          | inr other ↦ ground arith
        ]
        go panic f n m h = cc

    pub write-stores :
        (p : String) (d : Payload) (w : W)
        → (write v p d w).0 ≡ ok tt
        → at (write v p d w).1 p ≡ some (stored p d)
    write-stores p d w h =
        let (s, written) = done-ok (v.logical_write p (some d) w).0 (rw write_lem at h) in
        rw write_lem (store.write_stores p d w s written)

    pub write-keeps :
        (p q : String) (d : Payload) (w : W) → apart p q → at (write v p d w).1 q ≡ at w q
    write-keeps p q d w h = rw write_lem (store.write_keeps p q d w h)
