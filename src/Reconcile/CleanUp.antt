-- ===== src/Reconcile/CleanUp.antt =====
-- What `manageCleanUpLogic` deletes.
use vault_config_operator.Common.{
  subst, String, ◌≡◌, refl, ap, sym, ◌∙◌, inl, inr, Bool, true, false, ◌&&◌, Option, none, List, [],
  ◌∷◌, if◌then◌else◌, any, Bool-cases,
}
use vault_config_operator.Common.Action.{Result, ok, err, panic, Action, bind_result, ◌>>◌}
use vault_config_operator.Payload.{Payload}
use vault_config_operator.Vault.{Vault}
use vault_config_operator.Vault.Store.{IsStore}
use vault_config_operator.Endpoint.{Cell, VaultObject, delete_if_exists}
use vault_config_operator.Endpoint.Delete.{delete_if_exists-IsGone}
use vault_config_operator.Conditions.{Condition, is_success}
use vault_config_operator.Outcome.{KubeObject, wants_finalizer}
use vault_config_operator.Reconcile.{clean_up_loop, manage_clean_up_logic}

bind_result-ok {ℓ κ} :
    {S : Type 0} {A : Type ℓ} {B : Type κ} (n : Action S B) (r : Result A) (s : S) {b : B}
    → (bind_result (λ _. n) r s).0 ≡ ok b
    → (a : A) × (r ≡ ok a) × ((n s).0 ≡ ok b) × (bind_result (λ _. n) r s ≡ n s)
bind_result-ok n (ok a) s h = (a, refl, h, refl)
bind_result-ok n (err e) s h = cc
bind_result-ok n panic s h = cc

-- In a sequence that succeeded both parts did.
pub >>-ok {ℓ κ} :
    {S : Type 0} {A : Type ℓ} {B : Type κ} (m : Action S A) (n : Action S B) (s : S) {b : B}
    → ((m >> n) s).0 ≡ ok b
    → (a : A) × ((m s).0 ≡ ok a) × ((n (m s).1).0 ≡ ok b) × ((m >> n) s ≡ n (m s).1)
>>-ok m n s h = bind_result-ok n (m s).0 (m s).1 h

module _ {O W : Type 0} (x : KubeObject O) (v : Vault W) (o : VaultObject O W)
    (at : W → String → Option Payload) (stored : String → Payload → Payload)
    (apart : String → String → Type 0) (s : IsStore v at stored apart) where
  abbrev delete : Action (Cell O W) (Unit {0})
  delete = delete_if_exists v o

  -- What a clean-up that succeeded leaves: the object as it was, its place empty where `gone` says
  -- so, and every place apart from it as it was.
  abbrev pub IsCleaned : Bool → Cell O W → Cell O W → Type 0
  IsCleaned gone c c' =
      (c'.object ≡ c.object)
      × ((q : String) → apart (o.get_path c.object) q → at c'.world q ≡ at c.world q)
      × (at c'.world (o.get_path c.object)
          ≡ (if gone then none else at c.world (o.get_path c.object)))

  clean_up_loop_hit :
      (d : Condition) (cs : List Condition)
      → is_success d ≡ true
      → clean_up_loop x delete (d ∷ cs) ≡ (delete >> clean_up_loop x delete cs)
  unfolding clean_up_loop
  clean_up_loop_hit d cs h = rw h refl

  clean_up_loop_miss :
      (d : Condition) (cs : List Condition)
      → is_success d ≡ false
      → clean_up_loop x delete (d ∷ cs) ≡ clean_up_loop x delete cs
  unfolding clean_up_loop
  clean_up_loop_miss d cs h = rw h refl

  after_delete :
      (gone : Bool) (c c' : Cell O W)
      → (delete c).0 ≡ ok tt
      → IsCleaned gone (delete c).1 c'
      → IsCleaned true c c'
  after_delete gone c c' h (same, others, place) =
      let (empty, kept, same') = delete_if_exists-IsGone v at stored apart s o c h in
      let p : o.get_path (delete c).1.object ≡ o.get_path c.object = ap o.get_path same' in
      (
        same ∙ same',
        λ q far. others q (subst (λ r. apart r q) (sym p) far) ∙ kept q far,
        ap (at c'.world) (sym p)
            ∙ place
            ∙ elim gone
                as (λ g.
                  (if g then none else at (delete c).1.world (o.get_path (delete c).1.object))
                  ≡ none) [ true ↦ refl | false ↦ ap (at (delete c).1.world) p ∙ empty ],
      )

  pub clean_up_loop-IsCleaned :
      (cs : List Condition) (c : Cell O W)
      → (clean_up_loop x delete cs c).0 ≡ ok tt
      → IsCleaned (any is_success cs) c (clean_up_loop x delete cs c).1
  clean_up_loop-IsCleaned [] c h = unfold clean_up_loop in (refl, λ q ne. refl, refl)
  clean_up_loop-IsCleaned (d ∷ cs) c h = elim (Bool-cases (is_success d)) [
    | inl hit ↦
        let (_, deleted, rest, e) =
          >>-ok delete (clean_up_loop x delete cs) c (rw (clean_up_loop_hit d cs hit) at h) in
        rw (hit, clean_up_loop_hit d cs hit, e)
          (after_delete (any is_success cs) c (clean_up_loop x delete cs (delete c).1).1 deleted
            (clean_up_loop-IsCleaned cs (delete c).1 rest))
    | inr miss ↦
        rw (miss, clean_up_loop_miss d cs miss)
          (clean_up_loop-IsCleaned cs c (rw (clean_up_loop_miss d cs miss) at h))
  ]

  -- A clean-up that succeeds empties the object's place in Vault exactly when the object may be
  -- deleted and a success is recorded in its conditions; neither the object nor a place
  -- apart from its own changes.
  pub manage_clean_up_logic-IsCleaned :
      (c : Cell O W)
      → (manage_clean_up_logic x delete c).0 ≡ ok tt
      → IsCleaned
          (wants_finalizer (x.deletable c.object) && any is_success (x.get_conditions c.object))
          c
          (manage_clean_up_logic x delete c).1
  unfolding manage_clean_up_logic
  manage_clean_up_logic-IsCleaned c h = elim (Bool-cases (wants_finalizer (x.deletable c.object))) [
    | inl wanted ↦
        rw wanted (clean_up_loop-IsCleaned (x.get_conditions c.object) c (rw wanted at h))
    | inr unwanted ↦ rw unwanted (refl, λ q ne. refl, refl)
  ]
