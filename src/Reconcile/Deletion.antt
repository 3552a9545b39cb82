-- ===== src/Reconcile/Deletion.antt =====
-- Reconciling a resource that is being deleted.
use vault_config_operator.Common.{
  String, ◌≡◌, refl, ap, ◌∙◌, Bool, true, false, ◌&&◌, Option, none, some, List, [], ◌∷◌,
  if◌then◌else◌, any, Bool-cases, inl, inr,
}
use vault_config_operator.Common.Int.{pos}
use vault_config_operator.Common.Action.{Error, Result, ok, err, panic, Action, bind_result}
use vault_config_operator.Payload.{Payload}
use vault_config_operator.Vault.{Vault}
use vault_config_operator.Vault.Store.{IsStore}
use vault_config_operator.Endpoint.{Cell, VaultObject, delete_if_exists}
use vault_config_operator.Endpoint.Delete.{delete_if_exists-object}
use vault_config_operator.Conditions.{Condition, is_success}
use vault_config_operator.Outcome.{
  ends_well, KubeObject, Kube, Outcome, no_error, get_finalizer, wants_finalizer, manage_outcome,
}
use vault_config_operator.Outcome.Api.{IsApi}
use vault_config_operator.Outcome.Recorded.{
  ends_well-error, manage_outcome_failure, get_finalizer-kind,
}
use vault_config_operator.Reconcile.{
  clean_up_loop, manage_clean_up_logic, remove_finalizer, report_removal, without_finalizer,
  reconcile_deleted, reconcile, reconcile_resource, resource_logic,
}
use vault_config_operator.Reconcile.CleanUp.{IsCleaned, manage_clean_up_logic-IsCleaned}

module _ {O W : Type 0} (x : KubeObject O) (v : Vault W) (o : VaultObject O W) where
  bind-object :
      (n : Action (Cell O W) (Unit {0})) (r : Result (Unit {0})) (c c' : Cell O W)
      → ((d : Cell O W) → d.object ≡ c.object → (n d).1.object ≡ c.object)
      → c'.object ≡ c.object
      → (bind_result (λ _. n) r c').1.object ≡ c.object
  bind-object n (ok _) c c' h e = h c' e
  bind-object n (err _) c c' h e = e
  bind-object n panic c c' h e = e

  clean_up_loop-object :
      (cs : List Condition) (c : Cell O W)
      → (clean_up_loop x (delete_if_exists v o) cs c).1.object ≡ c.object
  unfolding clean_up_loop
  clean_up_loop-object [] c = refl
  clean_up_loop-object (d ∷ cs) c = elim (Bool-cases (is_success d)) [
    | inl hit ↦ rw hit (
        bind-object (clean_up_loop x (delete_if_exists v o) cs) (delete_if_exists v o c).0 c
          (delete_if_exists v o c).1 (λ c' e. clean_up_loop-object cs c' ∙ e)
          (delete_if_exists-object v o c))
    | inr miss ↦ rw miss (clean_up_loop-object cs c)
  ]

  manage_clean_up_logic-object :
      (c : Cell O W) → (manage_clean_up_logic x (delete_if_exists v o) c).1.object ≡ c.object
  unfolding manage_clean_up_logic
  manage_clean_up_logic-object c = elim (Bool-cases (wants_finalizer (x.deletable c.object))) [
    | inl wanted ↦ rw wanted (clean_up_loop-object (x.get_conditions c.object) c)
    | inr unwanted ↦ rw unwanted refl
  ]

module _ {O W : Type 0} (x : KubeObject O) (k : Kube O W) (v : Vault W) (o : VaultObject O W)
    (at : W → String → Option Payload) (stored : String → Payload → Payload)
    (apart : String → String → Type 0) (s : IsStore v at stored apart) (a : IsApi x k at) where
  abbrev delete : Action (Cell O W) (Unit {0})
  delete = delete_if_exists v o

  abbrev logic : Action (Cell O W) (Unit {0})
  logic = resource_logic v o

  abbrev is_owned : O → Bool
  is_owned y = wants_finalizer (x.deletable y) && any is_success (x.get_conditions y)

  -- What a deletion that succeeded has reached.
  abbrev pub IsReleased : Cell O W → Cell O W → Type 0
  IsReleased c c' =
      (x.contains_finalizer (get_finalizer x c'.object) c'.object ≡ false)
      × ((q : String) → apart (o.get_path c.object) q → at c'.world q ≡ at c.world q)
      × (at c'.world (o.get_path c.object) ≡ (
          if wants_finalizer (x.deletable c.object) && any is_success (x.get_conditions c.object)
          then none
          else at c.world (o.get_path c.object)))

  not-success :
      (e : Error) (c : Cell O W) (out : Outcome) {A : Type 0}
      → (manage_outcome x k (some e) c).0 ≡ ok out
      → out.error ≡ none
      → A
  unfolding manage_outcome
  not-success e c out h n = absurd ((manage_outcome_failure x k at a e (pos 0) c).0 out h n)

  released :
      (c c' : Cell O W)
      → IsCleaned x v o at stored apart s (is_owned c.object) c c'
      → IsReleased c (k.update (without_finalizer x k delete logic c')).1
  released c c' (same, others, place) =
      let f = get_finalizer x c'.object in
      let d = without_finalizer x k delete logic c' in
      let e : get_finalizer x (k.update d).1.object ≡ f =
        get_finalizer-kind x (k.update d).1.object c'.object
          (a.update_kind d ∙ a.object.kind_remove f c'.object) in
      (
        rw e (a.update_finalizer f d ∙ a.object.finalizer_remove f c'.object),
        λ q ne. a.update_at q d ∙ others q ne,
        a.update_at (o.get_path c.object) d ∙ place,
      )

  removal-IsReleased :
      (c c' : Cell O W) (r : Result (Unit {0})) (d : Cell O W) (out : Outcome)
      → IsReleased c d
      → (report_removal x k delete logic r d).0 ≡ ok out
      → out.error ≡ none
      → IsReleased c (report_removal x k delete logic r d).1
  removal-IsReleased c c' (ok _) d out h e n = h
  removal-IsReleased c c' (err e') d out h e n = not-success e' d out e n
  removal-IsReleased c c' panic d out h e n = cc

  remove_finalizer-IsReleased :
      (c c' : Cell O W) (r : Result (Unit {0})) (out : Outcome)
      → (r ≡ ok tt → IsCleaned x v o at stored apart s (is_owned c.object) c c')
      → (remove_finalizer x k delete logic r c').0 ≡ ok out
      → out.error ≡ none
      → IsReleased c (remove_finalizer x k delete logic r c').1
  remove_finalizer-IsReleased c c' (ok tt) out h e n =
      removal-IsReleased c c' (k.update (without_finalizer x k delete logic c')).0
        (k.update (without_finalizer x k delete logic c')).1 out (released c c' (h refl)) e n
  remove_finalizer-IsReleased c c' (err e') out h e n = not-success e' c' out e n
  remove_finalizer-IsReleased c c' panic out h e n = cc

  -- After a cycle without an error of a resource that is being deleted and holds its finalizer, the
  -- finalizer is gone, and its place in Vault is empty if the resource may be deleted and has a
  -- success among its conditions, and is as it was otherwise. No place apart from it changes.
  pub reconcile_resource-IsReleased :
      (c : Cell O W) (out : Outcome)
      → x.is_deleting c.object ≡ true
      → x.contains_finalizer (get_finalizer x c.object) c.object ≡ true
      → (reconcile_resource x k v o c).0 ≡ ok out
      → out.error ≡ none
      → IsReleased c (reconcile_resource x k v o c).1
  unfolding reconcile_resource reconcile reconcile_deleted
  reconcile_resource-IsReleased c out deleting guarded e n =
      rw (deleting, guarded)
        (remove_finalizer-IsReleased c (manage_clean_up_logic x delete c).1
          (manage_clean_up_logic x delete c).0 out
          (λ h. manage_clean_up_logic-IsCleaned x v o at stored apart s c h)
          (rw (deleting, guarded) at e) n)

  -- If a resource that is being deleted holds its finalizer and its clean-up fails, it keeps the
  -- finalizer and the cycle does not return without an error.
  pub reconcile_resource_keeps_finalizer :
      (c : Cell O W) (issue : Error)
      → x.is_deleting c.object ≡ true
      → x.contains_finalizer (get_finalizer x c.object) c.object ≡ true
      → (manage_clean_up_logic x delete c).0 ≡ err issue
      → (x.contains_finalizer (get_finalizer x c.object) (reconcile_resource x k v o c).1.object
          ≡ true)
        × (ends_well (reconcile_resource x k v o c).0 ≡ false)
  unfolding reconcile_resource reconcile reconcile_deleted manage_outcome
  reconcile_resource_keeps_finalizer c issue deleting guarded failing =
      let c' = (manage_clean_up_logic x delete c).1 in
      let (bad, kept) = manage_outcome_failure x k at a issue (pos 0) c' in
      rw (deleting, guarded, failing)
        (
          kept (get_finalizer x c.object)
              ∙ ap (x.contains_finalizer (get_finalizer x c.object))
                  (manage_clean_up_logic-object x v o c)
              ∙ guarded,
          ends_well-error _ bad,
        )

-- A deleted resource without the finalizer is left alone: no call is made.
pub reconcile_resource_unguarded :
    {O W : Type 0} (x : KubeObject O) (k : Kube O W) (v : Vault W) (o : VaultObject O W)
    (c : Cell O W)
    → x.is_deleting c.object ≡ true
    → x.contains_finalizer (get_finalizer x c.object) c.object ≡ false
    → reconcile_resource x k v o c ≡ (ok no_error, c)
unfolding reconcile_resource reconcile reconcile_deleted
reconcile_resource_unguarded x k v o c deleting unguarded = rw (deleting, unguarded) refl
