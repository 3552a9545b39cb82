-- ===== src/Outcome/Recorded.antt =====
-- What `ManageOutcome` leaves in the object and what it returns.
use vault_config_operator.Common.{
  String, ◌≡◌, refl, ◌∙◌, ◌≢◌, inl, inr, true, false, Option, none, some, arith, if◌then◌else◌, any,
  Bool-cases, eq_iff,
}
use vault_config_operator.Common.Int.{ℤ}
use vault_config_operator.Common.Action.{Error, Result, ok, err, panic}
use vault_config_operator.Endpoint.{Cell}
use vault_config_operator.Conditions.{is_success, reconcile_successful, reconcile_failed}
use vault_config_operator.Conditions.Laws.{any-is_success-add_or_replace, any-is_success_put}
use vault_config_operator.Outcome.{
  ends_well, KubeObject, Kube, Outcome, get_finalizer, announce, record_condition, ensure_finalizer,
  finish, manage_outcome_with_requeue, wants_finalizer, is_nil, lacks_finalizer,
}
use vault_config_operator.Outcome.Api.{IsApi, IsObject}

failed-ne-successful : reconcile_failed ≢ reconcile_successful
failed-ne-successful h = ground (arith, eq_iff reconcile_failed reconcile_successful)

module _ {O W : Type 0} (x : KubeObject O) (k : Kube O W) (l : IsObject x) where
  -- A success is in the list after it is recorded, and stays in it through any number of failures:
  -- the list holds a success after the cycle if the cycle succeeded or the list held one before.
  pub record_condition-is_success :
      (issue : Option Error) (c : Cell O W)
      → any is_success (x.get_conditions (record_condition x k issue c).1.object)
        ≡ (if is_nil issue then true else any is_success (x.get_conditions c.object))
  unfolding record_condition
  record_condition-is_success none c =
      rw l.conditions_set (any-is_success_put _ (x.get_conditions c.object) refl)
  record_condition-is_success (some e) c =
      rw l.conditions_set
        (any-is_success-add_or_replace _ (x.get_conditions c.object) failed-ne-successful)

pub get_finalizer-kind :
    {O : Type 0} (x : KubeObject O) (o o' : O)
    → x.get_kind o ≡ x.get_kind o'
    → get_finalizer x o ≡ get_finalizer x o'
unfolding get_finalizer
get_finalizer-kind x o o' h = rw h refl

module _ {O W : Type 0} (x : KubeObject O) (k : Kube O W) where
  ensure_finalizer_adds :
      (issue : Option Error) (c : Cell O W)
      → lacks_finalizer x issue c.object ≡ true
      → ensure_finalizer x k issue c
        ≡ k.update (record c { object = x.add_finalizer (get_finalizer x c.object) c.object })
  unfolding ensure_finalizer
  ensure_finalizer_adds issue c h = rw h refl

  ensure_finalizer_skips :
      (issue : Option Error) (c : Cell O W)
      → lacks_finalizer x issue c.object ≡ false
      → ensure_finalizer x k issue c ≡ (ok tt, c)
  unfolding ensure_finalizer
  ensure_finalizer_skips issue c h = rw h refl

module _ {O W P A : Type 0} (x : KubeObject O) (k : Kube O W) (at : W → P → A)
    (a : IsApi x k at) where
  -- The object holds the finalizer of its kind.
  abbrev pub IsGuarded : O → Type 0
  IsGuarded o = x.contains_finalizer (get_finalizer x o) o ≡ true

  ensure_finalizer-IsGuarded :
      (c : Cell O W)
      → wants_finalizer (x.deletable c.object) ≡ true
      → IsGuarded (ensure_finalizer x k none c).1.object
  ensure_finalizer-IsGuarded c h = elim (Bool-cases (lacks_finalizer x none c.object)) [
    | inl lacks ↦ rw (ensure_finalizer_adds x k none c lacks) (
        let f = get_finalizer x c.object in
        let c' : Cell O W = record c { object = x.add_finalizer f c.object } in
        let same : get_finalizer x (k.update c').1.object ≡ f =
          get_finalizer-kind x (k.update c').1.object c.object
            (a.update_kind c' ∙ a.object.kind_add f c.object) in
        rw same (a.update_finalizer f c' ∙ a.object.finalizer_add f c.object))
    | inr has ↦ rw (ensure_finalizer_skips x k none c has) (ground arith)
  ]

  ensure_finalizer-at :
      (issue : Option Error) (c : Cell O W) (p : P)
      → at (ensure_finalizer x k issue c).1.world p ≡ at c.world p
  ensure_finalizer-at issue c p = elim (Bool-cases (lacks_finalizer x issue c.object)) [
    | inl lacks ↦ rw (ensure_finalizer_adds x k issue c lacks) (a.update_at p _)
    | inr has ↦ rw (ensure_finalizer_skips x k issue c has) refl
  ]

  -- The object and the world when the status has been sent.
  abbrev pub sent : Option Error → Cell O W → Cell O W
  sent issue c = (k.status_update (record_condition x k issue c).1).1

  abbrev pub answered : Option Error → Cell O W → Result (Unit {0})
  answered issue c = (k.status_update (record_condition x k issue c).1).0

  manage_outcome_lem :
      (issue : Option Error) (r : ℤ) (c : Cell O W)
      → manage_outcome_with_requeue x k issue r c
        ≡ finish x k issue r (answered issue c) (sent issue c)
  unfolding manage_outcome_with_requeue record_condition
  manage_outcome_lem issue r c = refl

  sent-deletable :
      (issue : Option Error) (c : Cell O W)
      → x.deletable (sent issue c).object ≡ x.deletable c.object
  unfolding record_condition
  sent-deletable issue c = a.status_deletable _ ∙ a.object.deletable_set _ c.object

  sent-finalizer :
      (issue : Option Error) (f : String) (c : Cell O W)
      → x.contains_finalizer f (sent issue c).object ≡ x.contains_finalizer f c.object
  unfolding record_condition
  sent-finalizer issue f c = a.status_finalizer f _ ∙ a.object.finalizer_set f _ c.object

  sent-kind :
      (issue : Option Error) (c : Cell O W) → x.get_kind (sent issue c).object ≡ x.get_kind c.object
  unfolding record_condition
  sent-kind issue c = a.status_kind _ ∙ a.object.kind_set _ c.object

  announce-at :
      (issue : Option Error) (o : O) (w : W) (p : P) → at (announce x k o issue w) p ≡ at w p
  announce-at none o w p = refl
  announce-at (some e) o w p = a.event_at p o (k.error_text e) w

  sent-at : (issue : Option Error) (c : Cell O W) (p : P) → at (sent issue c).world p ≡ at c.world p
  unfolding record_condition
  sent-at issue c p = a.status_at p _ ∙ a.now_at p _ ∙ announce-at issue c.object c.world p

  finish-at :
      (issue : Option Error) (r : ℤ) (u : Result (Unit {0})) (c : Cell O W) (p : P)
      → at (finish x k issue r u c).1.world p ≡ at c.world p
  finish-at issue r (ok _) c p = ensure_finalizer-at issue c p
  finish-at issue r (err e) c p = refl
  finish-at issue r panic c p = refl

  -- Recording an outcome changes nothing at any place that is observed.
  pub manage_outcome-at :
      (issue : Option Error) (r : ℤ) (c : Cell O W) (p : P)
      → at (manage_outcome_with_requeue x k issue r c).1.world p ≡ at c.world p
  manage_outcome-at issue r c p =
      rw manage_outcome_lem
        (finish-at issue r (answered issue c) (sent issue c) p ∙ sent-at issue c p)

  finish_success :
      (r : ℤ) (u : Result (Unit {0})) (c : Cell O W) (out : Outcome)
      → wants_finalizer (x.deletable c.object) ≡ true
      → (finish x k none r u c).0 ≡ ok out
      → out.error ≡ none
      → IsGuarded (finish x k none r u c).1.object
  finish_success r (ok _) c out h e n = ensure_finalizer-IsGuarded c h
  finish_success r (err x) c out h e n = cc
  finish_success r panic c out h e n = cc

  -- If an object may be deleted from Vault, recording its success without an error leaves it with
  -- its finalizer.
  pub manage_outcome-IsGuarded :
      (r : ℤ) (c : Cell O W) (out : Outcome)
      → wants_finalizer (x.deletable c.object) ≡ true
      → (manage_outcome_with_requeue x k none r c).0 ≡ ok out
      → out.error ≡ none
      → IsGuarded (manage_outcome_with_requeue x k none r c).1.object
  manage_outcome-IsGuarded r c out h e n = rw manage_outcome_lem (
      finish_success r (answered none c) (sent none c) out (rw sent-deletable h)
        (rw manage_outcome_lem at e) n)

  finish_failure :
      (issue : Error) (r : ℤ) (u : Result (Unit {0})) (c : Cell O W)
      → ((out : Outcome) → (finish x k (some issue) r u c).0 ≡ ok out → out.error ≢ none)
        × ((finish x k (some issue) r u c).1 ≡ c)
  finish_failure issue r (ok _) c =
      let skips = ensure_finalizer_skips x k (some issue) c (ground arith) in
      rw skips (λ out e n. cc, refl)
  finish_failure issue r (err e') c = (λ out e n. cc, refl)
  finish_failure issue r panic c = (λ out e n. cc, refl)

  pub manage_outcome_failure :
      (issue : Error) (r : ℤ) (c : Cell O W)
      → ((out : Outcome)
          → (manage_outcome_with_requeue x k (some issue) r c).0 ≡ ok out
          → out.error ≢ none)
        × ((f : String)
            → x.contains_finalizer f (manage_outcome_with_requeue x k (some issue) r c).1.object
              ≡ x.contains_finalizer f c.object)
  manage_outcome_failure issue r c = rw manage_outcome_lem (
      let (bad, same) = finish_failure issue r (answered (some issue) c) (sent (some issue) c) in
      (bad, λ f. rw same (sent-finalizer (some issue) f c)))

nil-none : (o : Option Error) → o ≢ none → is_nil o ≡ false
nil-none none h = absurd (h refl)
nil-none (some e) h = refl

pub ends_well-error :
    (r : Result Outcome) → ((out : Outcome) → r ≡ ok out → out.error ≢ none) → ends_well r ≡ false
ends_well-error (ok out) h = nil-none out.error (h out refl)
ends_well-error (err e) h = refl
ends_well-error panic h = refl

-- Recording a failure never returns without an error, and no finalizer comes or goes.
pub manage_outcome-ends_well :
    {O W P A : Type 0} (x : KubeObject O) (k : Kube O W) (at : W → P → A) (a : IsApi x k at)
    (issue : Error) (r : ℤ) (c : Cell O W) (f : String)
    → (ends_well (manage_outcome_with_requeue x k (some issue) r c).0 ≡ false)
      × (x.contains_finalizer f (manage_outcome_with_requeue x k (some issue) r c).1.object
          ≡ x.contains_finalizer f c.object)
manage_outcome-ends_well x k at a issue r c f =
    let (bad, kept) = manage_outcome_failure x k at a issue r c in
    (ends_well-error (manage_outcome_with_requeue x k (some issue) r c).0 bad, kept f)
