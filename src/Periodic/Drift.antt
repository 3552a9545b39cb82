-- ===== src/Periodic/Drift.antt =====
-- When an update that leaves the specification alone is reconciled.
use vault_config_operator.Common.{
  arith, any, ◌&&◌, List, [], ◌∷◌, none, String, ◌≡◌, refl, true, false, Option, some,
  if◌then◌else◌, Bool-cases, inl, inr,
}
use vault_config_operator.Common.Int.{leb_ℤ, ◌-ℤ◌, ℤ, eqb_ℤ}
use vault_config_operator.Conditions.{Condition, is_success}
use vault_config_operator.Periodic.{
  interval_elapsed, elapsed_of, Observed, update, is_drift_detection_enabled,
}

-- A change of the generation is always reconciled; with the same generation and no drift detection
-- no update is.
pub update_generation :
    (interval now : ℤ) (env : Option String) (old new : Observed)
    → is_drift_detection_enabled env ≡ false
    → update interval now env (some old) (some new)
      ≡ (if eqb_ℤ new.generation old.generation then false else true)
unfolding update
update_generation interval now env old new off =
    elim (Bool-cases (eqb_ℤ new.generation old.generation)) [
      | inl same ↦ rw (same, off) refl
      | inr changed ↦ rw changed refl
    ]

interval_elapsed-any :
    (interval now : ℤ) (cs : List Condition)
    → interval_elapsed interval now cs ≡ true
    → any (λ c. is_success c && leb_ℤ interval (now -ℤ c.last_transition_time)) cs ≡ true
unfolding interval_elapsed
interval_elapsed-any interval now [] h = h
interval_elapsed-any interval now (c ∷ cs) h = elim (Bool-cases (is_success c)) [
  | inl success ↦ rw (success, rw success at h) refl
  | inr other ↦ rw other (interval_elapsed-any interval now cs (rw other at h))
]

elapsed_of-any :
    (interval now : ℤ) (conditions : Option (List Condition))
    → elapsed_of interval now conditions ≡ true
    → (cs : List Condition) × (conditions ≡ some cs)
      × (any (λ c. is_success c && leb_ℤ interval (now -ℤ c.last_transition_time)) cs ≡ true)
elapsed_of-any interval now none h = ground arith
elapsed_of-any interval now (some cs) h = (cs, refl, interval_elapsed-any interval now cs h)

-- If an update that leaves the generation as it was is reconciled, drift detection is enabled and
-- the new object has a condition that tells of a success at least an interval ago.
pub update_same_generation :
    (interval now : ℤ) (env : Option String) (old new : Observed)
    → eqb_ℤ new.generation old.generation ≡ true
    → update interval now env (some old) (some new) ≡ true
    → (is_drift_detection_enabled env ≡ true)
      × ((cs : List Condition) × (new.conditions ≡ some cs)
          × (any (λ c. is_success c && leb_ℤ interval (now -ℤ c.last_transition_time)) cs ≡ true))
unfolding update
update_same_generation interval now env old new same h =
    elim (Bool-cases (is_drift_detection_enabled env)) [
      | inl enabled ↦
          (enabled, elapsed_of-any interval now new.conditions (rw (same, enabled) at h))
      | inr off ↦ let never : false ≡ true = rw (same, off) at h in ground arith
    ]
