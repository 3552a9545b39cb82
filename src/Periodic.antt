-- ===== src/Periodic.antt =====
-- Which updates of an object are reconciled: `PeriodicReconcilePredicate` and `IsOwner` of
-- controllers/vaultresourcecontroller/utils.go.
pub mod Drift
mod Tests
use vault_config_operator.Common.{
  String, Bool, true, false, not, ◌&&◌, List, [], ◌∷◌, Option, none, some, if◌then◌else◌, str_eq,
}
use vault_config_operator.Common.Int.{ℤ, eqb_ℤ, leb_ℤ, ◌-ℤ◌}
use vault_config_operator.Conditions.{Condition, is_success}

-- An object as the predicate sees it: `conditions` is `none` for what is not `ConditionsAware`.
pub record Observed : Type 0 where
  pub generation : ℤ
  pub conditions : Option (List Condition)

-- The variable ENABLE_DRIFT_DETECTION, `none` where it is not set.
unfoldable pub is_drift_detection_enabled : Option String → Bool
is_drift_detection_enabled none = false
is_drift_detection_enabled (some enable_drift) = str_eq enable_drift "true"

-- The loop over the conditions, which ends at the first success.
unfoldable pub interval_elapsed : ℤ → ℤ → List Condition → Bool
interval_elapsed interval now [] = false
interval_elapsed interval now (condition ∷ conditions) =
    if is_success condition
    then leb_ℤ interval (now -ℤ condition.last_transition_time)
    else interval_elapsed interval now conditions

abbrev pub elapsed_of : ℤ → ℤ → Option (List Condition) → Bool
elapsed_of interval now none = false
elapsed_of interval now (some conditions) = interval_elapsed interval now conditions

-- `PeriodicReconcilePredicate.Update`, with the interval, the clock and the environment.
unfoldable pub update : ℤ → ℤ → Option String → Option Observed → Option Observed → Bool
update interval now env none new = false
update interval now env (some old) none = false
update interval now env (some old) (some new) =
    if not (eqb_ℤ new.generation old.generation)
    then true
    else if not (is_drift_detection_enabled env)
    then false
    else elapsed_of interval now new.conditions

pub record OwnerReference : Type 0 where
  pub name : String
  pub uid : String
  pub kind : String

unfoldable pub is_owner : String → String → String → List OwnerReference → Bool
is_owner name uid kind [] = false
is_owner name uid kind (owner_ref ∷ refs) =
    if str_eq owner_ref.name name && (str_eq owner_ref.uid uid && str_eq owner_ref.kind kind)
    then true
    else is_owner name uid kind refs
