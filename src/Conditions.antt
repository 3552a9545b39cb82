-- ===== src/Conditions.antt =====
-- Status conditions: `AddOrReplaceCondition` of api/v1alpha1/utils/commons.go, and the names of
-- controllers/vaultresourcecontroller/utils.go.
pub mod Laws
mod Tests
use vault_config_operator.Common.{
  ℕ, String, Bool, ◌&&◌, Option, none, some, List, [], ◌∷◌, if◌then◌else◌, str_eq,
}
use vault_config_operator.Common.Int.{ℤ}

-- `metav1.Condition`; `kind` is its `Type`, times are in nanoseconds.
pub record Condition : Type 0 where
  pub kind : String
  pub status : String
  pub observed_generation : ℤ
  pub last_transition_time : ℤ
  pub reason : String
  pub message : String

abbrev pub reconcile_successful : String
reconcile_successful = "ReconcileSuccessful"

abbrev pub reconcile_successful_reason : String
reconcile_successful_reason = "LastReconcileCycleSucceded"

abbrev pub reconcile_failed : String
reconcile_failed = "ReconcileFailed"

abbrev pub reconcile_failed_reason : String
reconcile_failed_reason = "LastReconcileCycleFailed"

-- `metav1.ConditionTrue` and `metav1.ConditionFalse`.
abbrev pub condition_true : String
condition_true = "True"

abbrev pub condition_false : String
condition_false = "False"

unfoldable pub add_or_replace_condition : Condition → List Condition → List Condition
add_or_replace_condition c [] = c ∷ []
add_or_replace_condition c (d ∷ conditions) =
    if str_eq c.kind d.kind then c ∷ conditions else d ∷ add_or_replace_condition c conditions

-- The test that the clean-up and the periodic predicate make of each condition.
abbrev pub is_success : Condition → Bool
is_success c = str_eq c.status condition_true && str_eq c.kind reconcile_successful
