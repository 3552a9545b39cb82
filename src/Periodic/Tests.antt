-- ===== src/Periodic/Tests.antt =====
-- An update of the status alone, without drift detection.
use vault_config_operator.Common.{any, ◌&&◌, List, [], ◌∷◌, true, ◌≡◌, refl, false, some, none}
use vault_config_operator.Common.Int.{leb_ℤ, ◌-ℤ◌, pos}
use vault_config_operator.Conditions.{Condition, is_success}
use vault_config_operator.Samples.Cluster.{success}
use vault_config_operator.Periodic.{interval_elapsed, Observed, update, is_drift_detection_enabled}
use vault_config_operator.Periodic.Drift.{update_same_generation, update_generation}

abbrev observed : Observed
observed = record { generation = pos 2; conditions = none }

update_generation_example :
    update (pos 10) (pos 50) (some "yes") (some observed) (some observed) ≡ false
unfolding is_drift_detection_enabled
update_generation_example = update_generation (pos 10) (pos 50) (some "yes") observed observed refl

abbrev settled : Observed
settled = record { generation = pos 2; conditions = some (success ∷ []) }

update_same_generation_example :
    (is_drift_detection_enabled (some "true") ≡ true)
    × ((cs : List Condition) × (some (success ∷ []) ≡ some cs)
        × (any (λ c. is_success c && leb_ℤ (pos 10) (pos 50 -ℤ c.last_transition_time)) cs ≡ true))
unfolding is_drift_detection_enabled update interval_elapsed ◌-ℤ◌
update_same_generation_example =
    update_same_generation (pos 10) (pos 50) (some "true") settled settled refl refl
