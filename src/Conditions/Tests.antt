-- ===== src/Conditions/Tests.antt =====
-- A success that replaces an older one.
use vault_config_operator.Common.{◌≡◌, refl, List, [], ◌∷◌, length}
use vault_config_operator.Common.Int.{pos}
use vault_config_operator.Conditions.{Condition, add_or_replace_condition}
use vault_config_operator.Conditions.Laws.{HasUniqueKinds, add_or_replace_condition-HasUniqueKinds}
use vault_config_operator.Samples.Cluster.{success}

abbrev failure : Condition
failure = record success { kind = "ReconcileFailed"; status = "False" }

abbrev later : Condition
later = record success { last_transition_time = pos 9 }

abbrev history : List Condition
history = failure ∷ success ∷ []

add_or_replace_condition-HasUniqueKinds_example :
    HasUniqueKinds (add_or_replace_condition later history)
    × (length (add_or_replace_condition later history) ≡ 2)
add_or_replace_condition-HasUniqueKinds_example =
    add_or_replace_condition-HasUniqueKinds later history (refl, (refl, tt))
