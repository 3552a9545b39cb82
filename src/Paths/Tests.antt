-- ===== src/Paths/Tests.antt =====
-- Runs of `CleansePath`, and its theorems at one path.
use vault_config_operator.Common.{◌≡◌, refl}
use vault_config_operator.Paths.{cleanse_path}
use vault_config_operator.Paths.Laws.{cleanse_path_self, cleanse_path-IsTrimmed, IsTrimmed}

cleanse_path_runs :
    (cleanse_path "/auth//kubernetes/login/" ≡ "auth/kubernetes/login")
    × (cleanse_path "a////b" ≡ "a//b")
    × (cleanse_path (cleanse_path "a////b") ≡ "a/b")
unfolding cleanse_path
cleanse_path_runs = (refl, refl, refl)

cleanse_path-IsTrimmed_example : IsTrimmed (cleanse_path "/a//b/")
cleanse_path-IsTrimmed_example = cleanse_path-IsTrimmed "/a//b/"

cleanse_path_self_example : cleanse_path "sys/policy/p" ≡ "sys/policy/p"
cleanse_path_self_example = cleanse_path_self "sys/policy/p" (refl, refl) refl
