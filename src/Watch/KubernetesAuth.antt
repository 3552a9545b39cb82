-- ===== src/Watch/KubernetesAuth.antt =====
-- The watch of controllers/kubernetesauthenginerole_controller.go on namespaces.
use vault_config_operator.Common.{
  String, Bool, List, [], ◌∷◌, Option, none, some, if◌then◌else◌, map,
}
use vault_config_operator.Common.Action.{
  Result, ok, err, panic, Action, pure, of_result, try, ◌>>=◌,
}
use vault_config_operator.Kinds.KubernetesAuthEngineRole.{KubernetesAuthEngineRole}
use vault_config_operator.Kinds.Namespaces.{Namespace, Selectors}
use vault_config_operator.Watch.{Listed, Request, request_of, found_or_none}

abbrev pub Role : Type 0
Role = Listed KubernetesAuthEngineRole

abbrev pub keep_if : Bool → Role → Result (List Role) → Result (List Role)
keep_if matches vr (ok rest) = ok (if matches then vr ∷ rest else rest)
keep_if matches vr (err issue) = err issue
keep_if matches vr panic = panic

module _ {S W : Type 0} (n : Selectors S W) where
  -- Whether a selector that is given matches; one that is no selector ends the search.
  abbrev pub step : Namespace → Role → Result S → Result (List Role) → Result (List Role)
  step namespace vr (ok selector) rest = keep_if (n.is_match selector namespace.labels) vr rest
  step namespace vr (err issue) rest = err issue
  step namespace vr panic rest = panic

  abbrev pub visit : Namespace → Role → Option String → Result (List Role) → Result (List Role)
  visit namespace vr none rest = rest
  visit namespace vr (some text) rest = step namespace vr (n.label_selector_as_selector text) rest

  -- The loop over the roles of all namespaces.
  unfoldable pub find_applicable_roles : Namespace → List Role → Result (List Role)
  find_applicable_roles namespace [] = ok []
  find_applicable_roles namespace (vr ∷ items) =
      visit namespace vr vr.object.spec.target_namespaces.target_namespace_selector
        (find_applicable_roles namespace items)

  abbrev pub found_in : Namespace → Result (List Role) → Result (List Role)
  found_in namespace (ok items) = found_or_none (find_applicable_roles namespace items)
  found_in namespace r = found_or_none r

  unfoldable pub enqueue_for_namespace : Action W (List Role) → Namespace → Action W (List Request)
  enqueue_for_namespace list namespace = do
    answer ← try list
    items ← of_result (found_in namespace answer)
    pure (map request_of items)
