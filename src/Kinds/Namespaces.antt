-- ===== src/Kinds/Namespaces.antt =====
-- The namespaces that a KubernetesAuthEngineRole is bound to:
-- api/v1alpha1/kubernetesauthenginerole_types.go.
use vault_config_operator.Common.{String, Bool, List, [], ◌∷◌, Option, none, some, map}
use vault_config_operator.Common.Action.{Result, Action, pure, of_result, get, modify, ◌>>=◌}
use vault_config_operator.Endpoint.{Cell, in_world}
use vault_config_operator.Kinds.KubernetesAuthEngineRole.{KubernetesAuthEngineRole}

-- A Kubernetes namespace, with its labels.
pub record Namespace : Type 0 where
  pub name : String
  pub labels : List (String × String)

-- `LabelSelectorAsSelector` and `Matches` of the Kubernetes libraries, and a listing of the
-- namespaces by a selector.
pub record Selectors (S W : Type 0) : Type 0 where
  pub label_selector_as_selector : String → Result S
  pub is_match : S → List (String × String) → Bool
  pub list_namespaces : S → Action W (List Namespace)

abbrev pub set_internal_namespaces :
    Option (List String) → KubernetesAuthEngineRole → KubernetesAuthEngineRole
set_internal_namespaces namespaces d = record d {
  spec = record (d.spec) { v_role = record (d.spec.v_role) { namespaces = namespaces } };
}

-- Where no namespace is selected, a name that none has stands for them.
abbrev pub or_no_namespace : List String → List String
or_no_namespace [] = "__no_namespace__" ∷ []
or_no_namespace (name ∷ names) = name ∷ names

module _ {S W : Type 0} (n : Selectors S W) where
  unfoldable pub find_selected_namespace_names : String → Action W (List String)
  find_selected_namespace_names text = do
    selector ← of_result (n.label_selector_as_selector text)
    namespaces ← n.list_namespaces selector
    pure (map (λ namespace. namespace.name) namespaces)

  abbrev pub keep_namespaces :
      Option (List String) → Action (Cell KubernetesAuthEngineRole W) (Unit {0})
  keep_namespaces names = modify (λ c. record c { object = set_internal_namespaces names c.object })

  abbrev pub bind_to :
      Option String → Option (List String) → Action (Cell KubernetesAuthEngineRole W) (Unit {0})
  bind_to none target_namespaces = keep_namespaces target_namespaces
  bind_to (some text) target_namespaces = do
    names ← in_world (find_selected_namespace_names text)
    keep_namespaces (some (or_no_namespace names))

  unfoldable pub prepare_internal_values : Action (Cell KubernetesAuthEngineRole W) (Unit {0})
  prepare_internal_values = do
    c ← get
    bind_to c.object.spec.target_namespaces.target_namespace_selector
        c.object.spec.target_namespaces.target_namespaces
