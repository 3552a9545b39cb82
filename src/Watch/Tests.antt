-- ===== src/Watch/Tests.antt =====
-- Watches over a cluster in memory.
use mathlib.Core.List.{Memᴰ}
use mathlib.Core.List.Memᴰ
use vault_config_operator.Common.{
  String, ◌≡◌, refl, sym, subst, ◌↔◌, Bool, true, false, eq_iff, List, [], ◌∷◌, Option, none, some,
  str_eq, any,
}
use vault_config_operator.Common.Int.{pos}
use vault_config_operator.Common.Action.{ok, Action}
use vault_config_operator.Common.Bind.{ok-inj}
use vault_config_operator.Endpoint.{Cell}
use vault_config_operator.Samples.Memory.{Store, memory}
use vault_config_operator.Samples.Filter.{keep, keep-Memᴰ}
use vault_config_operator.Kinds.GitHubSecretEngineConfig.{GitHubSecretEngineConfig}
use vault_config_operator.Kinds.Namespaces.{
  Namespace, Selectors, prepare_internal_values, find_selected_namespace_names,
}
use vault_config_operator.Kinds.Retrieval.Key.{key_from_secret}
use vault_config_operator.Watch.{
  WatchedSecret, Listed, Request, enqueue, is_secret_update, is_secret_create, find_applicable,
}
use vault_config_operator.Watch.AzureAuth.{basic_auth_secrets}
use vault_config_operator.Watch.GitHub.{ssh_secrets}
use vault_config_operator.Watch.KubernetesAuth.{Role, find_applicable_roles}
use vault_config_operator.Watch.Requests.{IsListing, IsWanted, enqueue-IsWanted}
use vault_config_operator.Watch.Filters.{ArePassed, secret_updates-ArePassed}
use vault_config_operator.Watch.Unwatched.{Ignores, github_key-Ignores}
use vault_config_operator.Watch.Roles.{IsSelecting, find_applicable_roles-IsBound}

-- Of the two entries one changes.
abbrev azure : String → WatchedSecret
azure password = record {
  name = "azure";
  namespace = "ops";
  kind = "Opaque";
  contents = ("clientid", "id") ∷ ("clientsecret", password) ∷ [];
}

secret_updates-ArePassed_example : ArePassed (azure "old") (azure "new")
secret_updates-ArePassed_example = secret_updates-ArePassed (azure "old") (azure "new")

abbrev moved : WatchedSecret
moved = record (azure "new") { contents = ("clientid", "other") ∷ ("clientsecret", "new") ∷ [] }

-- A change of both entries is passed over, and none is passed on.
update_runs :
    (is_secret_update basic_auth_secrets (some (azure "old")) (some moved) ≡ false)
    × (is_secret_update basic_auth_secrets (some moved) (some moved) ≡ true)
    × (is_secret_create basic_auth_secrets (some moved) ≡ true)
unfolding is_secret_update is_secret_create
update_runs = (refl, refl, refl)

abbrev ssh_key : WatchedSecret
ssh_key = record {
  name = "key";
  namespace = "ops";
  kind = "kubernetes.io/ssh-auth";
  contents = ("ssh-privatekey", "pem") ∷ [];
}

abbrev github : Cell GitHubSecretEngineConfig Store
github = record {
  object = record {
    metadata_name = "github";
    spec = record {
      connection = none;
      authentication = record {
        service_account = none;
        path = "kubernetes";
        role = "r";
        namespace = "";
      };
      path = "github";
      gh_config = record {
        application_id = pos 1;
        github_api_base_url = "";
        retrieved_ssh_key = "";
      };
      ssh_key_reference = record { vault_secret = none; secret = some "key" };
    };
    status = record { conditions = [] };
  };
  world = [];
}

github_key-Ignores_example : Ignores ssh_secrets ssh_key ssh_key
unfolding key_from_secret
github_key-Ignores_example =
    github_key-Ignores memory (λ name w. (ok ssh_key, w)) "key" github ssh_key ssh_key refl refl

-- Objects of which only the name of their Secret counts.
abbrev Things : Type 0
Things = List (Listed (Option String))

abbrev is_in : String → Listed (Option String) → Bool
is_in ns x = str_eq x.namespace ns

abbrev list_things : String → Action Things Things
list_things ns w = (ok (keep (is_in ns) w), w)

list_things-IsListing : IsListing list_things (λ w. w)
list_things-IsListing = record {
  is_there = λ ns w items x h m.
      let (there, here) = (keep-Memᴰ (is_in ns) x w).0 (subst (λ l. Memᴰ x l) (sym (ok-inj h)) m) in
      (there, (eq_iff x.namespace ns).0 here);
  is_listed = λ ns w items x h m here.
      subst (λ l. Memᴰ x l) (ok-inj h)
        ((keep-Memᴰ (is_in ns) x w).1 (m, (eq_iff x.namespace ns).1 here));
}

abbrev thing : String → String → Option String → Listed (Option String)
thing name ns secret = record { name = name; namespace = ns; object = secret }

abbrev things : Things
things = thing "a" "ops" (some "s") ∷ thing "b" "ops" (some "t") ∷ thing "c" "dev" (some "s") ∷ []

abbrev request : Request
request = record { name = "a"; namespace = "ops" }

enqueue-IsWanted_example :
    Memᴰ request (request ∷ [])
    ↔ IsWanted list_things (λ w. w) list_things-IsListing (λ o. o) "ops" "s" things request
unfolding enqueue find_applicable
enqueue-IsWanted_example =
    enqueue-IsWanted list_things (λ w. w) list_things-IsListing (λ o. o) "ops" "s" things
      (keep (is_in "ops") things) (request ∷ []) request refl refl

-- A selector is the name of a label.
abbrev matches : String → Namespace → Bool
matches s x = any (λ (k, _). str_eq k s) x.labels

abbrev selectors : Selectors String (List Namespace)
selectors = record {
  label_selector_as_selector = λ text. ok text;
  is_match = λ s labels. any (λ (k, _). str_eq k s) labels;
  list_namespaces = λ s w. (ok (keep (matches s) w), w);
}

selectors-IsSelecting : IsSelecting selectors (λ w. w)
selectors-IsSelecting = record {
  listed_iff = λ s w items x h.
      subst (λ l. Memᴰ x l ↔ (Memᴰ x w × (matches s x ≡ true))) (ok-inj h)
        (keep-Memᴰ (matches s) x w);
}

abbrev shop : Namespace
shop = record { name = "shop"; labels = ("team", "a") ∷ [] }

abbrev role : Role
role = record {
  name = "role";
  namespace = "ops";
  object = record {
    metadata_name = "role";
    spec = record {
      connection = none;
      authentication = record {
        service_account = none;
        path = "kubernetes";
        role = "r";
        namespace = "";
      };
      path = "kubernetes";
      v_role = record {
        target_service_accounts = none;
        audience = none;
        alias_name_source = "";
        token_ttl = pos 0;
        policies = none;
        token_max_ttl = pos 0;
        token_bound_cidrs = none;
        token_explicit_max_ttl = pos 0;
        token_no_default_policy = false;
        token_num_uses = pos 0;
        token_period = pos 0;
        token_type = "";
        namespaces = none;
      };
      target_namespaces = record {
        target_namespace_selector = some "team";
        target_namespaces = none;
      };
      name = "";
    };
    status = record { conditions = [] };
  };
}

find_applicable_roles-IsBound_example : Memᴰ role (role ∷ []) ↔ (
    (names : List String) × ((prepare_internal_values selectors
        (record { object = role.object; world = shop ∷ [] })).1.object.spec.v_role.namespaces
      ≡ some names)
    × Memᴰ "shop" names)
unfolding prepare_internal_values find_applicable_roles find_selected_namespace_names
find_applicable_roles-IsBound_example =
    find_applicable_roles-IsBound selectors (λ w. w) selectors-IsSelecting shop (role ∷ [])
      (role ∷ []) role (shop ∷ []) "team" refl (Memᴰ.head refl) (Memᴰ.head refl)
      (λ other m same. Memᴰ.eq_of_singleton m) (λ p. cc) refl refl
