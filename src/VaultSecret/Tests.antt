-- ===== src/VaultSecret/Tests.antt =====
-- VaultSecrets over a Vault server and an API server in memory.
use mathlib.Core.List.Perm
use vault_config_operator.Common.{
  String, ◌≡◌, refl, inl, inr, false, none, some, List, [], ◌∷◌, subst, str_eq-cases,
}
use vault_config_operator.Common.Int.{ℤ, pos, ◌+ℤ◌}
use vault_config_operator.Common.Action.{ok}
use vault_config_operator.Endpoint.{Cell}
use vault_config_operator.Outcome.{ends_well}
use vault_config_operator.KubeAuth.{
  load, get_vault_client, log_in, create_vault_client, get_jwt_token, cache_put, get_cache_key,
  get_service_account_name, get_kube_auth_path,
}
use vault_config_operator.Paths.{cleanse_path}
use vault_config_operator.Periodic.{is_owner}
use vault_config_operator.Resource.{create_or_update_resource, delete_resource_if_exists}
use vault_config_operator.Vault.{read_secret}
use vault_config_operator.VaultSecret.{VaultSecret, VaultSecretDefinitionStatus, Bytes, get_secret}
use vault_config_operator.VaultSecret.Hash.{hash_data}
use vault_config_operator.VaultSecret.Hash.Stable.{hash_data-IsSameMap}
use vault_config_operator.VaultSecret.Lease.{IsLeast, calculate_duration-IsLeast}
use vault_config_operator.VaultSecret.Ownership.{
  place, reconcile_vault_secret-leaves_alone, manage_clean_up_logic-removes,
}
use vault_config_operator.VaultSecret.Output.{manage_sync_logic_settles}
use vault_config_operator.VaultSecret.Rendered.{IsSynced, manage_sync_logic-IsRendered}
use vault_config_operator.VaultSecret.Controller.{
  smallest_lease, leased, calculate_duration, manage_clean_up_logic, should_sync, manage_sync_logic,
  sync_world, read_definition, read_definitions, definition_data, render_all, format_k8s_secret,
  sync_if_needed, reconcile_vault_secret,
}
use vault_config_operator.Samples.Outputs.{
  World, held, numbered, IsApart, references, environment, api_server-IsServer,
  environment-IsCluster, environment-IsApi, hasher, wanted, stray, empty_world, stray_world,
}

runs : Unit {0}
unfolding get_vault_client log_in create_vault_client get_jwt_token cache_put get_cache_key
    get_service_account_name get_kube_auth_path cleanse_path is_owner create_or_update_resource
    delete_resource_if_exists read_secret get_secret smallest_lease leased calculate_duration
    manage_clean_up_logic should_sync manage_sync_logic sync_world read_definition read_definitions
    definition_data render_all format_k8s_secret sync_if_needed
runs = tt

abbrev cell : Cell VaultSecret World
cell = record { object = wanted; world = empty_world }

abbrev occupied : Cell VaultSecret World
occupied = record { object = wanted; world = stray_world }

manage_sync_logic-IsRendered_example :
    (stats : List VaultSecretDefinitionStatus) × IsSynced environment held numbered IsApart
      references environment-IsCluster wanted empty_world stats
      (manage_sync_logic environment cell).1.world
    × ((manage_sync_logic environment cell).1.object ≡ record wanted {
      status = record (wanted.status) {
        last_vault_secret_update = some (pos 100);
        vault_secret_definitions_status = some stats;
      };
    })
unfolding runs
manage_sync_logic-IsRendered_example =
    manage_sync_logic-IsRendered environment held numbered IsApart references environment-IsCluster
      cell refl refl

manage_sync_logic_settles_example :
    (should_sync environment (manage_sync_logic environment cell).1).0 ≡ ok false
unfolding runs ◌+ℤ◌
manage_sync_logic_settles_example =
    manage_sync_logic_settles environment held numbered IsApart references environment-IsCluster
      cell refl refl (inr (pos 100, pos 3600, refl, refl, refl))

reconcile_vault_secret-leaves_alone_example :
    (ends_well (reconcile_vault_secret environment occupied).0 ≡ false)
    × ((n m : String)
        → held (reconcile_vault_secret environment occupied).1.world n m ≡ held stray_world n m)
unfolding runs
reconcile_vault_secret-leaves_alone_example =
    reconcile_vault_secret-leaves_alone environment held numbered IsApart api_server-IsServer
      environment-IsApi occupied stray refl refl refl

manage_clean_up_logic-removes_example :
    (held (manage_clean_up_logic environment occupied).1.world "team" "app-secret" ≡ none)
    × ((n m : String)
        → IsApart (place wanted) (n, m)
        → held (manage_clean_up_logic environment occupied).1.world n m ≡ held stray_world n m)
unfolding runs
manage_clean_up_logic-removes_example =
    manage_clean_up_logic-removes environment held numbered IsApart api_server-IsServer occupied
      refl

abbrev lease_of : String → ℤ → VaultSecretDefinitionStatus
lease_of name seconds = record {
  name = name;
  lease_id = "";
  lease_duration = seconds;
  renewable = false;
}

abbrev stats : List VaultSecretDefinitionStatus
stats = lease_of "a" (pos 3600) ∷ lease_of "b" (pos 60) ∷ []

abbrev read_before : VaultSecret
read_before = record wanted {
  status = record (wanted.status) { vault_secret_definitions_status = some stats };
}

calculate_duration-IsLeast_example :
    (least : VaultSecretDefinitionStatus) × IsLeast least stats × (pos 60 ≡ least.lease_duration)
unfolding runs
calculate_duration-IsLeast_example =
    calculate_duration-IsLeast environment.lease_share read_before (pos 60) stats refl refl refl

abbrev data_map : Bytes
data_map = ("user", 1 ∷ []) ∷ ("password", 2 ∷ []) ∷ []

abbrev swapped : Bytes
swapped = ("password", 2 ∷ []) ∷ ("user", 1 ∷ []) ∷ []

same_bytes : (k : String) → load k data_map ≡ load k swapped
same_bytes k = elim (str_eq-cases "user" k) [
  | inl (p, q) ↦ subst (λ j. load j data_map ≡ load j swapped) q refl
  | inr (p, _) ↦ rw p refl
]

hash_data-IsSameMap_example : hash_data hasher data_map ≡ hash_data hasher swapped
hash_data-IsSameMap_example =
    hash_data-IsSameMap hasher data_map swapped (Perm.swap _ _ _, same_bytes)
