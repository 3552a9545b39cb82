-- ===== src/Endpoint/Tests.antt =====
-- Runs of the endpoints over a server in memory, and their theorems at these runs.
use vault_config_operator.Common.{String, ◌≡◌, refl, ◌≢◌, some, ◌∷◌, inr}
use vault_config_operator.Common.Action.{ok}
use vault_config_operator.Payload.{end, field, str, map_equal, deep_equal}
use vault_config_operator.Vault.{read, write}
use vault_config_operator.Endpoint.{Cell, create_or_update, delete_kvv2_if_exists}
use vault_config_operator.Endpoint.Converge.{
  IsReached, create_or_update-IsReached, create_or_update_settles,
}
use vault_config_operator.Endpoint.Delete.{IsGone, delete_kvv2_if_exists-IsGone}
use vault_config_operator.Common.Text.{replace_first}
use vault_config_operator.Samples.Memory.{Differ, Store, memory, stored_at, as_is, memory-IsStore}
use vault_config_operator.Samples.Cluster.{Item, vault_items, fresh, occupied}

abbrev cell : Cell Item Store
cell = record { object = fresh; world = occupied }

abbrev written : Store
written = ("sys/policy/p", field "policy" (str "t") end) ∷ occupied

create_or_update_runs :
    (create_or_update memory vault_items cell ≡ (ok tt, record { object = fresh; world = written }))
    × (create_or_update memory vault_items (record { object = fresh; world = written })
        ≡ (ok tt, record { object = fresh; world = written }))
unfolding create_or_update read write map_equal deep_equal
create_or_update_runs = (refl, refl)

create_or_update-IsReached_example :
    let c' = (create_or_update memory vault_items cell).1 in
    IsReached memory vault_items stored_at as_is Differ memory-IsStore cell c'.world
    × ((q : String) → fresh.path ≢ q → stored_at c'.world q ≡ stored_at occupied q)
    × (c'.object ≡ fresh)
unfolding create_or_update read write map_equal deep_equal
create_or_update-IsReached_example =
    create_or_update-IsReached memory vault_items stored_at as_is Differ memory-IsStore cell refl

create_or_update_settles_example :
    create_or_update memory vault_items (record cell { world = written })
    ≡ (ok tt, record { object = fresh; world = (read memory fresh.path written).1 })
unfolding read write map_equal deep_equal
create_or_update_settles_example =
    create_or_update_settles memory vault_items stored_at as_is Differ memory-IsStore cell written
      refl (inr refl) (some (field "policy" (str "t") end)) refl

abbrev versioned : Cell Item Store
versioned = record cell { object = record fresh { path = "kv/data/app" } }

delete_kvv2_if_exists-IsGone_example :
    IsGone memory stored_at as_is Differ memory-IsStore
      (replace_first "/data/" "/metadata/" "kv/data/app")
      versioned
      (delete_kvv2_if_exists memory vault_items versioned).1
unfolding delete_kvv2_if_exists
delete_kvv2_if_exists-IsGone_example =
    delete_kvv2_if_exists-IsGone memory stored_at as_is Differ memory-IsStore vault_items versioned
      refl
