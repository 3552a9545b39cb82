-- ===== src/Kinds/Tests.antt =====
-- A role for GitHub tokens over a Vault server in memory that holds what was written before.
use vault_config_operator.Common.{◌≡◌, refl, none, [], ◌∷◌}
use vault_config_operator.Common.Int.{pos}
use vault_config_operator.Common.Action.{pure}
use vault_config_operator.Paths.{cleanse_path}
use vault_config_operator.Common.Text.{replace_from}
use vault_config_operator.Payload.{Payload, end, field, number}
use vault_config_operator.Vault.{read, write}
use vault_config_operator.Endpoint.{Cell, in_world, create_or_update}
use vault_config_operator.Kinds.GitHubSecretEngineRole
use vault_config_operator.Kinds.GitHubSecretEngineRole.{GitHubSecretEngineRole}
use vault_config_operator.Kinds.Drift.{
  TypedResource, git_hub_secret_engine_role, path_of, payload_of, typed_objects,
  create_or_update_typed_again,
}
use vault_config_operator.Samples.Memory.{Store, memory}

abbrev role : GitHubSecretEngineRole
role = record {
  metadata_name = "r";
  spec = record {
    connection = none;
    authentication = record {
      service_account = none;
      path = "kubernetes";
      role = "r";
      namespace = "";
    };
    path = "github";
    permission_set = record {
      installation_id = pos 1;
      organization_name = "o";
      repositories = none;
      repositories_ids = none;
      permissions = none;
    };
    name = "";
  };
  status = record { conditions = [] };
}

abbrev answered : Payload
answered = field "installation_id" (number "1") end

abbrev cell : Cell TypedResource Store
cell = record {
  object = git_hub_secret_engine_role role;
  world = ("github/permissionset/r", answered) ∷ [];
}

create_or_update_typed_again_example :
    create_or_update memory (typed_objects (pure tt) (pure tt)) cell
    ≡ in_world (write memory (path_of cell.object) (payload_of cell.object)) cell
unfolding read cleanse_path replace_from path_of GitHubSecretEngineRole.get_path
create_or_update_typed_again_example =
    create_or_update_typed_again memory (pure tt) (pure tt) cell answered refl (tt, tt)
