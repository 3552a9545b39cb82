-- ===== src/Resource/Tests.antt =====
-- Secrets of an API server in memory.
use mathlib.Core.Option.{some-injective}
use vault_config_operator.Common.{◌≡◌, subst, refl, some, List, [], ◌∷◌}
use vault_config_operator.Periodic.{OwnerReference}
use vault_config_operator.Resource.{create_or_update_resource}
use vault_config_operator.Resource.Applied.{
  IsMetadata, IsApplied, create_or_update_resource-IsApplied,
}
use vault_config_operator.VaultSecret.{K8sSecret, Bytes, k8s_secrets}
use vault_config_operator.Samples.Outputs.{
  held, numbered, IsApart, api_server, api_server-IsServer, stray, stray_world,
}

-- The owner references and the data of a secret.
abbrev seen : K8sSecret → List OwnerReference × Bytes
seen s = (s.owner_references, s.contents)

abbrev set_owner : K8sSecret → K8sSecret
set_owner s = record s {
  owner_references = record { name = "app"; uid = "1"; kind = "VaultSecret" } ∷ [];
}

metadata : IsMetadata k8s_secrets seen numbered (some set_owner)
metadata = record {
  namespace_set = λ n o. refl;
  name_set = λ n o. refl;
  view_set = λ n o. refl;
  view_stored = λ o. refl;
  owner_name = λ f o e. subst (λ g. (g o).name ≡ o.name) (some-injective set_owner f e) refl;
  owner_namespace =
      λ f o e. subst (λ g. (g o).namespace ≡ o.namespace) (some-injective set_owner f e) refl;
}

create_or_update_resource-IsApplied_example :
    IsApplied k8s_secrets api_server held numbered IsApart api_server-IsServer seen
      (some set_owner)
      "other"
      stray
      stray_world
      (create_or_update_resource k8s_secrets api_server
        (some set_owner)
        "other"
        stray
        stray_world).1
unfolding create_or_update_resource
create_or_update_resource-IsApplied_example =
    create_or_update_resource-IsApplied k8s_secrets api_server held numbered IsApart
      api_server-IsServer seen (some set_owner) "other" stray stray_world metadata refl
