-- ===== src/Pki/Tests.antt =====
-- A PKI engine over a Vault server in memory.
use vault_config_operator.Common.{String, ◌≡◌, ◌≢◌, true, some, [], ◌∷◌, arith, eq_iff}
use vault_config_operator.Common.Action.{ok}
use vault_config_operator.Payload.{end, field, str}
use vault_config_operator.Endpoint.{Cell}
use vault_config_operator.Pki.{
  VaultPkiEngineObject, create_or_update_config_urls, create_or_update_config_crl,
}
use vault_config_operator.Pki.Config.{config_urls_never_written}
use vault_config_operator.Samples.Memory.{Differ, Store, memory, stored_at, as_is, memory-IsStore}
use vault_config_operator.Samples.Cluster.{Item, vault_items, fresh}

abbrev engines : VaultPkiEngineObject Item Store
engines = record {
  get_generate_path = λ i. "pki/root/generate/internal";
  get_delete_path = λ i. "pki/root";
  get_generated_status = λ i. true;
  set_generated_status = λ b i. i;
  get_config_urls_path = λ i. "pki/config/urls";
  get_config_crl_path = λ i. "pki/config/crl";
  get_config_urls_payload = λ i. field "issuing_certificates" (str "u") end;
  get_config_crl_payload = λ i. field "expiry" (str "72h") end;
  create_exported = λ secret c. (ok true, c);
  set_exported_status = λ b i. i;
  set_intermediate = λ c. (ok tt, c);
  get_signed_status = λ i. true;
  set_signed_status = λ b i. i;
}

abbrev cell : Cell Item Store
cell = record { object = fresh; world = ("pki/config/urls", end) ∷ [] }

abbrev crl_path : String
crl_path = "pki/config/crl"

abbrev urls_path : String
urls_path = "pki/config/urls"

apart : crl_path ≢ urls_path
apart h = ground (arith, eq_iff crl_path urls_path)

config_urls_never_written_example :
    (stored_at
        (create_or_update_config_urls memory vault_items engines cell).1.world
        "pki/config/urls"
      ≡ some end)
    × (stored_at
          (create_or_update_config_crl memory vault_items engines
            (create_or_update_config_urls memory vault_items engines cell).1).1.world
          "pki/config/urls"
        ≡ some end)
config_urls_never_written_example =
    config_urls_never_written memory vault_items engines stored_at as_is Differ memory-IsStore cell
      apart
