-- ===== src/Kinds/PkiSecretEngineConfig/Tests.antt =====
-- An intermediate authority whose certificate comes from a Secret.
use vault_config_operator.Common.{String, refl, false, none, some, [], ◌∷◌}
use vault_config_operator.Common.Int.{pos}
use vault_config_operator.Common.Action.{ok}
use vault_config_operator.Endpoint.{Cell}
use vault_config_operator.Kinds.PkiSecretEngineConfig.{
  PkiSecretEngineConfig, get_intermediate_set_signed_path, get_intermediate_set_signed_payload,
}
use vault_config_operator.Kinds.PkiSecretEngineConfig.Signing.{Secrets, set_intermediate}
use vault_config_operator.Kinds.PkiSecretEngineConfig.Signed.{
  source, IsInstalled, set_intermediate-IsSigned,
}
use vault_config_operator.Samples.Memory.{Differ, Store, memory, stored_at, as_is, memory-IsStore}

abbrev secrets : Secrets Store
secrets = record {
  create = λ p payload w. (ok tt, w);
  get = λ namespace name w. (ok (("tls.crt", "signed") ∷ []), w);
}

abbrev authority : PkiSecretEngineConfig
authority = record {
  metadata_name = "ca";
  namespace = "team";
  spec = record {
    connection = none;
    authentication = record {
      service_account = none;
      path = "kubernetes";
      role = "r";
      namespace = "";
    };
    path = "pki";
    pki_type = record { kind = "intermediate"; private_key_type = "internal" };
    pki_common = record {
      common_name = "ca";
      alt_names = "";
      ip_sans = "";
      uri_sans = "";
      other_sans = "";
      ttl = pos 0;
      format = "pem";
      private_key_format = "der";
      key_type = "rsa";
      key_bits = pos 2048;
      max_path_length = pos 1;
      exclude_cn_from_sans = false;
      permitted_dns_domains = none;
      ou = "";
      organization = "";
      country = "";
      locality = "";
      province = "";
      street_address = "";
      postal_code = "";
      serial_number = "";
    };
    pki_config = record {
      pki_config_urls = record {
        issuing_certificates = none;
        crl_distribution_points = none;
        ocsp_servers = none;
      };
      pki_config_crl = record { crl_expiry = pos 0; crl_disable = false };
    };
    pki_intermediate = record {
      external_sign_secret = some "signed";
      certificate_key = "tls.crt";
      internal_sign = none;
      csr = "";
      signed_intermediate = "";
    };
  };
  status = record { conditions = []; generated = false; exported = false; signed = false };
}

abbrev cell : Cell PkiSecretEngineConfig Store
cell = record { object = authority; world = [] }

set_intermediate-IsSigned_example :
    (certificate : String) × source memory secrets stored_at as_is Differ memory-IsStore none
      (some "signed")
      cell
      certificate
    × IsInstalled memory secrets stored_at as_is Differ memory-IsStore certificate
        (set_intermediate memory secrets cell).1
unfolding set_intermediate get_intermediate_set_signed_path get_intermediate_set_signed_payload
set_intermediate-IsSigned_example =
    set_intermediate-IsSigned memory secrets stored_at as_is Differ memory-IsStore cell refl refl
