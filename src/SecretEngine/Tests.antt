-- ===== src/SecretEngine/Tests.antt =====
-- A mount whose configuration is in Vault just as it is wanted.
use vault_config_operator.Common.{false, none, [], ◌∷◌}
use vault_config_operator.Payload.{Payload, end, field, str, bool}
use vault_config_operator.Endpoint.{Cell}
use vault_config_operator.SecretEngine.{MountConfig, SecretEngineMount}
use vault_config_operator.Samples.Memory.{Store}

abbrev config : MountConfig
config = record {
  default_lease_ttl = "1h";
  max_lease_ttl = "2h";
  force_no_cache = false;
  audit_non_hmac_request_keys = none;
  audit_non_hmac_response_keys = none;
  listing_visibility = "hidden";
  passthrough_request_headers = none;
  allowed_response_headers = none;
}

abbrev mount : SecretEngineMount
mount = record {
  metadata_name = "kv";
  spec = record {
    connection = none;
    authentication = record {
      service_account = none;
      path = "kubernetes";
      role = "r";
      namespace = "";
    };
    mount = record {
      kind = "kv";
      description = "";
      config = config;
      is_local = false;
      seal_wrap = false;
      external_entropy_access = false;
      options = none;
    };
    path = "team";
    name = "";
  };
  status = record { conditions = []; accessor = "" };
}

abbrev tuned : Payload
tuned = field "default_lease_ttl" (str "1h") (field "force_no_cache" (bool false) end)

abbrev cell : Cell SecretEngineMount Store
cell = record { object = mount; world = ("sys/mounts/team/kv/tune", tuned) ∷ [] }
