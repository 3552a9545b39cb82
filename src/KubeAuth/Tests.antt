-- ===== src/KubeAuth/Tests.antt =====
-- A client that was logged in to one server and is handed out for another one.
use vault_config_operator.Common.{true, ◌≡◌, refl, String, [], ◌∷◌, some, none}
use vault_config_operator.Common.Action.{ok}
use vault_config_operator.Vault.{Secret}
use vault_config_operator.KubeAuth.{
  KubeAuthConfiguration, VaultConnection, Platform, Session, get_vault_client, get_cache_key,
  log_in, get_jwt_token, create_vault_client, cache_put,
}
use vault_config_operator.KubeAuth.Cache.{get_vault_client_uncached, get_vault_client-log_in}

-- The world is the value of the variable; a client is the address that it was made for.
abbrev login : Secret
login = record {
  contents = none;
  lease_id = "";
  lease_duration = 0;
  renewable = true;
  client_token = "s.1";
}

abbrev platform : Platform String String String
platform = record {
  lookup_env = λ name w. some w;
  create_token = λ account ns seconds w. (ok "jwt", w);
  default_config = "http://vault";
  configure = λ connection ns w. (ok connection.address, w);
  new_client = λ config w. (ok config, w);
  set_namespace = λ ns client. client;
  set_token = λ token client. client;
  client_write = λ client path payload w. (ok (some login), w);
  lookup_self = λ client w. (ok tt, w);
}

abbrev account : KubeAuthConfiguration
account = record { service_account = some "sa"; path = "kubernetes"; role = "r"; namespace = "" }

abbrev other_server : VaultConnection
other_server = record {
  tls_config = none;
  address = "https://other";
  time_out = none;
  max_retries = none;
}

abbrev session : Session String String
session = record { cache = ("ns:sa:kubernetes:r:", "http://vault") ∷ []; world = "true" }

get_vault_client_uncached_example :
    get_vault_client platform account (some other_server) "ns" (record session { world = "no" })
    ≡ log_in platform account (some other_server) "ns" (record session { world = "no" })
get_vault_client_uncached_example =
    get_vault_client_uncached platform account (some other_server) "ns"
      (record session { world = "no" }) refl

abbrev switched_on : Platform String String String
switched_on = record platform { lookup_env = λ name w. some "true" }

get_vault_client-log_in_example :
    (get_vault_client switched_on account none "ns"
      (log_in switched_on account (some other_server) "ns" (record { cache = []; world = "" })).1).0
    ≡ ok "https://other"
unfolding log_in get_jwt_token create_vault_client cache_put get_cache_key
get_vault_client-log_in_example =
    get_vault_client-log_in switched_on account (some other_server) none "ns" "https://other"
      (record { cache = []; world = "" }) (λ w. refl) refl refl
