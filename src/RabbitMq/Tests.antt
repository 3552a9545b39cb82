-- ===== src/RabbitMq/Tests.antt =====
-- A lease of an hour, which is not sent; credentials under either version of the KV engine; a role
-- of two vhosts.
use vault_config_operator.Common.{
  String, ◌≡◌, refl, ◌≢◌, true, false, Option, some, none, List, [], ◌∷◌, All,
}
use vault_config_operator.Common.Int.{pos}
use vault_config_operator.Common.Text.{◌^^◌}
use vault_config_operator.Common.Action.{ok, err, panic, plain, Result}
use vault_config_operator.Payload.{Payload, end, field, str, obj}
use vault_config_operator.Vault.{read_secret}
use vault_config_operator.Endpoint.{Cell, create_or_update_lease}
use vault_config_operator.Database.Retrieval.{Lookups}
use vault_config_operator.RabbitMq.{RabbitMqSecretEngineConfig, leases}
use vault_config_operator.RabbitMq.Lease.{IsUnsent, create_or_update_lease-IsUnsent}
use vault_config_operator.RabbitMq.Retrieval.{
  set_internal_credentials, from_vault_secret, data_at, secret_data,
}
use vault_config_operator.RabbitMq.Retrieved.{set_internal_credentials-IsCalm}
use vault_config_operator.RabbitMq.Controller.{rabbits}
use vault_config_operator.RabbitMq.Webhook.{handle_create, IsApart, handle_create-IsApart}
use vault_config_operator.RabbitMq.Role.{Vhost, VhostPermissions, Topic, Json, role_to_map}
use vault_config_operator.RabbitMq.Overwritten.{role_to_map-last}
use vault_config_operator.Samples.Memory.{
  Differ, Store, memory, stored_at, as_is, memory-IsStore, find_at, answer_of,
}

abbrev lookups : Lookups Store
lookups = record {
  get_random_secret = λ name w. (err (plain "no cluster"), w);
  get_secret = λ name w. (ok (("username", "u") ∷ ("password", "p") ∷ []), w);
}

abbrev rabbit : String → RabbitMqSecretEngineConfig
rabbit path = record {
  metadata_name = "rabbit";
  deleting = false;
  spec = record {
    connection = none;
    authentication = record {
      service_account = none;
      path = "kubernetes";
      role = "r";
      namespace = "";
    };
    path = path;
    rmqse_config = record {
      connection_uri = "https://rabbit";
      username = "";
      verify_connection = true;
      password_policy = "";
      username_template = "";
      lease_ttl = pos 3600;
      lease_max_ttl = pos 7200;
      retrieved_password = "";
      retrieved_username = "";
    };
    root_credentials = record {
      vault_secret = some (record { path = "kv/rabbit" });
      secret = none;
      random_secret = none;
      password_key = "password";
      username_key = "username";
    };
  };
  status = record { conditions = [] };
}

abbrev hourly : Payload → Cell RabbitMqSecretEngineConfig Store
hourly kept = record { object = rabbit "rabbitmq"; world = ("kv/rabbit", kept) ∷ [] }

-- Without values the lease of two zeros is written.
abbrev unleased : Cell RabbitMqSecretEngineConfig Store
unleased = record (hourly end) {
  object = record (rabbit "rabbitmq") {
    spec = record ((rabbit "rabbitmq").spec) {
      rmqse_config = record ((rabbit "rabbitmq").spec.rmqse_config) {
        lease_ttl = pos 0;
        lease_max_ttl = pos 0;
      };
    };
  };
}

create_or_update_lease-IsUnsent_example :
    IsUnsent memory
      (rabbits memory lookups)
      stored_at
      as_is
      Differ
      memory-IsStore
      unleased
      (create_or_update_lease memory (rabbits memory lookups) leases unleased)
create_or_update_lease-IsUnsent_example =
    create_or_update_lease-IsUnsent memory (rabbits memory lookups) stored_at as_is Differ
      memory-IsStore unleased

found-IsCalm : (found : Option Payload) → answer_of found ≢ panic
found-IsCalm none p = cc
found-IsCalm (some d) p = cc

set_internal_credentials-IsCalm_example :
    (set_internal_credentials memory lookups (hourly end)).0 ≢ panic
set_internal_credentials-IsCalm_example =
    set_internal_credentials-IsCalm memory lookups (λ path w. found-IsCalm (find_at path w))
      (λ name w. λ p. cc) (λ name w. λ p. cc) (hourly end)

abbrev login : Payload
login = field "username" (str "u") (field "password" (str "p") end)

abbrev retrieved : Payload → Result (Unit {0}) × String × String
retrieved kept =
    let (r, c) = set_internal_credentials memory lookups (hourly kept) in
    (
      r, c.object.spec.rmqse_config.retrieved_username,
      c.object.spec.rmqse_config.retrieved_password,
    )

retrieved_runs :
    (retrieved login ≡ (ok tt, "u", "p"))
    × (retrieved (field "data" (obj login) end) ≡ (ok tt, "u", "p"))
    × (retrieved (field "data" (str "x") end)
        ≡ (err (plain "vault secret data is not in expected format for KV v2"), "", ""))
    × (retrieved end
        ≡ (err (plain "username key not found or not a string in vault secret"), "", ""))
unfolding set_internal_credentials from_vault_secret data_at secret_data read_secret
retrieved_runs = (refl, refl, refl, refl)

handle_create-IsApart_example : All (IsApart (rabbit "a")) (rabbit "b" ∷ [])
unfolding handle_create
handle_create-IsApart_example = handle_create-IsApart (rabbit "a") (rabbit "b" ∷ []) refl

abbrev names : List (String × VhostPermissions) → String
names [] = ""
names ((name, _) ∷ l) = name ^^ names l

abbrev json : Json
json = record { marshal_vhosts = names; marshal_topics = λ l. "" }

abbrev all : VhostPermissions
all = record { configure = ".*"; write = ".*"; read = ".*" }

abbrev vhost : String → Vhost
vhost name = record { vhost_name = name; permissions = all }

abbrev topic : String → Topic
topic name = record { topic_name = name; permissions = all }

role_to_map-last_example :
    role_to_map json (record {
      tags = "";
      vhosts = vhost "a" ∷ vhost "b" ∷ [];
      vhost_topics = record { vhost_name = "b"; topics = topic "s" ∷ topic "t" ∷ [] } ∷ [];
    })
    ≡ role_to_map json (record {
      tags = "";
      vhosts = vhost "b" ∷ [];
      vhost_topics = record { vhost_name = "b"; topics = topic "t" ∷ [] } ∷ [];
    })
role_to_map-last_example =
    role_to_map-last json "" (vhost "a" ∷ []) (vhost "b") [] "b" (topic "s" ∷ []) (topic "t")
