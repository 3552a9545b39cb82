-- ===== src/RabbitMq.antt =====
-- The resource RabbitMQSecretEngineConfig: api/v1alpha1/rabbitmqsecretengineconfig_types.go.
pub mod Lease
pub mod Retrieval
pub mod Retrieved
pub mod Controller
pub mod Webhook
pub mod Role
pub mod Overwritten
mod Tests
use vault_config_operator.Common.{String, Bool, true, false, not, ◌||◌, List, Option, if◌then◌else◌}
use vault_config_operator.Common.Int.{ℤ, pos, eqb_ℤ}
use vault_config_operator.Common.Text.{◌^^◌}
use vault_config_operator.Common.Action.{Error}
use vault_config_operator.Payload.{Payload, end, field, str, bool, int, map_equal}
use vault_config_operator.Conditions.{Condition}
use vault_config_operator.KubeAuth.{KubeAuthConfiguration, VaultConnection}
use vault_config_operator.Credentials.{
  RootCredentialConfig, validate_either_from_vault_secret_or_from_secret_or_from_random_secret,
}
use vault_config_operator.Endpoint.{RabbitMqObject}

pub record RmqseConfig : Type 0 where
  pub connection_uri : String
  pub username : String
  pub verify_connection : Bool
  pub password_policy : String
  pub username_template : String
  pub lease_ttl : ℤ
  pub lease_max_ttl : ℤ
  pub retrieved_password : String
  pub retrieved_username : String

pub record RabbitMqSecretEngineConfigSpec : Type 0 where
  pub connection : Option VaultConnection
  pub authentication : KubeAuthConfiguration
  pub path : String
  pub rmqse_config : RmqseConfig
  pub root_credentials : RootCredentialConfig

pub record RabbitMqSecretEngineConfigStatus : Type 0 where
  pub conditions : List Condition

pub record RabbitMqSecretEngineConfig : Type 0 where
  pub metadata_name : String
  pub deleting : Bool
  pub spec : RabbitMqSecretEngineConfigSpec
  pub status : RabbitMqSecretEngineConfigStatus

unfoldable pub rabbit_mq_to_map : RmqseConfig → Payload
rabbit_mq_to_map fields = field "connection_uri" (str fields.connection_uri) (
    field "verify_connection" (bool fields.verify_connection) (
      field "username" (str fields.retrieved_username) (
        field "password" (str fields.retrieved_password) (
          field "username_template" (str fields.username_template)
            (field "password_policy" (str fields.password_policy) end)))))

unfoldable pub leases_to_map : RmqseConfig → Payload
leases_to_map fields =
    field "ttl" (int fields.lease_ttl) (field "max_ttl" (int fields.lease_max_ttl) end)

unfoldable pub is_valid : RabbitMqSecretEngineConfig → Option Error
is_valid rabbit_mq =
    validate_either_from_vault_secret_or_from_secret_or_from_random_secret
      rabbit_mq.spec.root_credentials

unfoldable pub get_path : RabbitMqSecretEngineConfig → String
get_path rabbit_mq = rabbit_mq.spec.path ^^ "/config/connection"

unfoldable pub get_payload : RabbitMqSecretEngineConfig → Payload
get_payload rabbit_mq = rabbit_mq_to_map rabbit_mq.spec.rmqse_config

unfoldable pub get_lease_payload : RabbitMqSecretEngineConfig → Payload
get_lease_payload rabbit_mq = leases_to_map rabbit_mq.spec.rmqse_config

unfoldable pub get_lease_path : RabbitMqSecretEngineConfig → String
get_lease_path rabbit_mq = rabbit_mq.spec.path ^^ "/config/lease"

unfoldable pub check_ttl_values_provided : RabbitMqSecretEngineConfig → Bool
check_ttl_values_provided rabbit_mq =
    if not (eqb_ℤ rabbit_mq.spec.rmqse_config.lease_ttl (pos 0))
      || not (eqb_ℤ rabbit_mq.spec.rmqse_config.lease_max_ttl (pos 0))
    then true
    else false

-- The comparison is with the lease, and not with the connection.
unfoldable pub is_equivalent_to_desired_state : RabbitMqSecretEngineConfig → Option Payload → Bool
is_equivalent_to_desired_state rabbit_mq payload =
    map_equal (leases_to_map rabbit_mq.spec.rmqse_config) payload

abbrev pub set_username_and_password :
    String → String → RabbitMqSecretEngineConfig → RabbitMqSecretEngineConfig
set_username_and_password username password m = record m {
  spec = record (m.spec) {
    rmqse_config = record (m.spec.rmqse_config) {
      retrieved_username = username;
      retrieved_password = password;
    };
  };
}

abbrev pub leases : RabbitMqObject RabbitMqSecretEngineConfig
leases = record {
  get_lease_path = λ d. get_lease_path d;
  get_lease_payload = λ d. get_lease_payload d;
  check_ttl_values_provided = λ d. check_ttl_values_provided d;
}
