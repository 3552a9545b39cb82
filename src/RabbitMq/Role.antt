-- ===== src/RabbitMq/Role.antt =====
-- The resource RabbitMQSecretEngineRole: api/v1alpha1/rabbitmqsecretenginerole_types.go. The
-- encoding of a map as JSON is a parameter.
use vault_config_operator.Common.{String, Bool, not, List, [], ◌∷◌, Option, if◌then◌else◌, str_eq}
use vault_config_operator.Common.Text.{◌^^◌}
use vault_config_operator.Paths.{cleanse_path}
use vault_config_operator.Payload.{Payload, end, field, str, map_equal}
use vault_config_operator.Conditions.{Condition}
use vault_config_operator.KubeAuth.{KubeAuthConfiguration, VaultConnection}

pub record VhostPermissions : Type 0 where
  pub configure : String
  pub write : String
  pub read : String

pub record Vhost : Type 0 where
  pub vhost_name : String
  pub permissions : VhostPermissions

pub record Topic : Type 0 where
  pub topic_name : String
  pub permissions : VhostPermissions

pub record VhostTopic : Type 0 where
  pub vhost_name : String
  pub topics : List Topic

pub record RmqseRole : Type 0 where
  pub tags : String
  pub vhosts : List Vhost
  pub vhost_topics : List VhostTopic

pub record RabbitMqSecretEngineRoleSpec : Type 0 where
  pub connection : Option VaultConnection
  pub authentication : KubeAuthConfiguration
  pub path : String
  pub rmqse_role : RmqseRole
  pub name : String

pub record RabbitMqSecretEngineRoleStatus : Type 0 where
  pub conditions : List Condition

pub record RabbitMqSecretEngineRole : Type 0 where
  pub metadata_name : String
  pub spec : RabbitMqSecretEngineRoleSpec
  pub status : RabbitMqSecretEngineRoleStatus

-- `map[string]interface{}` with permissions, and with maps of permissions, as its values.
abbrev pub Permissions : Type 0
Permissions = List (String × VhostPermissions)

abbrev pub TopicPermissions : Type 0
TopicPermissions = List (String × Permissions)

-- `json.Marshal` of either, which does not fail on texts.
pub record Json : Type 0 where
  pub marshal_vhosts : Permissions → String
  pub marshal_topics : TopicPermissions → String

-- The loop of `convertVhostsToJson`, in which each vhost makes a new map.
unfoldable pub collect_vhosts : Permissions → List Vhost → Permissions
collect_vhosts vhost_data [] = vhost_data
collect_vhosts vhost_data (vhost ∷ vhosts) =
    collect_vhosts ((vhost.vhost_name, vhost.permissions) ∷ []) vhosts

-- The inner loop of `convertTopicsToJson`; `topic_data` stands outside of both loops.
unfoldable pub collect_topics : Permissions → List Topic → Permissions
collect_topics topic_data [] = topic_data
collect_topics topic_data (topic ∷ topics) =
    collect_topics ((topic.topic_name, topic.permissions) ∷ []) topics

unfoldable pub collect_vhost_topics :
    Permissions → TopicPermissions → List VhostTopic → TopicPermissions
collect_vhost_topics topic_data vhost_data [] = vhost_data
collect_vhost_topics topic_data vhost_data (vhost ∷ vhosts) =
    let next = collect_topics topic_data vhost.topics in
    collect_vhost_topics next ((vhost.vhost_name, next) ∷ []) vhosts

module _ (j : Json) where
  unfoldable pub convert_vhosts_to_json : List Vhost → String
  convert_vhosts_to_json vhosts = j.marshal_vhosts (collect_vhosts [] vhosts)

  unfoldable pub convert_topics_to_json : List VhostTopic → String
  convert_topics_to_json vhosts = j.marshal_topics (collect_vhost_topics [] [] vhosts)

  unfoldable pub role_to_map : RmqseRole → Payload
  role_to_map fields = field "tags" (str fields.tags) (
      field "vhosts" (str (convert_vhosts_to_json fields.vhosts))
        (field "vhost_topics" (str (convert_topics_to_json fields.vhost_topics)) end))

  unfoldable pub get_payload : RabbitMqSecretEngineRole → Payload
  get_payload rabbit_mq = role_to_map rabbit_mq.spec.rmqse_role

  unfoldable pub is_equivalent_to_desired_state : RabbitMqSecretEngineRole → Option Payload → Bool
  is_equivalent_to_desired_state rabbit_mq payload =
      map_equal (role_to_map rabbit_mq.spec.rmqse_role) payload

unfoldable pub get_path : RabbitMqSecretEngineRole → String
get_path d =
    if not (str_eq d.spec.name "")
    then cleanse_path (d.spec.path ^^ "/" ^^ "roles" ^^ "/" ^^ d.spec.name)
    else cleanse_path (d.spec.path ^^ "/" ^^ "roles" ^^ "/" ^^ d.metadata_name)
