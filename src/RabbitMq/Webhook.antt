-- ===== src/RabbitMq/Webhook.antt =====
-- The validating webhook of RabbitMQSecretEngineConfig:
-- api/v1alpha1/rabbitmqsecretengineconfig_webhook.go.
use vault_config_operator.Common.{
  ◌≡◌, refl, Bool, true, false, not, ◌&&◌, List, [], ◌∷◌, Option, none, some, if◌then◌else◌, str_eq,
  All,
}
use vault_config_operator.Common.Text.{◌^^◌}
use vault_config_operator.Common.Action.{Error, plain}
use vault_config_operator.RabbitMq.{RabbitMqSecretEngineConfig}

abbrev pub same_path : RabbitMqSecretEngineConfig → RabbitMqSecretEngineConfig → Bool
same_path new config = str_eq config.spec.path new.spec.path

abbrev pub same_namespace : RabbitMqSecretEngineConfig → RabbitMqSecretEngineConfig → Bool
same_namespace new config =
    str_eq new.spec.authentication.namespace config.spec.authentication.namespace

-- The creation of an object beside those that there are: none where it is admitted.
unfoldable pub handle_create :
    RabbitMqSecretEngineConfig → List RabbitMqSecretEngineConfig → Option Error
handle_create new [] = none
handle_create new (config ∷ items) =
    let rest = handle_create new items in
    if not (str_eq new.spec.authentication.namespace "")
    then (if same_namespace new config && same_path new config
        then some (
            plain (
              "rabbitMQ engine already configured at spec.path in Vault Namespace "
              ^^ new.spec.authentication.namespace))
        else rest)
    else if same_path new config
    then some (plain "rabbitMQ engine already configured at spec.path")
    else rest

-- An update, the new object first.
unfoldable pub handle_update :
    RabbitMqSecretEngineConfig → RabbitMqSecretEngineConfig → Option Error
handle_update new old =
    if not (str_eq new.spec.path old.spec.path)
    then some (plain "spec.path cannot be updated")
    else none

-- The two do not configure one engine of one Vault namespace.
abbrev pub IsApart : RabbitMqSecretEngineConfig → RabbitMqSecretEngineConfig → Type 0
IsApart new config = (same_namespace new config && same_path new config) ≡ false

passed :
    (a n p : Bool) (e f : Error) (rest : Option Error)
    → (if not a then (if n && p then some e else rest) else if p then some f else rest) ≡ none
    → ((n && p) ≡ false) × (rest ≡ none)
passed true true true e f rest h = cc
passed true true false e f rest h = (refl, h)
passed true false true e f rest h = cc
passed true false false e f rest h = (refl, h)
passed false true true e f rest h = cc
passed false true false e f rest h = (refl, h)
passed false false p e f rest h = (refl, h)

-- If the creation of a configuration is admitted, no other one is of the same engine in the same
-- Vault namespace.
pub handle_create-IsApart :
    (new : RabbitMqSecretEngineConfig) (items : List RabbitMqSecretEngineConfig)
    → handle_create new items ≡ none
    → All (IsApart new) items
unfolding handle_create
handle_create-IsApart new [] h = tt
handle_create-IsApart new (config ∷ items) h =
    let (here, below) =
      passed (str_eq new.spec.authentication.namespace "") (same_namespace new config)
        (same_path new config) _ _ (handle_create new items) h in
    (here, handle_create-IsApart new items below)
