-- ===== src/Policy.antt =====
-- The resource Policy: api/v1alpha1/policy_types.go.
pub mod Stored
pub mod Accessors
pub mod Scan
pub mod Template
pub mod Resolved
mod Tests
use vault_config_operator.Common.{
  String, Bool, true, false, not, List, Option, none, some, if◌then◌else◌, str_eq,
}
use vault_config_operator.Common.Text.{◌^^◌}
use vault_config_operator.Paths.{cleanse_path}
use vault_config_operator.Payload.{Payload, end, field, str, insert, erase, map_equal}
use vault_config_operator.Conditions.{Condition}
use vault_config_operator.KubeAuth.{KubeAuthConfiguration, VaultConnection}

pub record PolicySpec : Type 0 where
  pub connection : Option VaultConnection
  pub policy : String
  pub kind : String
  pub authentication : KubeAuthConfiguration
  pub name : String

pub record PolicyStatus : Type 0 where
  pub conditions : List Condition

pub record Policy : Type 0 where
  pub metadata_name : String
  pub spec : PolicySpec
  pub status : PolicyStatus

abbrev pub name_of : Policy → String
name_of d = if not (str_eq d.spec.name "") then d.spec.name else d.metadata_name

unfoldable pub get_path : Policy → String
get_path d =
    if not (str_eq d.spec.name "")
    then (if not (str_eq d.spec.kind "")
        then cleanse_path ("sys/policies/" ^^ d.spec.kind ^^ "/" ^^ d.spec.name)
        else cleanse_path ("sys/policy/" ^^ d.spec.name))
    else if not (str_eq d.spec.kind "")
    then cleanse_path ("sys/policies/" ^^ d.spec.kind ^^ "/" ^^ d.metadata_name)
    else cleanse_path ("sys/policy/" ^^ d.metadata_name)

unfoldable pub get_payload : Policy → Payload
get_payload d = field "policy" (str d.spec.policy) end

-- The desired state as Vault reports it: without a type, the text is under "rules".
unfoldable pub desired_state : Policy → Payload
desired_state d =
    let named = insert "name" (str (name_of d)) (field "policy" (str d.spec.policy) end) in
    if str_eq d.spec.kind ""
    then erase "policy" (insert "rules" (str d.spec.policy) named)
    else named

unfoldable pub is_equivalent_to_desired_state : Policy → Option Payload → Bool
unfolding desired_state
is_equivalent_to_desired_state d payload = map_equal (desired_state d) payload
