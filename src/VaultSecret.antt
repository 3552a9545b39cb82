-- ===== src/VaultSecret.antt =====
-- The resource VaultSecret, api/v1alpha1/vaultsecret_types.go, and the endpoint that reads its
-- secrets, api/v1alpha1/utils/vaultsecretobject.go.
pub mod Hash
pub mod Controller
pub mod Lease
pub mod Ownership
pub mod Sync
pub mod Output
pub mod Rendered
mod Tests
use vault_config_operator.Common.{
  String, List, [], Option, none, some, Bool, ℕ, if◌then◌else◌, str_eq,
}
use vault_config_operator.Common.Int.{ℤ}
use vault_config_operator.Common.Action.{Error, plain, Action, fail}
use vault_config_operator.Common.Text.{◌^^◌}
use vault_config_operator.Vault.{Vault, Secret, read_secret, read_secret_with_payload}
use vault_config_operator.Conditions.{Condition}
use vault_config_operator.KubeAuth.{KubeAuthConfiguration, VaultConnection}
use vault_config_operator.Periodic.{OwnerReference}
use vault_config_operator.Resource.{Resource}

-- Go's maps of strings to strings, keys unique, and to bytes.
abbrev pub Strings : Type 0
Strings = List (String × String)

abbrev pub Bytes : Type 0
Bytes = List (String × List ℕ)

pub record VaultSecretDefinition : Type 0 where
  pub name : String
  pub connection : Option VaultConnection
  pub authentication : KubeAuthConfiguration
  pub path : String
  pub request_type : String
  pub request_payload : Strings

pub record VaultSecretDefinitionStatus : Type 0 where
  pub name : String
  pub lease_id : String
  pub lease_duration : ℤ
  pub renewable : Bool

pub record TemplatizedK8sSecret : Type 0 where
  pub name : String
  pub kind : String
  pub string_data : Strings
  pub labels : Strings
  pub annotations : Strings

-- A `*metav1.Duration` and a `*metav1.Time` that are nil are `none`; both count nanoseconds.
pub record VaultSecretSpec : Type 0 where
  pub refresh_period : Option ℤ
  pub refresh_threshold : ℤ
  pub vault_secret_definitions : List VaultSecretDefinition
  pub templatized_k8s_secret : TemplatizedK8sSecret

-- A nil slice of definitions' states is `none`.
pub record VaultSecretStatus : Type 0 where
  pub conditions : List Condition
  pub last_vault_secret_update : Option ℤ
  pub next_vault_secret_update : Option ℤ
  pub vault_secret_definitions_status : Option (List VaultSecretDefinitionStatus)

pub record VaultSecret : Type 0 where
  pub metadata_name : String
  pub namespace : String
  pub uid : String
  pub deleting : Bool
  pub finalizers : List String
  pub spec : VaultSecretSpec
  pub status : VaultSecretStatus

-- A `corev1.Secret`, as far as the controller reads and sets it.
pub record K8sSecret : Type 0 where
  pub name : String
  pub namespace : String
  pub resource_version : String
  pub owner_references : List OwnerReference
  pub annotations : Option Strings
  pub labels : Strings
  pub contents : Bytes
  pub kind : String

abbrev pub k8s_secrets : Resource K8sSecret
k8s_secrets = record {
  get_name = λ s. s.name;
  get_namespace = λ s. s.namespace;
  set_namespace = λ n s. record s { namespace = n };
  get_resource_version = λ s. s.resource_version;
  set_resource_version = λ v s. record s { resource_version = v };
}

-- `isValid` reports no error.
unfoldable pub is_valid : VaultSecret → Option Error
is_valid vs = none

-- `GetSecret` of `VaultSecretEndpoint`, with the methods of `VaultSecretDefinition`.
unfoldable pub get_secret :
    {W : Type 0} → Vault W → VaultSecretDefinition → Action W (Option Secret)
get_secret v d =
    if str_eq d.request_type "GET"
    then read_secret v d.path
    else if str_eq d.request_type "POST"
    then read_secret_with_payload v d.path d.request_payload
    else fail (plain ("unknown request method:" ^^ d.request_type))
