-- ===== src/Kinds/PkiSecretEngineConfig/Signing.antt =====
-- The calls of a PKISecretEngineConfig that go to Vault and to the API server: `CreateExported` and
-- `SetIntermediate` of api/v1alpha1/pkisecretengineconfig_types.go.
use vault_config_operator.Common.{String, Bool, List, Option, none, some, if◌then◌else◌, str_eq}
use vault_config_operator.Common.Action.{
  plain, Result, ok, panic, Action, pure, fail, of_result, get, modify, ◌>>=◌, ◌>>◌,
}
use vault_config_operator.KubeAuth.{load}
use vault_config_operator.Payload.{Payload}
use vault_config_operator.Engine.{as_string, entries_of}
use vault_config_operator.Database.{value_at}
use vault_config_operator.Vault.{Vault, Secret}
use vault_config_operator.Endpoint.{Cell, VaultObject, in_world}
use vault_config_operator.Pki.{VaultPkiEngineObject}
use vault_config_operator.Kinds.PkiSecretEngineConfig.{
  PkiSecretEngineConfig, get_path, get_payload, is_equivalent_to_desired_state, get_generate_path,
  get_delete_path, get_config_urls_path, get_config_crl_path, get_config_urls_payload,
  get_config_crl_payload, get_signed_status, get_exported_payload, get_sign_intermediate_path,
  get_sign_intermediate_payload, get_intermediate_set_signed_path,
  get_intermediate_set_signed_payload,
}

-- `kubeClient`: the creation of the Secret of an object, with its name, namespace, label and owner,
-- and the data of a Secret, by namespace and name.
pub record Secrets (W : Type 0) : Type 0 where
  pub create : PkiSecretEngineConfig → List (String × String) → Action W (Unit {0})
  pub get : String → String → Action W (List (String × String))

abbrev pub is_intermediate : PkiSecretEngineConfig → Bool
is_intermediate p = str_eq p.spec.pki_type.kind "intermediate"

abbrev pub with_csr : String → PkiSecretEngineConfig → PkiSecretEngineConfig
with_csr csr p = record p {
  spec = record (p.spec) { pki_intermediate = record (p.spec.pki_intermediate) { csr = csr } };
}

abbrev pub with_signed : String → PkiSecretEngineConfig → PkiSecretEngineConfig
with_signed signed p = record p {
  spec = record (p.spec) {
    pki_intermediate = record (p.spec.pki_intermediate) { signed_intermediate = signed };
  };
}

abbrev pub text_at : String → List (String × String) → String
text_at k m = elim (load k m) [ none ↦ "" | some s ↦ s ]

-- A nil `*vault.Secret` is a nil pointer here.
abbrev pub data_of : Option Secret → Result Payload
data_of none = panic
data_of (some secret) = ok (entries_of secret.contents)

module _ {W : Type 0} (v : Vault W) (k : Secrets W) where
  abbrev pub Step : Type 0 → Type 0
  Step A = Action (Cell PkiSecretEngineConfig W) A

  abbrev pub change : (PkiSecretEngineConfig → PkiSecretEngineConfig) → Step (Unit {0})
  change f = modify (λ c. record c { object = f c.object })

  unfoldable pub create_exported : Option Secret → Step Bool
  create_exported secret = do
    c ← get
    m ← of_result (data_of secret)
    payload ← of_result (get_exported_payload c.object m)
    if str_eq c.object.spec.pki_type.private_key_type "exported"
        then in_world (k.create c.object payload)
        else pure tt
    if is_intermediate c.object then change (with_csr (text_at "csr" payload)) else pure tt
    pure (str_eq c.object.spec.pki_type.private_key_type "exported")

  -- The signing request, from the Secret of the object's name where it is not known.
  abbrev pub ensure_csr : Step (Unit {0})
  ensure_csr = do
    c ← get
    if str_eq c.object.spec.pki_intermediate.csr ""
        then (do
          m ← in_world (k.get c.object.namespace c.object.metadata_name)
          change (with_csr (text_at "csr" m)))
        else pure tt

  abbrev pub sign_internally : String → Step (Unit {0})
  sign_internally name = do
    ensure_csr
    c ← get
    secret ← in_world (
        v.logical_write (get_sign_intermediate_path name)
          (some (get_sign_intermediate_payload c.object)))
    m ← of_result (data_of secret)
    signed ← of_result (as_string (value_at "certificate" m))
    change (with_signed signed)

  abbrev pub sign_externally : Option String → Step (Unit {0})
  sign_externally none =
      fail (plain "waiting spec.externalSignSecret with signed intermediate certificate")
  sign_externally (some name) = do
    c ← get
    m ← in_world (k.get c.object.namespace name)
    change (with_signed (text_at c.object.spec.pki_intermediate.certificate_key m))

  -- `InternalSign` counts where it is given and its name is not empty.
  abbrev pub sign : Option String → Option String → Step (Unit {0})
  sign none external = sign_externally external
  sign (some name) external =
      if str_eq name "" then sign_externally external else sign_internally name

  abbrev pub set_signed : Step (Unit {0})
  set_signed = do
    c ← get
    _ ← in_world (
        v.logical_write (get_intermediate_set_signed_path c.object)
          (some (get_intermediate_set_signed_payload c.object)))
    pure tt

  unfoldable pub set_intermediate : Step (Unit {0})
  set_intermediate = do
    c ← get
    if is_intermediate c.object
        then (sign c.object.spec.pki_intermediate.internal_sign
              c.object.spec.pki_intermediate.external_sign_secret
            >> set_signed)
        else pure tt

  abbrev pub pki_engines : VaultPkiEngineObject PkiSecretEngineConfig W
  pki_engines = record {
    get_generate_path = λ p. get_generate_path p;
    get_delete_path = λ p. get_delete_path p;
    get_generated_status = λ p. p.status.generated;
    set_generated_status = λ b p. record p { status = record (p.status) { generated = b } };
    get_config_urls_path = λ p. get_config_urls_path p;
    get_config_crl_path = λ p. get_config_crl_path p;
    get_config_urls_payload = λ p. get_config_urls_payload p;
    get_config_crl_payload = λ p. get_config_crl_payload p;
    create_exported = create_exported;
    set_exported_status = λ b p. record p { status = record (p.status) { exported = b } };
    set_intermediate = set_intermediate;
    get_signed_status = λ p. get_signed_status p;
    set_signed_status = λ b p. record p { status = record (p.status) { signed = b } };
  }

  abbrev pub pki_objects : VaultObject PkiSecretEngineConfig W
  pki_objects = record {
    get_path = λ p. get_path p;
    get_payload = λ p. get_payload p;
    is_equivalent_to_desired_state = λ p payload. is_equivalent_to_desired_state p payload;
    prepare_internal_values = λ c. (ok tt, c);
    prepare_tls_config = λ c. (ok tt, c);
  }
