-- ===== src/Kinds/PkiSecretEngineConfig/Signed.antt =====
-- What the signing of an intermediate certificate leaves in Vault.
use vault_config_operator.Common.{
  String, ◌≡◌, refl, ap, sym, ◌∙◌, subst, Bool-cases, inl, inr, true, List, Option, none, some,
  str_eq, if◌then◌else◌,
}
use vault_config_operator.Common.Action.{
  Action, Result, ok, err, panic, pure, get, of_result, bind_result, ◌>>=◌, ◌>>◌,
}
use vault_config_operator.Common.Bind.{bind-ok, bind-at, ok-inj}
use vault_config_operator.Payload.{
  Payload, Value, nil, str, bool, int, number, strs, dict, duration, pointer, enums, raw, arr, obj,
  end, field,
}
use vault_config_operator.Engine.{as_string, entries_of}
use vault_config_operator.Database.{value_at}
use vault_config_operator.Vault.{Vault, Secret}
use vault_config_operator.Vault.Store.{IsStore}
use vault_config_operator.Endpoint.{Cell, in_world}
use vault_config_operator.Kinds.PkiSecretEngineConfig.{
  PkiSecretEngineConfig, get_intermediate_set_signed_path, get_intermediate_set_signed_payload,
  get_sign_intermediate_path, get_sign_intermediate_payload,
}
use vault_config_operator.Kinds.PkiSecretEngineConfig.Signing.{
  Secrets, is_intermediate, text_at, data_of, with_signed, change, ensure_csr, sign_internally,
  sign_externally, sign, set_signed, set_intermediate,
}

module _ {W : Type 0} (v : Vault W) (k : Secrets W) (at : W → String → Option Payload)
    (stored : String → Payload → Payload) (apart : String → String → Type 0)
    (store : IsStore v at stored apart) where
  -- The certificate that the engine asks for, or that is given: what the signing engine `name`
  -- answers for the request of the object as it is once its request is known, and the entry of the
  -- Secret `name`.
  abbrev pub IsCertificateBy : String → Cell PkiSecretEngineConfig W → String → Type 0
  IsCertificateBy name c certificate =
      (c₁ : Cell PkiSecretEngineConfig W) × (ensure_csr v k c ≡ (ok tt, c₁))
      × (secret : Secret) × ((v.logical_write (get_sign_intermediate_path name)
            (some (get_sign_intermediate_payload c₁.object)) c₁.world).0
          ≡ ok (some secret))
      × (value_at "certificate" (entries_of secret.contents) ≡ str certificate)

  abbrev pub IsCertificateOf : String → Cell PkiSecretEngineConfig W → String → Type 0
  IsCertificateOf name c certificate =
      (m : List (String × String)) × ((k.get c.object.namespace name c.world).0 ≡ ok m)
      × (text_at c.object.spec.pki_intermediate.certificate_key m ≡ certificate)

  -- Where the certificate is from: the engine, where one with a name is given, and otherwise the
  -- Secret, which has to be given.
  abbrev pub Source : Type 1
  Source = Cell PkiSecretEngineConfig W → String → Type 0

  abbrev pub external_source : Option String → Source
  external_source none c certificate = ⊥
  external_source (some name) c certificate = IsCertificateOf name c certificate

  abbrev pub source : Option String → Option String → Source
  source none external = external_source external
  source (some name) external =
      if str_eq name "" then external_source external else IsCertificateBy name

  -- The certificate is set in Vault.
  abbrev pub IsInstalled : String → Cell PkiSecretEngineConfig W → Type 0
  IsInstalled certificate c =
      (c.object.spec.pki_intermediate.signed_intermediate ≡ certificate)
      × (at c.world (get_intermediate_set_signed_path c.object)
          ≡ some (
              stored (get_intermediate_set_signed_path c.object)
                (field "certificate" (str certificate) end)))

  abbrev done : Option Secret → Action (Cell PkiSecretEngineConfig W) (Unit {0})
  done s = pure tt

  set_signed-IsInstalled :
      (c : Cell PkiSecretEngineConfig W)
      → (set_signed v k c).0 ≡ ok tt
      → IsInstalled c.object.spec.pki_intermediate.signed_intermediate (set_signed v k c).1
  unfolding get_intermediate_set_signed_payload
  set_signed-IsInstalled c h =
      let p = get_intermediate_set_signed_path c.object in
      let d = get_intermediate_set_signed_payload c.object in
      written (v.logical_write p (some d) c.world).0 (v.logical_write p (some d) c.world).1
        (store.write_stores p d c.world) h
    where
      written :
          (r : Result (Option Secret)) (w : W)
          → ((s : Option Secret)
              → r ≡ ok s
              → at w (get_intermediate_set_signed_path c.object)
                ≡ some (
                    stored
                      (get_intermediate_set_signed_path c.object)
                      (get_intermediate_set_signed_payload c.object)))
          → (bind_result done r (record c { world = w })).0 ≡ ok tt
          → IsInstalled c.object.spec.pki_intermediate.signed_intermediate
              (bind_result done r (record c { world = w })).1
      written (ok s) w there h = (refl, there s refl)
      written (err issue) w there h = cc
      written panic w there h = cc

  external-signs :
      (external : Option String) (c : Cell PkiSecretEngineConfig W)
      → (sign_externally v k external c).0 ≡ ok tt
      → external_source external c
          (sign_externally v k external c).1.object.spec.pki_intermediate.signed_intermediate
  external-signs none c h = cc
  external-signs (some name) c h =
      let get_it = in_world (k.get c.object.namespace name) in
      let keep = λ (m : List (String × String)).
        change v k (with_signed (text_at c.object.spec.pki_intermediate.certificate_key m)) in
      let (m, found, _) = bind-ok get_it keep c tt h in
      rw (bind-at get_it keep c m found) (m, found, refl)

  as_string-str : (x : Value) (t : String) → as_string x ≡ ok t → x ≡ str t
  as_string-str (str s) t h = ap str (ok-inj h)
  as_string-str nil t h = cc
  as_string-str (bool b) t h = cc
  as_string-str (int n) t h = cc
  as_string-str (number n) t h = cc
  as_string-str (strs l) t h = cc
  as_string-str (dict m) t h = cc
  as_string-str (duration n) t h = cc
  as_string-str (pointer o) t h = cc
  as_string-str (enums n l) t h = cc
  as_string-str (raw o) t h = cc
  as_string-str (arr l) t h = cc
  as_string-str (obj m) t h = cc

  data_of-some :
      (answer : Option Secret) (m : Payload)
      → data_of answer ≡ ok m
      → (secret : Secret) × (answer ≡ some secret) × (entries_of secret.contents ≡ m)
  data_of-some none m h = cc
  data_of-some (some secret) m h = (secret, refl, ok-inj h)

  abbrev keep_certificate : Payload → Action (Cell PkiSecretEngineConfig W) (Unit {0})
  keep_certificate m =
      of_result (as_string (value_at "certificate" m)) >>= λ signed. change v k (with_signed signed)

  abbrev keep_answer : Option Secret → Action (Cell PkiSecretEngineConfig W) (Unit {0})
  keep_answer answer = of_result (data_of answer) >>= keep_certificate

  keep_answer-is :
      (answer : Option Secret) (c : Cell PkiSecretEngineConfig W)
      → (keep_answer answer c).0 ≡ ok tt
      → (secret : Secret) × (answer ≡ some secret)
        × (value_at "certificate" (entries_of secret.contents)
            ≡ str (keep_answer answer c).1.object.spec.pki_intermediate.signed_intermediate)
  keep_answer-is answer c h =
      let (m, decoded, h1) = bind-ok (of_result (data_of answer)) keep_certificate c tt h in
      let (secret, given, entries) = data_of-some answer m decoded in
      let keep = λ (signed : String). change v k (with_signed signed) in
      let read = of_result (as_string (value_at "certificate" m)) in
      let (signed, text, _) = bind-ok read keep c tt h1 in
      let run =
        bind-at (of_result (data_of answer)) keep_certificate c m decoded
        ∙ bind-at read keep c signed text in
      rw run (
        secret,
        given,
        ap (value_at "certificate") entries ∙ as_string-str (value_at "certificate" m) signed text,
      )

  abbrev request : String → Action (Cell PkiSecretEngineConfig W) (Unit {0})
  request name = get >>= λ c.
      in_world (
        v.logical_write (get_sign_intermediate_path name)
          (some (get_sign_intermediate_payload c.object)))
      >>= keep_answer

  internal-signs :
      (name : String) (c : Cell PkiSecretEngineConfig W)
      → (sign_internally v k name c).0 ≡ ok tt
      → IsCertificateBy name c
          (sign_internally v k name c).1.object.spec.pki_intermediate.signed_intermediate
  internal-signs name c h =
      let (_, known, h1) = bind-ok (ensure_csr v k) (λ _. request name) c tt h in
      let c₁ = (ensure_csr v k c).1 in
      let write = in_world (
        v.logical_write (get_sign_intermediate_path name)
          (some (get_sign_intermediate_payload c₁.object))) in
      let (answer, answered, h2) = bind-ok write keep_answer c₁ tt h1 in
      let (secret, given, certificate) = keep_answer-is answer (write c₁).1 h2 in
      let run =
        bind-at (ensure_csr v k) (λ _. request name) c tt known
        ∙ bind-at write keep_answer c₁ answer answered in
      rw run (c₁, (λ i. (known i, c₁)), secret, answered ∙ ap ok given, certificate)

  sign-signs :
      (name external : Option String) (c : Cell PkiSecretEngineConfig W)
      → (sign v k name external c).0 ≡ ok tt
      → source name external c
          (sign v k name external c).1.object.spec.pki_intermediate.signed_intermediate
  sign-signs none external c h = external-signs external c h
  sign-signs (some name) external c h = elim (Bool-cases (str_eq name "")) [
    | inl unnamed ↦ rw unnamed (external-signs external c (rw unnamed at h))
    | inr named ↦ rw named (internal-signs name c (rw named at h))
  ]

  set_intermediate_signs :
      (c : Cell PkiSecretEngineConfig W)
      → is_intermediate c.object ≡ true
      → set_intermediate v k c
        ≡ (sign v k c.object.spec.pki_intermediate.internal_sign
                c.object.spec.pki_intermediate.external_sign_secret
              >> set_signed v k)
            c
  unfolding set_intermediate
  set_intermediate_signs c h = rw h refl

  -- For an intermediate certificate authority, SetIntermediate without an error has set the
  -- certificate that the object then holds at the engine's set-signed path. It is the one that the
  -- signing engine answered for the object's request, where an engine with a name is given, and
  -- otherwise the entry of the Secret that is given.
  pub set_intermediate-IsSigned :
      (c : Cell PkiSecretEngineConfig W)
      → is_intermediate c.object ≡ true
      → (set_intermediate v k c).0 ≡ ok tt
      → (certificate : String) × source c.object.spec.pki_intermediate.internal_sign
          c.object.spec.pki_intermediate.external_sign_secret c certificate
        × IsInstalled certificate (set_intermediate v k c).1
  set_intermediate-IsSigned c intermediate h =
      let name = c.object.spec.pki_intermediate.internal_sign in
      let external = c.object.spec.pki_intermediate.external_sign_secret in
      let signing = sign v k name external in
      let run = set_intermediate_signs c intermediate in
      let (_, signed, h1) =
        bind-ok signing (λ _. set_signed v k) c tt (ap (λ p. p.0) (sym run) ∙ h) in
      let certificate = (signing c).1.object.spec.pki_intermediate.signed_intermediate in
      (
        certificate,
        sign-signs name external c signed,
        subst (λ p. IsInstalled certificate p.1)
            (sym (run ∙ bind-at signing (λ _. set_signed v k) c tt signed))
            (set_signed-IsInstalled (signing c).1 h1),
      )
