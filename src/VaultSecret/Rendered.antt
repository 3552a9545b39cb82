-- ===== src/VaultSecret/Rendered.antt =====
-- What a sync of a VaultSecret reads from Vault, and what becomes of it.
use vault_config_operator.Common.{
  ℕ, String, ◌≡◌, refl, ap, sym, ◌∙◌, subst, Option, none, some, List, [], ◌∷◌,
}
use vault_config_operator.Common.Int.{pos}
use vault_config_operator.Common.Action.{ok, pure, ◌>>=◌, ◌>>◌, bind_result}
use vault_config_operator.Common.Bind.{bind-ok, bind-at, ok-inj}
use vault_config_operator.Endpoint.{Cell, in_world}
use vault_config_operator.KubeAuth.{Session, load}
use vault_config_operator.Payload.{Payload, Value, obj, end, lookup, insert}
use vault_config_operator.Periodic.{OwnerReference}
use vault_config_operator.Vault.{Secret}
use vault_config_operator.VaultSecret.{
  Strings, Bytes, VaultSecret, VaultSecretDefinition, VaultSecretDefinitionStatus, K8sSecret,
}
use vault_config_operator.VaultSecret.Hash.{hash_data}
use vault_config_operator.VaultSecret.Ownership.{place}
use vault_config_operator.VaultSecret.Controller.{
  Environment, definition_data, read_definition, read_definitions, status_of, render_all, formatted,
  format_k8s_secret, sync_world, manage_sync_logic, hash_annotation_name,
}
use vault_config_operator.VaultSecret.Output.{
  IsCluster, output, write_out, write_out-stored, stamp, load-put_all,
}

-- The entry that the templates see of a secret with the data `m`: the map below "data", where there
-- is one, as in a KV version 2 secret, and the data themselves where there is no such key.
abbrev pub IsEntry : Payload → Value → Type 0
IsEntry m x =
    ((inner : Payload) → lookup "data" m ≡ some (obj inner) → x ≡ obj inner)
    × (lookup "data" m ≡ none → x ≡ obj m)

definition_data-IsEntry : (m : Payload) → IsEntry m (definition_data m)
unfolding definition_data
definition_data-IsEntry m =
    (λ inner h. rw (h, definition_data) refl, λ h. rw (h, definition_data) refl)

module _ {W C Config : Type 0} (e : Environment W C Config) where
  -- One after the other the definitions are read, from the world `w` on: to each there is a secret
  -- with data. The templates will see the entry of the data under the definition's name, and the
  -- status tells the lease of the secret.
  abbrev pub IsRead :
      String
      → List VaultSecretDefinition
      → Payload
      → Session W C
      → Payload
      → List VaultSecretDefinitionStatus
      → Session W C
      → Type 0
  IsRead namespace [] merged w found stats w' = (found ≡ merged) × (stats ≡ []) × (w' ≡ w)
  IsRead namespace (d ∷ ds) merged w found stats w' =
      (secret : Secret) × (m : Payload) × (x : Value) × (w₁ : Session W C) × (rest : List
        VaultSecretDefinitionStatus)
      × (read_definition e namespace d w ≡ (ok (secret, m), w₁))
      × IsEntry m x
      × (stats
          ≡ record {
            name = d.name;
            lease_id = secret.lease_id;
            lease_duration = pos secret.lease_duration;
            renewable = secret.renewable;
          }
            ∷ rest)
      × IsRead namespace ds (insert d.name x merged) w₁ found rest w'

  -- One after the other the templates are rendered over what was found, each under its key.
  abbrev pub IsRendered : Strings → Payload → Session W C → Bytes → Session W C → Type 0
  IsRendered [] found w bytes w' = (bytes ≡ []) × (w' ≡ w)
  IsRendered ((k, template) ∷ templates) found w bytes w' =
      (b : List ℕ) × (rest : Bytes) × (w₁ : Session W C) × (e.render template found w ≡ (ok b, w₁))
      × (bytes ≡ (k, b) ∷ rest)
      × IsRendered templates found w₁ rest w'

  read_definitions-IsRead :
      (namespace : String) (ds : List VaultSecretDefinition) (merged : Payload) (w : Session W C)
      (p : Payload × List VaultSecretDefinitionStatus)
      → (read_definitions e namespace ds merged w).0 ≡ ok p
      → IsRead namespace ds merged w p.0 p.1 (read_definitions e namespace ds merged w).1
  unfolding read_definitions
  read_definitions-IsRead namespace [] merged w p h =
      (ap (λ q. q.0) (sym (ok-inj h)), ap (λ q. q.1) (sym (ok-inj h)), refl)
  read_definitions-IsRead namespace (d ∷ ds) merged w p h =
      let read = read_definition e namespace d in
      let more = λ (found : Secret × Payload).
        read_definitions e namespace ds (insert d.name (definition_data found.1) merged) >>= λ rest.
        pure (rest.0, status_of e d found.0 ∷ rest.1) in
      let (found, done, h1) = bind-ok read more w p h in
      let next = read_definitions e namespace ds (insert d.name (definition_data found.1) merged) in
      let close = λ (rest : Payload × List VaultSecretDefinitionStatus).
        pure {S = Session W C} (rest.0, status_of e d found.0 ∷ rest.1) in
      let (rest, read_too, h2) = bind-ok next close (read w).1 p h1 in
      let run = bind-at read more w found done ∙ bind-at next close (read w).1 rest read_too in
      let same = ok-inj h2 in
      (
        found.0,
        found.1,
        definition_data found.1,
        (read w).1,
        rest.1,
        (λ i. (done i, (read w).1)),
        definition_data-IsEntry found.1,
        ap (λ q. q.1) (sym same),
        subst {A = Payload × Session W C}
            (λ q.
              IsRead namespace ds (insert d.name (definition_data found.1) merged) (read w).1 q.0
                rest.1 q.1)
            (λ i. ((same i).0, (sym run i).1))
            (read_definitions-IsRead namespace ds (insert d.name (definition_data found.1) merged)
              (read w).1 rest read_too),
      )

  render_all-IsRendered :
      (templates : Strings) (found : Payload) (w : Session W C) (bytes : Bytes)
      → (render_all e templates found w).0 ≡ ok bytes
      → IsRendered templates found w bytes (render_all e templates found w).1
  unfolding render_all
  render_all-IsRendered [] found w bytes h = (sym (ok-inj h), refl)
  render_all-IsRendered ((k, template) ∷ templates) found w bytes h =
      let first = e.render template found in
      let more = λ (b : List ℕ). render_all e templates found >>= λ rest. pure ((k, b) ∷ rest) in
      let (b, done, h1) = bind-ok first more w bytes h in
      let close = λ (rest : Bytes). pure {S = Session W C} ((k, b) ∷ rest) in
      let (rest, rendered, h2) =
        bind-ok (render_all e templates found) close (first w).1 bytes h1 in
      let run =
        bind-at first more w b done
        ∙ bind-at (render_all e templates found) close (first w).1 rest rendered in
      (
        b,
        rest,
        (first w).1,
        (λ i. (done i, (first w).1)),
        sym (ok-inj h2),
        subst (IsRendered templates found (first w).1 rest) (ap (λ q. q.1) (sym run))
            (render_all-IsRendered templates found (first w).1 rest rendered),
      )

module _ {W C Config : Type 0} (e : Environment W C Config)
    (held : Session W C → String → String → Option K8sSecret) (stored : K8sSecret → K8sSecret)
    (Apart : String × String → String × String → Type 0)
    (references : VaultSecret → List OwnerReference)
    (cluster : IsCluster e held stored Apart references) where
  -- A secret with these bytes and the references to the resource, whose annotations have the hash
  -- of the bytes.
  abbrev pub IsOutput : VaultSecret → Bytes → K8sSecret → Type 0
  IsOutput d bytes s =
      (s.contents ≡ bytes)
      × (s.owner_references ≡ references d)
      × ((m : Strings) × (s.annotations ≡ some m)
          × (load hash_annotation_name m ≡ some (hash_data e.hasher bytes)))

  -- From the world `w` on, the definitions were read, the templates rendered over what was found,
  -- and the output is at its place in the world `w'`.
  abbrev pub IsSynced :
      VaultSecret → Session W C → List VaultSecretDefinitionStatus → Session W C → Type 0
  IsSynced d w stats w' =
      (found : Payload) × (w₁ : Session W C) × (bytes : Bytes) × (w₂ : Session W C)
      × (s : K8sSecret) × IsRead e d.namespace d.spec.vault_secret_definitions end w found stats w₁
      × IsRendered e d.spec.templatized_k8s_secret.string_data found w₁ bytes w₂
      × (held w' (place d).0 (place d).1 ≡ some s)
      × IsOutput d bytes s

  stored-IsOutput :
      (d : VaultSecret) (bytes : Bytes)
      → load hash_annotation_name d.spec.templatized_k8s_secret.annotations ≡ none
      → IsOutput d bytes (stored (output e held stored Apart references cluster d bytes))
  stored-IsOutput d bytes absent =
      let out = output e held stored Apart references cluster d bytes in
      (
        cluster.stored_contents out,
        cluster.stored_owners out,
        (
          _,
          cluster.stored_annotations out,
          load-put_all e hash_annotation_name d.spec.templatized_k8s_secret.annotations
              ((hash_annotation_name, hash_data e.hasher bytes) ∷ []) absent,
        ),
      )

  sync_world-IsSynced :
      (d : VaultSecret) (w : Session W C) (stats : List VaultSecretDefinitionStatus)
      → load hash_annotation_name d.spec.templatized_k8s_secret.annotations ≡ none
      → (sync_world e d w).0 ≡ ok stats
      → IsSynced d w stats (sync_world e d w).1
  unfolding sync_world format_k8s_secret
  sync_world-IsSynced d w stats absent h =
      let out = write_out e held stored Apart references cluster in
      let read = read_definitions e d.namespace d.spec.vault_secret_definitions end in
      let write = λ (found : Payload × List VaultSecretDefinitionStatus) (secret : K8sSecret).
        out d secret >> pure found.1 in
      let rest = λ (found : Payload × List VaultSecretDefinitionStatus).
        format_k8s_secret e d found.0 >>= write found in
      let (found, done, h1) = bind-ok read rest w stats h in
      let render = render_all e d.spec.templatized_k8s_secret.string_data found.0 in
      let close = λ (bytes : Bytes). pure {S = Session W C} (formatted e d bytes) in
      let (secret, formed, _) =
        bind-ok (format_k8s_secret e d found.0) (write found) (read w).1 stats h1 in
      let (bytes, rendered, _) = bind-ok render close (read w).1 secret formed in
      let w₂ = (render (read w).1).1 in
      let run =
        bind-at read rest w found done
        ∙ ap (λ r. bind_result (write found) r.0 r.1)
            (bind-at render close (read w).1 bytes rendered) in
      let (_, written, h2) =
        bind-ok (out d (formatted e d bytes)) (λ _. pure found.1) w₂ stats
          (sym (ap (λ r. r.0) run) ∙ h) in
      let whole = run ∙ bind-at (out d (formatted e d bytes)) (λ _. pure found.1) w₂ tt written in
      (
        found.0,
        (read w).1,
        bytes,
        w₂,
        stored (output e held stored Apart references cluster d bytes),
        subst (λ l. IsRead e d.namespace d.spec.vault_secret_definitions end w found.0 l (read w).1)
            (ok-inj h2)
            (read_definitions-IsRead e d.namespace d.spec.vault_secret_definitions end w found
              done),
        render_all-IsRendered e d.spec.templatized_k8s_secret.string_data found.0 (read w).1 bytes
            rendered,
        ap (λ r. held r.1 (place d).0 (place d).1) whole
            ∙ write_out-stored e held stored Apart references cluster d bytes w₂ written,
        stored-IsOutput d bytes absent,
      )

  -- If no annotation of the resource has the name of the hash, a sync that succeeds has read every
  -- definition and rendered every template over what was found. At its place is the secret with
  -- exactly those bytes, with their hash among its annotations and with the references to the
  -- resource. In the resource the time of the clock after the write, and the leases that were read,
  -- are noted; nothing else of it is new.
  pub manage_sync_logic-IsRendered :
      (c : Cell VaultSecret (Session W C))
      → load hash_annotation_name c.object.spec.templatized_k8s_secret.annotations ≡ none
      → (manage_sync_logic e c).0 ≡ ok tt
      → (stats : List VaultSecretDefinitionStatus) × IsSynced c.object c.world stats
          (manage_sync_logic e c).1.world
        × ((manage_sync_logic e c).1.object ≡ record (c.object) {
          status = record (c.object.status) {
            last_vault_secret_update = some (e.kube.now (sync_world e c.object c.world).1).0;
            vault_secret_definitions_status = some stats;
          };
        })
  unfolding manage_sync_logic
  manage_sync_logic-IsRendered c absent h =
      let step = stamp e held stored Apart references cluster in
      let (stats, done, _) = bind-ok (in_world (sync_world e c.object)) step c tt h in
      let run = bind-at (in_world (sync_world e c.object)) step c stats done in
      let (found, w₁, bytes, w₂, s, read, rendered, there, out) =
        sync_world-IsSynced c.object c.world stats absent done in
      (
        stats,
        (
          found,
          w₁,
          bytes,
          w₂,
          s,
          read,
          rendered,
          ap (λ r. held r.1.world (place c.object).0 (place c.object).1) run
              ∙ cluster.now_held _ _ _
              ∙ there,
          out,
        ),
        ap (λ r. r.1.object) run,
      )
