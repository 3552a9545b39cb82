-- ===== src/VaultSecret/Output.antt =====
-- The Kubernetes secret that a sync of a VaultSecret writes, and that the next cycle finds it good.
use mathlib.Core.Option.{some-injective}
use vault_config_operator.Common.{
  String, ◌≡◌, refl, ap, sym, ◌∙◌, subst, Bool, true, false, Option, none, some, List, [], ◌∷◌, map,
  str_eq, if◌then◌else◌, ◌⊎◌, inl, inr, Bool-cases, eq_refl, eq_iff,
}
use vault_config_operator.Common.Int.{ℤ, ltb_ℤ, ◌+ℤ◌}
use vault_config_operator.Common.Action.{
  Result, ok, err, panic, Action, pure, ◌>>=◌, ◌>>◌, bind_result, modify,
}
use vault_config_operator.Common.Bind.{bind-ok, bind-at}
use vault_config_operator.Endpoint.{Cell, in_world}
use vault_config_operator.KubeAuth.{Session, load, store}
use vault_config_operator.Payload.{Payload, end}
use vault_config_operator.Periodic.{OwnerReference, is_owner}
use vault_config_operator.Resource.{placed, create_or_update_resource, desired}
use vault_config_operator.Resource.Applied.{IsServer, create_or_update_resource-Holds}
use vault_config_operator.VaultSecret.{
  Strings, Bytes, VaultSecret, VaultSecretDefinitionStatus, K8sSecret, k8s_secrets,
}
use vault_config_operator.VaultSecret.Hash.{hash_data, keys}
use vault_config_operator.VaultSecret.Ownership.{place, looked}
use vault_config_operator.VaultSecret.Sync.{render_all-keys}
use vault_config_operator.VaultSecret.Controller.{
  Environment, render_all, formatted, format_k8s_secret, read_definitions, sync_world,
  manage_sync_logic, synced, time_now, should_sync, calculate_duration, hash_annotation_name,
  put_all, has_hash, is_mine, elapsed,
}

load-store_ne :
    (k j v : String) (m : Strings) → str_eq j k ≡ false → load k (store j v m) ≡ load k m
load-store_ne k j v [] h = rw h refl
load-store_ne k j v ((i, u) ∷ m) h = elim (Bool-cases (str_eq i j)) [
  | inl p ↦
      rw (p, h)
        (ap (λ b. if b then some u else load k m)
          (sym (ap (λ t. str_eq t k) ((eq_iff i j).0 p) ∙ h)))
  | inr p ↦ rw p (ap (λ o. if str_eq i k then some u else o) (load-store_ne k j v m h))
]

absent_first :
    (b : Bool) (v : String) (o : Option String)
    → (if b then some v else o) ≡ none
    → (b ≡ false) × (o ≡ none)
absent_first true v o h = cc
absent_first false v o h = (refl, h)

-- No annotation of the resource itself has the name `k`.
pub load-put_all :
    {W C Config : Type 0} (e : Environment W C Config) (k : String) (more m : Strings)
    → load k more ≡ none
    → load k (put_all e more m) ≡ load k m
load-put_all e k [] m h = refl
load-put_all e k ((j, v) ∷ more) m h =
    let (differs, absent) = absent_first (str_eq j k) v (load k more) h in
    load-put_all e k more (store j v m) absent ∙ load-store_ne k j v m differs

-- What is relied on of the API server and of `SetControllerReference`: the references that it adds
-- are the resource's, the server keeps what the controller looks at, and a read finds what is held.
-- A status that was set does not change the kind.
pub record IsCluster {W C Config : Type 0} (e : Environment W C Config)
    (held : Session W C → String → String → Option K8sSecret) (stored : K8sSecret → K8sSecret)
    (Apart : String × String → String × String → Type 0)
    (references : VaultSecret → List OwnerReference) : Type 0 where
  pub server : IsServer k8s_secrets e.secrets held stored Apart
  pub get_held :
      (w : Session W C) (n m : String) (s : K8sSecret)
      → held w n m ≡ some s
      → (e.secrets.get n m w).0 ≡ ok s
  pub reference :
      (d : VaultSecret) (s : K8sSecret)
      → e.set_controller_reference d s ≡ record s { owner_references = references d }
  pub mine :
      (d : VaultSecret) (last : ℤ) (stats : List VaultSecretDefinitionStatus)
      → is_owner d.metadata_name d.uid
          (e.objects.get_kind (record d {
            status = record (d.status) {
              last_vault_secret_update = some last;
              vault_secret_definitions_status = some stats;
            };
          }))
          (references d)
        ≡ true
  pub stored_annotations : (s : K8sSecret) → (stored s).annotations ≡ s.annotations
  pub stored_contents : (s : K8sSecret) → (stored s).contents ≡ s.contents
  pub stored_owners : (s : K8sSecret) → (stored s).owner_references ≡ s.owner_references
  pub now_held : (w : Session W C) (n m : String) → held (e.kube.now w).1 n m ≡ held w n m

module _ {W C Config : Type 0} (e : Environment W C Config)
    (held : Session W C → String → String → Option K8sSecret) (stored : K8sSecret → K8sSecret)
    (Apart : String × String → String × String → Type 0)
    (references : VaultSecret → List OwnerReference)
    (cluster : IsCluster e held stored Apart references) where
  abbrev pub output : VaultSecret → Bytes → K8sSecret
  output d bytes = record (formatted e d bytes) { owner_references = references d }

  placed_same :
      (n : String) (s : K8sSecret) → s.namespace ≡ n → placed k8s_secrets e.secrets n s ≡ s
  placed_same n s h = elim (Bool-cases (str_eq n "")) [
    | inl p ↦ rw p refl
    | inr p ↦ rw p (ap (λ m. record s { namespace = m }) (sym h))
  ]

  desired_lem :
      (d : VaultSecret) (bytes : Bytes)
      → desired k8s_secrets e.secrets
          (some (e.set_controller_reference d))
          d.namespace
          (formatted e d bytes)
        ≡ output d bytes
  desired_lem d bytes =
      ap (placed k8s_secrets e.secrets d.namespace) (cluster.reference d (formatted e d bytes))
      ∙ placed_same d.namespace (output d bytes) refl

  -- What a sync has reached: the output, with a key for each template, is at its place.
  abbrev IsWritten : VaultSecret → Session W C → Type 0
  IsWritten d w =
      (bytes : Bytes) × (keys bytes ≡ map (λ t. t.0) d.spec.templatized_k8s_secret.string_data)
      × (held w (place d).0 (place d).1 ≡ some (stored (output d bytes)))

  abbrev pub write_out : VaultSecret → K8sSecret → Action (Session W C) (Unit {0})
  write_out d secret =
      create_or_update_resource k8s_secrets e.secrets (some (e.set_controller_reference d))
        d.namespace secret

  pub write_out-stored :
      (d : VaultSecret) (bytes : Bytes) (w : Session W C)
      → (write_out d (formatted e d bytes) w).0 ≡ ok tt
      → held (write_out d (formatted e d bytes) w).1 (place d).0 (place d).1
        ≡ some (stored (output d bytes))
  write_out-stored d bytes w h =
      subst (λ s. held (write_out d (formatted e d bytes) w).1 s.namespace s.name ≡ some (stored s))
        (desired_lem d bytes)
        (create_or_update_resource-Holds k8s_secrets e.secrets held stored Apart cluster.server
          (some (e.set_controller_reference d)) d.namespace (formatted e d bytes) w h).0

  abbrev after_render :
      VaultSecret
      → List VaultSecretDefinitionStatus
      → Result Bytes
      → Action (Session W C) (List VaultSecretDefinitionStatus)
  after_render d stats r = bind_result (λ bytes. pure (formatted e d bytes)) r >>= λ secret.
      write_out d secret >> pure stats

  after_render-IsWritten :
      (d : VaultSecret) (m : Payload) (stats stats' : List VaultSecretDefinitionStatus)
      (r : Result Bytes) (w0 w : Session W C)
      → (render_all e d.spec.templatized_k8s_secret.string_data m w0).0 ≡ r
      → (after_render d stats r w).0 ≡ ok stats'
      → IsWritten d (after_render d stats r w).1
  after_render-IsWritten d m stats stats' (ok bytes) w0 w q h =
      let write = write_out d (formatted e d bytes) in
      let (_, written, _) = bind-ok write (λ _. pure stats) w stats' h in
      subst (λ p. IsWritten d p.1) (sym (bind-at write (λ _. pure stats) w tt written))
        (
          bytes,
          render_all-keys e d.spec.templatized_k8s_secret.string_data m w0 bytes q,
          write_out-stored d bytes w written,
        )
  after_render-IsWritten d m stats stats' (err issue) w0 w q h = cc
  after_render-IsWritten d m stats stats' panic w0 w q h = cc

  write_rendered :
      (d : VaultSecret) (m : Payload) (w : Session W C)
      (stats stats' : List VaultSecretDefinitionStatus)
      → ((format_k8s_secret e d m >>= λ secret. write_out d secret >> pure stats) w).0 ≡ ok stats'
      → IsWritten d ((format_k8s_secret e d m >>= λ secret. write_out d secret >> pure stats) w).1
  unfolding format_k8s_secret
  write_rendered d m w stats stats' h =
      let rendered = render_all e d.spec.templatized_k8s_secret.string_data m w in
      after_render-IsWritten d m stats stats' rendered.0 w rendered.1 refl h

  sync_world-IsWritten :
      (d : VaultSecret) (w : Session W C) (stats : List VaultSecretDefinitionStatus)
      → (sync_world e d w).0 ≡ ok stats
      → IsWritten d (sync_world e d w).1
  unfolding sync_world
  sync_world-IsWritten d w stats h =
      let read = read_definitions e d.namespace d.spec.vault_secret_definitions end in
      let rest = λ (found : Payload × List VaultSecretDefinitionStatus).
        format_k8s_secret e d found.0 >>= λ secret. write_out d secret >> pure found.1 in
      let (found, done, h1) = bind-ok read rest w stats h in
      subst (λ p. IsWritten d p.1) (sym (bind-at read rest w found done))
        (write_rendered d found.0 (read w).1 found.1 stats h1)

  abbrev pub stamp :
      List VaultSecretDefinitionStatus → Action (Cell VaultSecret (Session W C)) (Unit {0})
  stamp stats = time_now e >>= λ now. modify (synced e now stats)

  -- The object after a sync: the time and the leases, and nothing else, are new.
  abbrev IsStamped : Cell VaultSecret (Session W C) → VaultSecret → Type 0
  IsStamped c d =
      (now : ℤ) × (stats : List VaultSecretDefinitionStatus) × (d ≡ (synced e now stats c).object)

  -- A sync that succeeds leaves the output at its place, with the data that the templates make, one
  -- key for each template, the hash of the data and the resource as owner; in the VaultSecret it
  -- notes the time and the leases.
  manage_sync_logic-IsWritten :
      (c : Cell VaultSecret (Session W C))
      → (manage_sync_logic e c).0 ≡ ok tt
      → IsWritten c.object (manage_sync_logic e c).1.world
        × IsStamped c (manage_sync_logic e c).1.object
  unfolding manage_sync_logic
  manage_sync_logic-IsWritten c h =
      let (stats, done, _) = bind-ok (in_world (sync_world e c.object)) stamp c tt h in
      subst (λ p. IsWritten c.object p.1.world × IsStamped c p.1.object)
        (sym (bind-at (in_world (sync_world e c.object)) stamp c stats done))
        (
          let (bytes, templates, there) = sync_world-IsWritten c.object c.world stats done in
              (bytes, templates, cluster.now_held _ _ _ ∙ there),
          ((e.kube.now (sync_world e c.object c.world).1).0, stats, refl),
        )

  output-has_hash :
      (d : VaultSecret) (bytes : Bytes)
      → load hash_annotation_name d.spec.templatized_k8s_secret.annotations ≡ none
      → has_hash e (stored (output d bytes)) ≡ true
  output-has_hash d bytes absent =
      hashed (stored (output d bytes)) bytes _ (cluster.stored_annotations (output d bytes))
        (cluster.stored_contents (output d bytes))
        (load-put_all e hash_annotation_name d.spec.templatized_k8s_secret.annotations
          ((hash_annotation_name, hash_data e.hasher bytes) ∷ []) absent)
    where
      hashed :
          (s : K8sSecret) (b : Bytes) (m : Strings)
          → s.annotations ≡ some m
          → s.contents ≡ b
          → load hash_annotation_name m ≡ some (hash_data e.hasher b)
          → has_hash e s ≡ true
      hashed s b m p q r = rw (p, r, q) (eq_refl (hash_data e.hasher b))

  -- The next sync is not due: its time cannot be calculated, or has not passed.
  abbrev pub IsNotDue : Cell VaultSecret (Session W C) → Type 0
  IsNotDue c =
      (calculate_duration e.lease_share c.object ≡ none)
      ⊎ ((last t : ℤ) × (c.object.status.last_vault_secret_update ≡ some last)
          × (calculate_duration e.lease_share c.object ≡ some t)
          × (ltb_ℤ (last +ℤ t) (e.kube.now (looked e c).world).0 ≡ false))

  should_sync_good :
      (c : Cell VaultSecret (Session W C)) (s : K8sSecret) (last : ℤ)
      → (e.secrets.get (place c.object).0 (place c.object).1 c.world).0 ≡ ok s
      → is_mine e c.object s ≡ true
      → has_hash e s ≡ true
      → c.object.status.last_vault_secret_update ≡ some last
      → should_sync e c ≡ elapsed e last (calculate_duration e.lease_share c.object) (looked e c)
  unfolding should_sync
  should_sync_good c s last found mine hash timed = rw (found, mine, hash, timed) refl

  elapsed_not :
      (c : Cell VaultSecret (Session W C)) (last : ℤ)
      → c.object.status.last_vault_secret_update ≡ some last
      → IsNotDue c
      → (elapsed e last (calculate_duration e.lease_share c.object) (looked e c)).0 ≡ ok false
  elapsed_not c last timed (inl h) = rw h refl
  elapsed_not c last timed (inr (l, t, p, h, k)) = rw h (
      ap (λ z. ok (ltb_ℤ (z +ℤ t) (e.kube.now (looked e c).world).0))
        (some-injective last l (sym timed ∙ p))
      ∙ ap ok k)

  settled :
      (c : Cell VaultSecret (Session W C)) (w : Session W C) (now : ℤ)
      (stats : List VaultSecretDefinitionStatus)
      → load hash_annotation_name c.object.spec.templatized_k8s_secret.annotations ≡ none
      → IsWritten c.object w
      → IsNotDue (record { object = (synced e now stats c).object; world = w })
      → (should_sync e (record { object = (synced e now stats c).object; world = w })).0 ≡ ok false
  settled c w now stats absent (bytes, _, there) not_due =
      let c' : Cell VaultSecret (Session W C) = record {
        object = (synced e now stats c).object;
        world = w;
      } in
      let s = stored (output c.object bytes) in
      let mine : is_mine e c'.object s ≡ true =
        ap
          (λ refs. is_owner c.object.metadata_name c.object.uid (e.objects.get_kind c'.object) refs)
          (cluster.stored_owners (output c.object bytes))
        ∙ cluster.mine c.object now stats in
      let good =
        should_sync_good c' s now (cluster.get_held w (place c.object).0 (place c.object).1 s there)
          mine (output-has_hash c.object bytes absent) refl in
      ap (λ p. p.0) good ∙ elapsed_not c' now refl not_due

  -- If no annotation of the resource takes the place of the hash, then after a sync that succeeds
  -- the next cycle does not sync again until the next sync is due.
  pub manage_sync_logic_settles :
      (c : Cell VaultSecret (Session W C))
      → load hash_annotation_name c.object.spec.templatized_k8s_secret.annotations ≡ none
      → (manage_sync_logic e c).0 ≡ ok tt
      → IsNotDue (manage_sync_logic e c).1
      → (should_sync e (manage_sync_logic e c).1).0 ≡ ok false
  manage_sync_logic_settles c absent done not_due =
      let (written, (now, stats, same)) = manage_sync_logic-IsWritten c done in
      let w = (manage_sync_logic e c).1.world in
      subst
        (λ (d : VaultSecret).
          IsNotDue (record { object = d; world = w })
          → (should_sync e (record { object = d; world = w })).0 ≡ ok false)
        (sym same) (settled c w now stats absent written) not_due
