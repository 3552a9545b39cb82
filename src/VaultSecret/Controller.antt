-- ===== src/VaultSecret/Controller.antt =====
-- The reconciler of VaultSecrets: controllers/vaultsecret_controller.go, from the fetched object on.
-- Times and periods are integers of nanoseconds, which do not overflow here.
use vault_config_operator.Common.{
  ℕ, String, Bool, true, false, not, Option, none, some, List, [], ◌∷◌, if◌then◌else◌, str_eq,
}
use vault_config_operator.Common.Int.{ℤ, pos, ◌+ℤ◌, ◌-ℤ◌, ltb_ℤ, eqb_ℤ}
use vault_config_operator.Common.Action.{
  Error, plain, Result, ok, err, panic, Action, pure, fail, of_result, get, modify, try, ◌>>=◌,
  ◌>>◌,
}
use vault_config_operator.Common.Text.{◌^^◌}
use vault_config_operator.Payload.{Payload, Value, obj, dict, end, lookup, insert}
use vault_config_operator.Vault.{Vault, Secret}
use vault_config_operator.Endpoint.{Cell, in_world}
use vault_config_operator.Outcome.{
  KubeObject, Kube, Outcome, no_error, get_finalizer, manage_outcome, manage_outcome_with_requeue,
}
use vault_config_operator.KubeAuth.{Platform, Session, load, store, get_vault_client}
use vault_config_operator.Periodic.{OwnerReference, is_owner}
use vault_config_operator.Reconcile.{remove_finalizer}
use vault_config_operator.Resource.{
  Client, is_not_found, create_or_update_resource, delete_resource_if_exists,
}
use vault_config_operator.VaultSecret.{
  Strings, Bytes, VaultSecret, VaultSecretDefinition, VaultSecretDefinitionStatus, K8sSecret,
  k8s_secrets, get_secret,
}
use vault_config_operator.VaultSecret.Hash.{Hasher, hash_data}

abbrev pub hash_annotation_name : String
hash_annotation_name = "vaultsecret.redhatcop.redhat.io/secret-hash"

abbrev pub vault_secret_kind : String
vault_secret_kind = "VaultSecret"

abbrev pub max_int64 : ℕ
max_int64 = 9223372036854775807

-- `types.NamespacedName.String`
abbrev pub namespaced : String → String → String
namespaced namespace name = namespace ^^ "/" ^^ name

unfoldable pub smallest_lease : ℤ → List VaultSecretDefinitionStatus → ℤ
smallest_lease smallest [] = smallest
smallest_lease smallest (defstat ∷ stats) =
    smallest_lease
      (if ltb_ℤ defstat.lease_duration smallest then defstat.lease_duration else smallest) stats

-- The part of a lease, in seconds, that the threshold leaves, as a duration: the arithmetic on
-- floating point numbers is a parameter.
unfoldable pub leased : (ℤ → ℤ → ℤ) → ℤ → Option (List VaultSecretDefinitionStatus) → Option ℤ
leased share threshold none = none
leased share threshold (some stats) =
    let smallest = smallest_lease (pos max_int64) stats in
    if eqb_ℤ smallest (pos max_int64) then none else some (share threshold smallest)

-- `calculateDuration`: `none` where the duration is incalculable.
unfoldable pub calculate_duration : (ℤ → ℤ → ℤ) → VaultSecret → Option ℤ
calculate_duration share instance_ = elim instance_.spec.refresh_period [
  | none ↦
      leased share instance_.spec.refresh_threshold instance_.status.vault_secret_definitions_status
  | some period ↦ some period
]

-- A value that `reflect` calls a map, which the data of a KV version 2 secret hold.
abbrev pub inner_map : Payload → Value → Value
inner_map data_map (obj m) = obj m
inner_map data_map (dict m) = dict m
inner_map data_map _ = obj data_map

unfoldable pub definition_data : Payload → Value
definition_data data_map = elim (lookup "data" data_map) [
  | none ↦ obj data_map
  | some value ↦ inner_map data_map value
]

-- `isOwnedSecretByController`
unfoldable pub is_owned_secret_by_controller : List OwnerReference → Bool
is_owned_secret_by_controller [] = false
is_owned_secret_by_controller (owner_ref ∷ refs) =
    if str_eq owner_ref.kind vault_secret_kind then true else is_owned_secret_by_controller refs

-- What the controller goes through: the API server, for VaultSecrets and for secrets; the login
-- and the client of a Vault server; the hash; the template engine, which also reads the cluster;
-- `SetControllerReference`; and the arithmetic of a lease's threshold.
pub record Environment (W C Config : Type 0) : Type 0 where
  pub objects : KubeObject VaultSecret
  pub kube : Kube VaultSecret (Session W C)
  pub secrets : Client K8sSecret (Session W C)
  pub platform : Platform W C Config
  pub logical : C → Vault (Session W C)
  pub hasher : Hasher
  pub render : String → Payload → Action (Session W C) (List ℕ)
  pub set_controller_reference : VaultSecret → K8sSecret → K8sSecret
  pub lease_share : ℤ → ℤ → ℤ

module _ {W C Config : Type 0} (e : Environment W C Config) where
  -- A step on the VaultSecret and the world around it.
  abbrev pub Step : Type 0 → Type 0
  Step A = Action (Cell VaultSecret (Session W C)) A

  abbrev pub time_now : Step ℤ
  time_now c = let (t, w) = e.kube.now c.world in (ok t, record c { world = w })

  abbrev pub empty_secret : VaultSecret → K8sSecret
  empty_secret d = record {
    name = d.spec.templatized_k8s_secret.name;
    namespace = d.namespace;
    resource_version = "";
    owner_references = [];
    annotations = none;
    labels = [];
    contents = [];
    kind = "";
  }

  unfoldable pub manage_clean_up_logic : Step (Unit {0})
  manage_clean_up_logic = do
    c ← get
    in_world (delete_resource_if_exists k8s_secrets e.secrets (empty_secret c.object))

  -- The loop over `StringData`.
  unfoldable pub render_all : Strings → Payload → Action (Session W C) Bytes
  render_all [] data_map = pure []
  render_all ((k, template) ∷ templates) data_map = do
    bytes ← e.render template data_map
    rest ← render_all templates data_map
    pure ((k, bytes) ∷ rest)

  abbrev pub put_all : Strings → Strings → Strings
  put_all [] annotations = annotations
  put_all ((k, v) ∷ more) annotations = put_all more (store k v annotations)

  -- The secret with its hash, over which the annotations of the resource take precedence.
  abbrev pub formatted : VaultSecret → Bytes → K8sSecret
  formatted d bytes = record {
    name = d.spec.templatized_k8s_secret.name;
    namespace = d.namespace;
    resource_version = "";
    owner_references = [];
    annotations = some (
        put_all d.spec.templatized_k8s_secret.annotations
          ((hash_annotation_name, hash_data e.hasher bytes) ∷ []));
    labels = d.spec.templatized_k8s_secret.labels;
    contents = bytes;
    kind = d.spec.templatized_k8s_secret.kind;
  }

  unfoldable pub format_k8s_secret : VaultSecret → Payload → Action (Session W C) K8sSecret
  format_k8s_secret d data_map = do
    bytes ← render_all d.spec.templatized_k8s_secret.string_data data_map
    pure (formatted d bytes)

  abbrev pub matches : K8sSecret → Option String → Bool
  matches secret none = false
  matches secret (some hash) = str_eq hash (hash_data e.hasher secret.contents)

  -- The annotations are there, the hash is among them and it is that of the data.
  abbrev pub has_hash : K8sSecret → Bool
  has_hash secret = elim secret.annotations [
    | none ↦ false
    | some annotations ↦ matches secret (load hash_annotation_name annotations)
  ]

  abbrev pub is_mine : VaultSecret → K8sSecret → Bool
  is_mine d secret = is_owner d.metadata_name d.uid (e.objects.get_kind d) secret.owner_references

  abbrev pub not_owned : VaultSecret → Error
  not_owned d = plain (
      "the k8s Secret "
      ^^ namespaced d.namespace d.spec.templatized_k8s_secret.name
      ^^ " is not owned by VaultSecret "
      ^^ namespaced d.namespace d.metadata_name)

  abbrev pub elapsed : ℤ → Option ℤ → Step Bool
  elapsed last none = pure false
  elapsed last (some duration) = do now ← time_now; pure (ltb_ℤ (last +ℤ duration) now)

  -- Without a sync before, it is time for the first.
  abbrev pub is_time : Option ℤ → Option ℤ → Step Bool
  is_time none duration = pure true
  is_time (some last) duration = elapsed last duration

  abbrev pub judge : VaultSecret → Result K8sSecret → Step Bool
  judge d (ok secret) =
      if not (is_mine d secret)
      then fail (not_owned d)
      else if not (has_hash secret)
      then pure true
      else is_time d.status.last_vault_secret_update (calculate_duration e.lease_share d)
  judge d (err issue) = if is_not_found issue then pure true else fail issue
  judge d panic = of_result panic

  unfoldable pub should_sync : Step Bool
  should_sync = do
    c ← get
    found ←
        try (in_world (e.secrets.get c.object.namespace c.object.spec.templatized_k8s_secret.name))
    judge c.object found

  -- A secret that was read, with its data.
  abbrev pub data_of : VaultSecretDefinition → Option Secret → Result (Secret × Payload)
  data_of d none = err (plain ("secret not found at path: " ^^ d.path))
  data_of d (some secret) = elim secret.contents [
    | none ↦ err (plain ("no data returned from vault secret for " ^^ d.path))
    | some m ↦ ok (secret, m)
  ]

  abbrev pub status_of : VaultSecretDefinition → Secret → VaultSecretDefinitionStatus
  status_of d secret = record {
    name = d.name;
    lease_id = secret.lease_id;
    lease_duration = pos secret.lease_duration;
    renewable = secret.renewable;
  }

  unfoldable pub read_definition :
      String → VaultSecretDefinition → Action (Session W C) (Secret × Payload)
  read_definition namespace d = do
    client ← get_vault_client e.platform d.authentication d.connection namespace
    secret ← get_secret (e.logical client) d
    of_result (data_of d secret)

  -- The loop over the definitions, which fills `mergedMap` and `definitionsStatus`.
  unfoldable pub read_definitions :
      String
      → List VaultSecretDefinition
      → Payload
      → Action (Session W C) (Payload × List VaultSecretDefinitionStatus)
  read_definitions namespace [] merged = pure (merged, [])
  read_definitions namespace (d ∷ ds) merged = do
    found ← read_definition namespace d
    rest ← read_definitions namespace ds (insert d.name (definition_data found.1) merged)
    pure (rest.0, status_of d found.0 ∷ rest.1)

  -- The part of `manageSyncLogic` that acts on the world alone.
  unfoldable pub sync_world : VaultSecret → Action (Session W C) (List VaultSecretDefinitionStatus)
  sync_world d = do
    found ← read_definitions d.namespace d.spec.vault_secret_definitions end
    secret ← format_k8s_secret d found.0
    create_or_update_resource k8s_secrets e.secrets (some (e.set_controller_reference d))
        d.namespace secret
    pure found.1

  abbrev pub synced :
      ℤ
      → List VaultSecretDefinitionStatus
      → Cell VaultSecret (Session W C)
      → Cell VaultSecret (Session W C)
  synced now stats c = record c {
    object = record (c.object) {
      status = record (c.object.status) {
        last_vault_secret_update = some now;
        vault_secret_definitions_status = some stats;
      };
    };
  }

  unfoldable pub manage_sync_logic : Step (Unit {0})
  manage_sync_logic = do
    c ← get
    stats ← in_world (sync_world c.object)
    now ← time_now
    modify (synced now stats)

  abbrev pub set_next : Option ℤ → Step (Unit {0})
  set_next next = modify (λ c. record c {
    object = record (c.object) {
      status = record (c.object.status) { next_vault_secret_update = next };
    };
  })

  abbrev pub requeue : ℤ → Step Outcome
  requeue next_schedule =
      if ltb_ℤ (pos 0) next_schedule
      then manage_outcome_with_requeue e.objects e.kube none next_schedule
      else manage_outcome_with_requeue e.objects e.kube none (pos 1000000000)

  -- A nil `LastVaultSecretUpdate` is a nil pointer here.
  abbrev pub schedule_for : Option ℤ → Option ℤ → Step Outcome
  schedule_for last none = do set_next none; manage_outcome e.objects e.kube none
  schedule_for none (some duration) = of_result panic
  schedule_for (some last) (some duration) = do
    set_next (some (last +ℤ duration))
    now ← time_now
    requeue (last +ℤ duration -ℤ now)

  unfoldable pub schedule : Step Outcome
  schedule = do
    c ← get
    schedule_for c.object.status.last_vault_secret_update
        (calculate_duration e.lease_share c.object)

  unfoldable pub sync_if_needed : Step (Unit {0})
  sync_if_needed = do needed ← should_sync; if needed then manage_sync_logic else pure tt

  abbrev pub after_sync : Result (Unit {0}) → Step Outcome
  after_sync (ok _) = schedule
  after_sync (err issue) = manage_outcome e.objects e.kube (some issue)
  after_sync panic = of_result panic

  unfoldable pub reconcile_deleted : Step Outcome
  reconcile_deleted c =
      if not (e.objects.contains_finalizer (get_finalizer e.objects c.object) c.object)
      then (ok no_error, c)
      else let (r, c') = manage_clean_up_logic c in
        remove_finalizer e.objects e.kube manage_clean_up_logic sync_if_needed r c'

  unfoldable pub reconcile_living : Step Outcome
  reconcile_living c = let (r, c') = sync_if_needed c in after_sync r c'

  unfoldable pub reconcile_vault_secret : Step Outcome
  reconcile_vault_secret c =
      if e.objects.is_deleting c.object then reconcile_deleted c else reconcile_living c
