-- ===== src/Database/Controller.antt =====
-- The reconciler of DatabaseSecretEngineConfigs: controllers/databasesecretengineconfig_controller.go,
-- from the prepared context on. The test on floating point numbers, whether more than 95 percent of
-- a period have passed, is a parameter.
use vault_config_operator.Common.{Bool, not, Option, none, some, if◌then◌else◌}
use vault_config_operator.Common.Int.{ℤ, pos, ◌+ℤ◌, ◌-ℤ◌, eqb_ℤ}
use vault_config_operator.Common.Action.{
  Result, ok, err, panic, Action, pure, of_result, get, modify, ◌>>=◌, ◌>>◌,
}
use vault_config_operator.Vault.{Vault}
use vault_config_operator.Endpoint.{Cell, VaultObject, in_world}
use vault_config_operator.Outcome.{KubeObject, Kube, Outcome, no_error, failed, manage_outcome}
use vault_config_operator.Reconcile.{reconcile_resource}
use vault_config_operator.Database.{
  DatabaseSecretEngineConfig, RootPasswordRotation, get_path, to_map,
  is_equivalent_to_desired_state, get_root_password_rotation_path,
}
use vault_config_operator.Database.Retrieval.{Lookups, set_internal_credentials}

module _ {W : Type 0} (x : KubeObject DatabaseSecretEngineConfig)
    (k : Kube DatabaseSecretEngineConfig W) (v : Vault W) (l : Lookups W)
    (nearly_over : ℤ → ℤ → Bool) where
  abbrev pub Step : Type 0 → Type 0
  Step A = Action (Cell DatabaseSecretEngineConfig W) A

  abbrev pub databases : VaultObject DatabaseSecretEngineConfig W
  databases = record {
    get_path = λ d. get_path d;
    get_payload = λ d. to_map d.spec.dbse_config;
    is_equivalent_to_desired_state = λ d payload. is_equivalent_to_desired_state d payload;
    prepare_internal_values = set_internal_credentials v l;
    prepare_tls_config = λ c. (ok tt, c);
  }

  abbrev pub time_now : Step ℤ
  time_now c = let (t, w) = k.now c.world in (ok t, record c { world = w })

  abbrev pub set_rotated : ℤ → Step (Unit {0})
  set_rotated now = modify (λ c. record c {
    object = record (c.object) {
      status = record (c.object.status) { last_root_password_rotation = some now };
    };
  })

  -- `RotateRootPassword` of the resource: a write of nil.
  unfoldable pub rotate : Step (Unit {0})
  rotate = do
    c ← get
    _ ← in_world (v.logical_write (get_root_password_rotation_path c.object) none)
    pure tt

  unfoldable pub rotate_root_password : Step (Unit {0})
  rotate_root_password = do rotate; now ← time_now; set_rotated now; k.status_update

  abbrev pub requeued : ℤ → Outcome
  requeued requeue_after = record { requeue_after = requeue_after; error = none }

  abbrev pub after_rotation : ℤ → Result (Unit {0}) → Step Outcome
  after_rotation period (ok _) = pure (requeued period)
  after_rotation period (err issue) = manage_outcome x k (some issue)
  after_rotation period panic = of_result panic

  -- A rotation, which comes again after the period; a period of zero is no request to come again.
  abbrev pub rotate_for : ℤ → Step Outcome
  rotate_for period c = let (r, c') = rotate_root_password c in after_rotation period r c'

  abbrev pub rotate_again : ℤ → ℤ → Step Outcome
  rotate_again last period = do
    now ← time_now
    if nearly_over (now -ℤ last) period
        then rotate_for period
        else (do now ← time_now; pure (requeued (last +ℤ period -ℤ now)))

  abbrev pub rotate_when : Option ℤ → ℤ → Step Outcome
  rotate_when none period = rotate_for period
  rotate_when (some last) period =
      if not (eqb_ℤ period (pos 0)) then rotate_again last period else pure no_error

  abbrev pub rotate_as : Option RootPasswordRotation → Option ℤ → Step Outcome
  rotate_as none last = pure no_error
  rotate_as (some rotation) last =
      if rotation.enable then rotate_when last rotation.rotation_period else pure no_error

  -- What follows a successful cycle.
  unfoldable pub rotate_if_due : Step Outcome
  rotate_if_due = do
    c ← get
    rotate_as c.object.spec.dbse_config.root_password_rotation
        c.object.status.last_root_password_rotation

  abbrev pub after_reconcile : Outcome → Step Outcome
  after_reconcile outcome = elim outcome.error [
    | none ↦ rotate_if_due
    | some issue ↦ pure (failed issue)
  ]

  unfoldable pub reconcile_database : Step Outcome
  reconcile_database = do outcome ← reconcile_resource x k v databases; after_reconcile outcome
