-- ===== src/Database/Rotation.antt =====
-- The rotation of a database's root password.
use vault_config_operator.Common.{
  ◌≡◌, refl, ap, sym, ◌∙◌, Bool, true, false, Option, none, some, ◌⊎◌, inl, inr,
}
use vault_config_operator.Common.Int.{ℤ, pos, eqb_ℤ, ◌-ℤ◌}
use vault_config_operator.Common.Action.{Result, ok, err, panic, pure, ◌>>=◌, ◌>>◌}
use vault_config_operator.Common.Bind.{bind-ok, bind-at}
use vault_config_operator.Vault.{Vault, Secret}
use vault_config_operator.Endpoint.{Cell, in_world}
use vault_config_operator.Outcome.{KubeObject, Kube, ends_well, manage_outcome, get_finalizer}
use vault_config_operator.Outcome.Api.{IsApi}
use vault_config_operator.Outcome.Recorded.{manage_outcome-ends_well}
use vault_config_operator.Reconcile.{reconcile_resource, reconcile, reconcile_deleted}
use vault_config_operator.Database.{
  DatabaseSecretEngineConfig, RootPasswordRotation, get_root_password_rotation_path,
}
use vault_config_operator.Database.Retrieval.{Lookups}
use vault_config_operator.Database.Controller.{
  rotate, rotate_root_password, after_rotation, rotate_for, rotate_if_due, reconcile_database,
  time_now, set_rotated, requeued,
}

module _ {W P A : Type 0} (x : KubeObject DatabaseSecretEngineConfig)
    (k : Kube DatabaseSecretEngineConfig W) (v : Vault W) (l : Lookups W)
    (nearly_over : ℤ → ℤ → Bool) (at : W → P → A) (api : IsApi x k at)
    (keeps : (c : Cell DatabaseSecretEngineConfig W)
      → (k.status_update c).1.object.status.last_root_password_rotation
        ≡ c.object.status.last_root_password_rotation) where
  -- The write of nil at the object's rotation path.
  abbrev call : Cell DatabaseSecretEngineConfig W → Result (Option Secret) × W
  call c = v.logical_write (get_root_password_rotation_path c.object) none c.world

  -- What a rotation that begins at `c` and ends at `c'` has done: Vault has taken the call and is as
  -- the call leaves it, wherever one looks, and the object notes the clock's time after the call.
  abbrev pub IsRotated :
      Cell DatabaseSecretEngineConfig W → Cell DatabaseSecretEngineConfig W → Type 0
  IsRotated c c' =
      (answer : Option Secret) × ((call c).0 ≡ ok answer)
      × ((p : P) → at c'.world p ≡ at (call c).1 p)
      × (c'.object.status.last_root_password_rotation ≡ some (k.now (call c).1).0)

  -- A rotation is due, in the world `w` that the look at the clock leaves: there was none, or nearly
  -- all of a period that is not zero has passed since the last one.
  abbrev pub IsDue : RootPasswordRotation → Cell DatabaseSecretEngineConfig W → W → Type 0
  IsDue rotation c w =
      ((c.object.status.last_root_password_rotation ≡ none) × (w ≡ c.world))
      ⊎ ((last : ℤ) × (c.object.status.last_root_password_rotation ≡ some last)
          × (eqb_ℤ rotation.rotation_period (pos 0) ≡ false)
          × (nearly_over ((k.now c.world).0 -ℤ last) rotation.rotation_period ≡ true)
          × (w ≡ (k.now c.world).1))

  abbrev noted : Cell DatabaseSecretEngineConfig W → Cell DatabaseSecretEngineConfig W
  noted c =
      let (now, w) = k.now c.world in
      (set_rotated x k v l nearly_over now (record c { world = w })).1

  rotate-ok :
      (c : Cell DatabaseSecretEngineConfig W)
      → (rotate x k v l nearly_over c).0 ≡ ok tt
      → (answer : Option Secret) × ((call c).0 ≡ ok answer)
        × ((rotate x k v l nearly_over c).1 ≡ record c { world = (call c).1 })
  unfolding rotate
  rotate-ok c h =
      let write = in_world (v.logical_write (get_root_password_rotation_path c.object) none) in
      let (answer, taken, _) = bind-ok write (λ _. pure tt) c tt h in
      (answer, taken, ap (λ p. p.1) (bind-at write (λ _. pure tt) c answer taken))

  rotate_root_password-IsRotated :
      (c : Cell DatabaseSecretEngineConfig W)
      → (rotate_root_password x k v l nearly_over c).0 ≡ ok tt
      → IsRotated c (rotate_root_password x k v l nearly_over c).1
  unfolding rotate_root_password
  rotate_root_password-IsRotated c h =
      let rest = time_now x k v l nearly_over >>= λ now.
      set_rotated x k v l nearly_over now >> k.status_update in
      let (_, done, _) = bind-ok (rotate x k v l nearly_over) (λ _. rest) c tt h in
      let (answer, taken, there) = rotate-ok c done in
      let c₁ : Cell DatabaseSecretEngineConfig W = record c { world = (call c).1 } in
      let run : rotate_root_password x k v l nearly_over c ≡ k.status_update (noted c₁) =
        bind-at (rotate x k v l nearly_over) (λ _. rest) c tt done ∙ ap rest there in
      rw run
        (answer, taken, λ p. api.status_at p (noted c₁) ∙ api.now_at p (call c).1, keeps (noted c₁))

  after_rotation-IsRotated :
      (period : ℤ) (r : Result (Unit {0})) (c c₁ : Cell DatabaseSecretEngineConfig W)
      → (r ≡ ok tt → IsRotated c c₁)
      → ends_well (after_rotation x k v l nearly_over period r c₁).0 ≡ true
      → IsRotated c (after_rotation x k v l nearly_over period r c₁).1
        × ((after_rotation x k v l nearly_over period r c₁).0
            ≡ ok (requeued x k v l nearly_over period))
  unfolding manage_outcome
  after_rotation-IsRotated period (ok _) c c₁ rotated h = (rotated refl, refl)
  after_rotation-IsRotated period (err issue) c c₁ rotated h =
      absurd (ends (manage_outcome-ends_well x k at api issue (pos 0) c₁ "").0)
    where
      ends : ends_well (after_rotation x k v l nearly_over period (err issue) c₁).0 ≡ false → ⊥
      ends e = cc
  after_rotation-IsRotated period panic c c₁ rotated h = cc

  rotate_for-IsRotated :
      (period : ℤ) (c : Cell DatabaseSecretEngineConfig W)
      → ends_well (rotate_for x k v l nearly_over period c).0 ≡ true
      → IsRotated c (rotate_for x k v l nearly_over period c).1
        × ((rotate_for x k v l nearly_over period c).0 ≡ ok (requeued x k v l nearly_over period))
  rotate_for-IsRotated period c h =
      after_rotation-IsRotated period (rotate_root_password x k v l nearly_over c).0 c
        (rotate_root_password x k v l nearly_over c).1 (rotate_root_password-IsRotated c) h

  rotate_if_due-starts :
      (c : Cell DatabaseSecretEngineConfig W) (rotation : RootPasswordRotation) (w : W)
      → c.object.spec.dbse_config.root_password_rotation ≡ some rotation
      → rotation.enable ≡ true
      → IsDue rotation c w
      → rotate_if_due x k v l nearly_over c
        ≡ rotate_for x k v l nearly_over rotation.rotation_period (record c { world = w })
  unfolding rotate_if_due
  rotate_if_due-starts c rotation w given enabled (inl (first, same)) =
      rw (given, enabled, first, same) refl
  rotate_if_due-starts c rotation w given enabled (inr (last, before, periodic, over, same)) =
      rw (given, enabled, before, periodic, over, same) refl

  -- Where the rotation of the root password is enabled and due, and the API server keeps the noted
  -- time and leaves Vault alone: a step that ends well has made the call by which Vault rotates the
  -- password, which is all it has changed in Vault; it notes the time and asks to come again after
  -- the period. The first rotation is due at once.
  pub rotate_if_due-IsRotated :
      (c : Cell DatabaseSecretEngineConfig W) (rotation : RootPasswordRotation) (w : W)
      → c.object.spec.dbse_config.root_password_rotation ≡ some rotation
      → rotation.enable ≡ true
      → IsDue rotation c w
      → ends_well (rotate_if_due x k v l nearly_over c).0 ≡ true
      → IsRotated (record c { world = w }) (rotate_if_due x k v l nearly_over c).1
        × ((rotate_if_due x k v l nearly_over c).0
            ≡ ok (requeued x k v l nearly_over rotation.rotation_period))
  rotate_if_due-IsRotated c rotation w given enabled due h =
      let run = rotate_if_due-starts c rotation w given enabled due in
      rw run (
        rotate_for-IsRotated rotation.rotation_period (record c { world = w })
          (ap (λ p. ends_well p.0) (sym run) ∙ h))

  released :
      (c : Cell DatabaseSecretEngineConfig W)
      → x.is_deleting c.object ≡ true
      → x.contains_finalizer (get_finalizer x c.object) c.object ≡ false
      → reconcile_database x k v l nearly_over c ≡ rotate_if_due x k v l nearly_over c
  unfolding reconcile_database reconcile_resource reconcile reconcile_deleted
  released c deleting gone = rw (deleting, gone) refl

  -- A resource in deletion that has lost its finalizer is still rotated: where the rotation is
  -- enabled and due, and under the same conditions on the API server, a cycle that ends well has
  -- made the call, which is all it has changed in Vault, has noted the time and asks to come again
  -- after the period.
  pub reconcile_database_deleted-IsRotated :
      (c : Cell DatabaseSecretEngineConfig W) (rotation : RootPasswordRotation) (w : W)
      → x.is_deleting c.object ≡ true
      → x.contains_finalizer (get_finalizer x c.object) c.object ≡ false
      → c.object.spec.dbse_config.root_password_rotation ≡ some rotation
      → rotation.enable ≡ true
      → IsDue rotation c w
      → ends_well (reconcile_database x k v l nearly_over c).0 ≡ true
      → IsRotated (record c { world = w }) (reconcile_database x k v l nearly_over c).1
        × ((reconcile_database x k v l nearly_over c).0
            ≡ ok (requeued x k v l nearly_over rotation.rotation_period))
  reconcile_database_deleted-IsRotated c rotation w deleting gone given enabled due h =
      let run = released c deleting gone in
      rw run (
        rotate_if_due-IsRotated c rotation w given enabled due
          (ap (λ p. ends_well p.0) (sym run) ∙ h))
