-- ===== src/VaultSecret/Sync.antt =====
-- What a sync of a VaultSecret leaves behind, and when the next one comes.
use vault_config_operator.Common.{
  ◌≡◌, refl, ap, sym, ◌∙◌, Bool, not, true, false, Option, none, some, is_some, List, [], ◌∷◌, map,
  if◌then◌else◌, ◌⊎◌, inl, inr,
}
use vault_config_operator.Common.Int.{ℤ}
use vault_config_operator.Common.Action.{
  Error, Result, ok, err, panic, pure, fail, modify, try_result, ◌>>=◌, bind_result,
}
use vault_config_operator.Common.Bind.{bind-ok, ok-inj}
use vault_config_operator.Endpoint.{Cell}
use vault_config_operator.KubeAuth.{Session}
use vault_config_operator.Payload.{Payload}
use vault_config_operator.Resource.{is_not_found}
use vault_config_operator.VaultSecret.{
  Strings, Bytes, VaultSecret, VaultSecretDefinitionStatus, K8sSecret,
}
use vault_config_operator.VaultSecret.Hash.{keys}
use vault_config_operator.VaultSecret.Controller.{
  Environment, render_all, sync_world, manage_sync_logic, synced, time_now, should_sync,
  sync_if_needed, calculate_duration, has_hash, is_mine, judge, is_time, not_owned,
}

module _ {W C Config : Type 0} (e : Environment W C Config) where
  pub render_all-keys :
      (templates : Strings) (m : Payload) (w : Session W C) (bytes : Bytes)
      → (render_all e templates m w).0 ≡ ok bytes
      → keys bytes ≡ map (λ t. t.0) templates
  unfolding render_all
  render_all-keys [] m w bytes h = ap keys (sym (ok-inj h))
  render_all-keys ((k, template) ∷ templates) m w bytes h =
      let (b, _, h1) =
        bind-ok (e.render template m)
          (λ b. render_all e templates m >>= λ rest. pure ((k, b) ∷ rest)) w bytes h in
      let (rest, rendered, h2) =
        bind-ok (render_all e templates m) (λ rest. pure ((k, b) ∷ rest)) (e.render template m w).1
          bytes h1 in
      ap keys (sym (ok-inj h2))
      ∙ ap (λ ks. k ∷ ks) (render_all-keys templates m (e.render template m w).1 rest rendered)

  sync_fails :
      (c : Cell VaultSecret (Session W C)) (r : Result (List VaultSecretDefinitionStatus))
      (w : Session W C)
      → ((bind_result
            (λ stats. time_now e >>= λ now. modify (synced e now stats))
            r
            (record c { world = w })).0
          ≡ ok tt)
        ⊎ ((bind_result
              (λ stats. time_now e >>= λ now. modify (synced e now stats))
              r
              (record c { world = w })).1.object
            ≡ c.object)
  sync_fails c (ok stats) w = inl refl
  sync_fails c (err issue) w = inr refl
  sync_fails c panic w = inr refl

  -- A sync that does not succeed leaves the VaultSecret as it was: the time of the last sync and
  -- the leases that it remembers are still those of the last one that succeeded.
  pub manage_sync_logic-fails :
      (c : Cell VaultSecret (Session W C))
      → ((manage_sync_logic e c).0 ≡ ok tt) ⊎ ((manage_sync_logic e c).1.object ≡ c.object)
  unfolding manage_sync_logic
  manage_sync_logic-fails c =
      sync_fails c (sync_world e c.object c.world).0 (sync_world e c.object c.world).1

  abbrev pub IsTimed : VaultSecret → Type 0
  IsTimed d = is_some d.status.last_vault_secret_update ≡ true

  manage_sync_logic-IsTimed :
      (c : Cell VaultSecret (Session W C))
      → (manage_sync_logic e c).0 ≡ ok tt
      → IsTimed (manage_sync_logic e c).1.object
  unfolding manage_sync_logic
  manage_sync_logic-IsTimed c h =
      timed (sync_world e c.object c.world).0 (sync_world e c.object c.world).1 h
    where
      timed :
          (r : Result (List VaultSecretDefinitionStatus)) (w : Session W C)
          → (bind_result
              (λ stats. time_now e >>= λ now. modify (synced e now stats))
              r
              (record c { world = w })).0
            ≡ ok tt
          → IsTimed
              (bind_result
                (λ stats. time_now e >>= λ now. modify (synced e now stats))
                r
                (record c { world = w })).1.object
      timed (ok stats) w h = refl
      timed (err issue) w h = cc
      timed panic w h = cc

  -- A verdict does not change the VaultSecret, and it is no only if there was a sync before.
  abbrev IsSound :
      Option ℤ
      → Cell VaultSecret (Session W C)
      → Result Bool × Cell VaultSecret (Session W C)
      → Type 0
  IsSound last c p = (p.1.object ≡ c.object) × (p.0 ≡ ok false → is_some last ≡ true)

  is_time-IsSound :
      (last duration : Option ℤ) (c : Cell VaultSecret (Session W C))
      → IsSound last c (is_time e last duration c)
  is_time-IsSound none duration c = (refl, λ h. cc)
  is_time-IsSound (some last) none c = (refl, λ h. refl)
  is_time-IsSound (some last) (some duration) c = (refl, λ h. refl)

  owned-IsSound :
      (d : VaultSecret) (last duration : Option ℤ) (mine hashed : Bool)
      (c : Cell VaultSecret (Session W C))
      → IsSound last c (
          (if not mine
              then fail (not_owned e d)
              else if not hashed
              then pure true
              else is_time e last duration)
            c)
  owned-IsSound d last duration false hashed c = (refl, λ h. cc)
  owned-IsSound d last duration true false c = (refl, λ h. cc)
  owned-IsSound d last duration true true c = is_time-IsSound last duration c

  absent-IsSound :
      (last : Option ℤ) (issue : Error) (missing : Bool) (c : Cell VaultSecret (Session W C))
      → IsSound last c ((if missing then pure true else fail issue) c)
  absent-IsSound last issue true c = (refl, λ h. cc)
  absent-IsSound last issue false c = (refl, λ h. cc)

  judge-IsSound :
      (d : VaultSecret) (r : Result K8sSecret) (c : Cell VaultSecret (Session W C))
      → IsSound d.status.last_vault_secret_update c (judge e d r c)
  judge-IsSound d (ok secret) c =
      owned-IsSound d d.status.last_vault_secret_update (calculate_duration e.lease_share d)
        (is_mine e d secret) (has_hash e secret) c
  judge-IsSound d (err issue) c =
      absent-IsSound d.status.last_vault_secret_update issue (is_not_found issue) c
  judge-IsSound d panic c = (refl, λ h. cc)

  should_sync-IsSound :
      (c : Cell VaultSecret (Session W C))
      → IsSound c.object.status.last_vault_secret_update c (should_sync e c)
  unfolding should_sync
  should_sync-IsSound c =
      let found =
        e.secrets.get c.object.namespace c.object.spec.templatized_k8s_secret.name c.world in
      sound found.0 (record c { world = found.1 })
    where
      sound :
          (r : Result K8sSecret) (c' : Cell VaultSecret (Session W C))
          → IsSound c.object.status.last_vault_secret_update c'
              (bind_result (judge e c.object) (try_result r) c')
      sound (ok secret) c' = judge-IsSound c.object (ok secret) c'
      sound (err issue) c' = judge-IsSound c.object (err issue) c'
      sound panic c' = judge-IsSound c.object panic c'

  -- When the step that syncs where it is needed has ended without an error, the time of a sync is
  -- noted in the VaultSecret: the time of the next one is calculated from it, never from nil.
  pub sync_if_needed-IsTimed :
      (c : Cell VaultSecret (Session W C))
      → (sync_if_needed e c).0 ≡ ok tt
      → IsTimed (sync_if_needed e c).1.object
  unfolding sync_if_needed
  sync_if_needed-IsTimed c h =
      let (same, timed) = should_sync-IsSound c in
      synced_timed (should_sync e c).0 (should_sync e c).1
        (λ k. ap (λ d. is_some d.status.last_vault_secret_update) same ∙ timed k) h
    where
      synced_timed :
          (r : Result Bool) (c' : Cell VaultSecret (Session W C))
          → (r ≡ ok false → IsTimed c'.object)
          → (bind_result (λ needed. if needed then manage_sync_logic e else pure tt) r c').0 ≡ ok tt
          → IsTimed
              (bind_result
                (λ needed. if needed then manage_sync_logic e else pure tt)
                r
                c').1.object
      synced_timed (ok true) c' timed h = manage_sync_logic-IsTimed c' h
      synced_timed (ok false) c' timed h = timed refl
      synced_timed (err issue) c' timed h = cc
      synced_timed panic c' timed h = cc
