-- ===== src/RandomSecret/Controller.antt =====
-- The reconciler of RandomSecrets: controllers/randomsecret_controller.go, from the prepared
-- context on. Times and periods are integers of nanoseconds, which do not overflow here.
use vault_config_operator.Common.{
  Bool, true, false, not, ◌&&◌, Option, none, some, is_some, if◌then◌else◌, str_eq,
}
use vault_config_operator.Common.Int.{ℤ, pos, ◌+ℤ◌, ◌-ℤ◌, ltb_ℤ}
use vault_config_operator.Common.Action.{
  Result, ok, err, panic, Action, pure, of_result, get, modify, try, ◌>>=◌, ◌>>◌,
}
use vault_config_operator.Vault.{Vault}
use vault_config_operator.Endpoint.{Cell, exists, create, delete_if_exists, delete_kvv2_if_exists}
use vault_config_operator.Outcome.{
  KubeObject, Kube, Outcome, no_error, get_finalizer, manage_outcome, manage_outcome_with_requeue,
}
use vault_config_operator.Reconcile.{report_removal, without_finalizer}
use vault_config_operator.RandomSecret.{RandomSecret, Runtime, retain_kv_secret_retain_policy}
use vault_config_operator.RandomSecret.Password.{ByteSets, random_secrets}

-- The time at which a secret is due again: none where there is no refresh period, or where the
-- secret has never been written.
abbrev pub next_refresh : Option ℤ → Option ℤ → Option ℤ
next_refresh (some last) (some period) = some (last +ℤ period)
next_refresh _ _ = none

-- The test at the start of both `Reconcile` and `manageReconcileLogic`: the secret was written, and
-- it is never written again or not yet.
abbrev pub is_current : Option ℤ → Option ℤ → ℤ → Bool
is_current none period now = false
is_current (some last) none now = true
is_current (some last) (some period) now = not (ltb_ℤ (last +ℤ period) now)

abbrev pub found_of : Result Bool → Result Bool
found_of (ok found) = ok found
found_of (err issue) = ok false
found_of panic = panic

module _ {S W : Type 0} (x : KubeObject RandomSecret) (k : Kube RandomSecret W) (v : Vault W)
    (b : ByteSets S) (e : Runtime W) where
  abbrev pub time_now : Action (Cell RandomSecret W) ℤ
  time_now c = let (t, w) = k.now c.world in (ok t, record c { world = w })

  abbrev pub is_up_to_date : ℤ → RandomSecret → Bool
  is_up_to_date now d = is_current d.status.last_vault_secret_update d.spec.refresh_period now

  unfoldable pub manage_clean_up_logic : Action (Cell RandomSecret W) (Unit {0})
  manage_clean_up_logic = do
    c ← get
    if str_eq c.object.spec.kv_secret_retain_policy retain_kv_secret_retain_policy
        then pure tt
        else if c.object.spec.is_kv_secrets_engine_v2
        then delete_kvv2_if_exists v (random_secrets b e v)
        else delete_if_exists v (random_secrets b e v)

  -- A secret without a refresh period that has never been written is not to replace one that is
  -- there already. An error of the test is logged only.
  unfoldable pub is_taken : Action (Cell RandomSecret W) Bool
  is_taken = do
    c ← get
    if not (is_some c.object.status.last_vault_secret_update)
          && not (is_some c.object.spec.refresh_period)
        then (do answer ← try (exists v (random_secrets b e v)); of_result (found_of answer))
        else pure false

  abbrev pub set_updated : ℤ → Cell RandomSecret W → Cell RandomSecret W
  set_updated now c = record c {
    object = record (c.object) {
      status = record (c.object.status) { last_vault_secret_update = some now };
    };
  }

  unfoldable pub write_new_secret : Action (Cell RandomSecret W) (Unit {0})
  write_new_secret = do
    (random_secrets b e v).prepare_internal_values
    create v (random_secrets b e v)
    now ← time_now
    modify (set_updated now)

  unfoldable pub manage_reconcile_logic : Action (Cell RandomSecret W) (Unit {0})
  manage_reconcile_logic = do
    c ← get
    now ←
        (if is_some c.object.status.last_vault_secret_update && is_some c.object.spec.refresh_period
          then time_now
          else pure (pos 0))
    if is_up_to_date now c.object
        then pure tt
        else do taken ← is_taken; if taken then pure tt else write_new_secret

  abbrev pub due_in : Option ℤ → ℤ → Result ℤ
  due_in none now = panic
  due_in (some t) now = ok (t -ℤ now)

  -- `ManageOutcomeWithRequeue` runs twice where the next refresh is in the future.
  unfoldable pub schedule : Action (Cell RandomSecret W) Outcome
  schedule = do
    c ← get
    if ltb_ℤ (pos 0) (e.duration_size c.object.spec.refresh_period)
        then (do
          now ← time_now
          next_schedule ← of_result (
              due_in
                (next_refresh c.object.status.last_vault_secret_update c.object.spec.refresh_period)
                now)
          if ltb_ℤ (pos 0) next_schedule
              then (do
                manage_outcome_with_requeue x k none next_schedule
                manage_outcome_with_requeue x k none next_schedule)
              else manage_outcome_with_requeue x k none (pos 1000000000))
        else manage_outcome x k none

  abbrev pub after_logic : Result (Unit {0}) → Action (Cell RandomSecret W) Outcome
  after_logic (ok _) c = schedule c
  after_logic (err issue) c = manage_outcome x k (some issue) c
  after_logic panic c = (panic, c)

  abbrev pub after_clean_up : Result (Unit {0}) → Action (Cell RandomSecret W) Outcome
  after_clean_up (ok _) c =
      let (r, c') =
        k.update (without_finalizer x k manage_clean_up_logic manage_reconcile_logic c) in
      report_removal x k manage_clean_up_logic manage_reconcile_logic r c'
  after_clean_up (err issue) c = manage_outcome x k (some issue) c
  after_clean_up panic c = (panic, c)

  unfoldable pub reconcile_deleted : Action (Cell RandomSecret W) Outcome
  reconcile_deleted c =
      if not (x.contains_finalizer (get_finalizer x c.object) c.object)
      then (ok no_error, c)
      else let (r, c') = manage_clean_up_logic c in after_clean_up r c'

  unfoldable pub reconcile_living : Action (Cell RandomSecret W) Outcome
  reconcile_living = do
    c ← get
    now ←
        (if is_some c.object.status.last_vault_secret_update && is_some c.object.spec.refresh_period
          then time_now
          else pure (pos 0))
    if is_up_to_date now c.object then pure no_error else λ c.
        let (r, c') = manage_reconcile_logic c in after_logic r c'

  unfoldable pub reconcile_random_secret : Action (Cell RandomSecret W) Outcome
  reconcile_random_secret c =
      if x.is_deleting c.object then reconcile_deleted c else reconcile_living c
