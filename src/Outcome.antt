-- ===== src/Outcome.antt =====
-- `ManageOutcomeWithRequeue` of controllers/vaultresourcecontroller/utils.go: how the end of a
-- reconcile cycle is recorded in the object and in the API server.
pub mod Api
pub mod Recorded
mod Tests
use Prim.Native.Char.{Char, code}
use Prim.Native.String
use Prim.Native.String.{◌∷◌}
use vault_config_operator.Common.{
  ℕ, String, Bool, true, false, not, ◌&&◌, Option, none, some, List, if◌then◌else◌, ◌==◌,
}
use vault_config_operator.Common.Int.{ℤ, pos}
use vault_config_operator.Common.Action.{
  Error, Result, ok, err, panic, Action, pure, get, modify, try, ◌>>=◌, ◌>>◌,
}
use vault_config_operator.Common.Text.{◌^^◌}
use vault_config_operator.Endpoint.{Cell, in_world}
use vault_config_operator.Conditions.{
  Condition, add_or_replace_condition, reconcile_successful, reconcile_successful_reason,
  reconcile_failed, reconcile_failed_reason, condition_true, condition_false,
}

-- An object of the API server, as `client.Object`, `ConditionsAware` and the functions of
-- `controllerutil` on finalizers show it. `deletable` is `IsDeletable`, where the object is a
-- `VaultObject`, and `is_deleting` says that there is a deletion timestamp.
pub record KubeObject (O : Type 0) : Type 0 where
  pub get_kind : O → String
  pub get_generation : O → ℤ
  pub is_deleting : O → Bool
  pub get_conditions : O → List Condition
  pub set_conditions : List Condition → O → O
  pub contains_finalizer : String → O → Bool
  pub add_finalizer : String → O → O
  pub remove_finalizer : String → O → O
  pub deletable : O → Option Bool

-- The Kubernetes client, clock and event recorder. `Update` and `Status().Update` also write the
-- server's answer to the object.
pub record Kube (O W : Type 0) : Type 0 where
  pub update : Action (Cell O W) (Unit {0})
  pub status_update : Action (Cell O W) (Unit {0})
  pub record_event : O → String → W → W
  pub now : W → ℤ × W
  pub error_text : Error → String

abbrev lower_in : String → String → Char → Char
lower_in String.[] l c = c
lower_in (u ∷ us) String.[] c = c
lower_in (u ∷ us) (l ∷ ls) c = if code c == code u then l else lower_in us ls c

-- `strings.ToLower` on the ASCII names of kinds.
unfoldable pub to_lower : String → String
to_lower String.[] = String.[]
to_lower (c ∷ s) = lower_in "ABCDEFGHIJKLMNOPQRSTUVWXYZ" "abcdefghijklmnopqrstuvwxyz" c ∷ to_lower s

-- `reconcile.Result` and the error of a reconcile function.
pub record Outcome : Type 0 where
  pub requeue_after : ℤ
  pub error : Option Error

abbrev pub no_error : Outcome
no_error = record { requeue_after = pos 0; error = none }

abbrev pub failed : Error → Outcome
failed e = record { requeue_after = pos 0; error = some e }

abbrev pub is_nil : Option Error → Bool
is_nil none = true
is_nil (some e) = false

-- A reconcile function that returned, with a nil error.
abbrev pub ends_well : Result Outcome → Bool
ends_well (ok o) = is_nil o.error
ends_well _ = false

-- `!IsDeletable()` keeps the finalizer away; what is no `VaultObject` always gets one.
abbrev pub wants_finalizer : Option Bool → Bool
wants_finalizer none = true
wants_finalizer (some b) = b

module _ {O : Type 0} (x : KubeObject O) where
  unfoldable pub get_finalizer : O → String
  get_finalizer o = "controller-" ^^ to_lower (x.get_kind o)

  abbrev pub lacks_finalizer : Option Error → O → Bool
  lacks_finalizer issue o =
      wants_finalizer (x.deletable o)
      && (is_nil issue && not (x.contains_finalizer (get_finalizer o) o))

abbrev pub outcome_of : Result (Unit {0}) → Outcome → Result Outcome
outcome_of (ok _) o = ok o
outcome_of (err e) o = ok (failed e)
outcome_of panic o = panic

module _ {O W : Type 0} (x : KubeObject O) (k : Kube O W) where
  -- The condition that records how the cycle ended; a failure is announced as an event too.
  abbrev pub outcome_condition : Option Error → ℤ → ℤ → Condition
  outcome_condition none generation time = record {
    kind = reconcile_successful;
    status = condition_true;
    observed_generation = generation;
    last_transition_time = time;
    reason = reconcile_successful_reason;
    message = "";
  }
  outcome_condition (some issue) generation time = record {
    kind = reconcile_failed;
    status = condition_false;
    observed_generation = generation;
    last_transition_time = time;
    reason = reconcile_failed_reason;
    message = k.error_text issue;
  }

  abbrev pub announce : O → Option Error → W → W
  announce o none w = w
  announce o (some issue) w = k.record_event o (k.error_text issue) w

  -- The object with the new condition, before it is sent to the API server.
  unfoldable pub record_condition : Option Error → Action (Cell O W) (Unit {0})
  record_condition issue c =
      let (time, w) = k.now (announce c.object issue c.world) in
      let condition = outcome_condition issue (x.get_generation c.object) time in
      (
        ok tt,
        record {
          object =
              x.set_conditions (add_or_replace_condition condition (x.get_conditions c.object))
                c.object;
          world = w;
        },
      )

  unfoldable pub ensure_finalizer : Option Error → Action (Cell O W) (Unit {0})
  ensure_finalizer issue = do
    c ← get
    if lacks_finalizer x issue c.object
        then (modify
              (λ c. record c { object = x.add_finalizer (get_finalizer x c.object) c.object })
            >> k.update)
        else pure tt

  -- What follows the update of the status.
  abbrev pub finish : Option Error → ℤ → Result (Unit {0}) → Action (Cell O W) Outcome
  finish issue requeue_after (err e) c = (ok (failed e), c)
  finish issue requeue_after panic c = (panic, c)
  finish issue requeue_after (ok _) c =
      let (r, c') = ensure_finalizer issue c in
      (outcome_of r (record { requeue_after = requeue_after; error = issue }), c')

  unfoldable pub manage_outcome_with_requeue : Option Error → ℤ → Action (Cell O W) Outcome
  manage_outcome_with_requeue issue requeue_after = do
    record_condition issue
    λ c. let (updated, c') = k.status_update c in finish issue requeue_after updated c'

  unfoldable pub manage_outcome : Option Error → Action (Cell O W) Outcome
  manage_outcome issue = manage_outcome_with_requeue issue (pos 0)
