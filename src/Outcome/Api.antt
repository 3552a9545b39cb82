-- ===== src/Outcome/Api.antt =====
-- What the operator relies on of the API server and of `controllerutil`.
use vault_config_operator.Common.{String, ◌≡◌, true, false, List}
use vault_config_operator.Endpoint.{Cell}
use vault_config_operator.Conditions.{Condition}
use vault_config_operator.Outcome.{KubeObject, Kube}

-- The parts of an object are kept apart: a change of one is seen in that one alone.
pub record IsObject {O : Type 0} (x : KubeObject O) : Type 0 where
  pub conditions_set : (cs : List Condition) (o : O) → x.get_conditions (x.set_conditions cs o) ≡ cs
  pub kind_set : (cs : List Condition) (o : O) → x.get_kind (x.set_conditions cs o) ≡ x.get_kind o
  pub deletable_set :
      (cs : List Condition) (o : O) → x.deletable (x.set_conditions cs o) ≡ x.deletable o
  pub finalizer_set :
      (f : String) (cs : List Condition) (o : O)
      → x.contains_finalizer f (x.set_conditions cs o) ≡ x.contains_finalizer f o
  pub kind_add : (f : String) (o : O) → x.get_kind (x.add_finalizer f o) ≡ x.get_kind o
  pub finalizer_add : (f : String) (o : O) → x.contains_finalizer f (x.add_finalizer f o) ≡ true
  pub kind_remove : (f : String) (o : O) → x.get_kind (x.remove_finalizer f o) ≡ x.get_kind o
  pub finalizer_remove :
      (f : String) (o : O) → x.contains_finalizer f (x.remove_finalizer f o) ≡ false

-- An update answers with the object that was sent, as far as its kind, its finalizers and whether
-- it may be deleted go, and no call of the API server changes what is observed at a place (of Vault, or
-- of the API server, for objects of another kind).
pub record IsApi {O W P A : Type 0} (x : KubeObject O) (k : Kube O W) (at : W → P → A)
    : Type 0 where
  pub object : IsObject x
  pub update_kind : (c : Cell O W) → x.get_kind (k.update c).1.object ≡ x.get_kind c.object
  pub update_finalizer :
      (f : String) (c : Cell O W)
      → x.contains_finalizer f (k.update c).1.object ≡ x.contains_finalizer f c.object
  pub status_kind : (c : Cell O W) → x.get_kind (k.status_update c).1.object ≡ x.get_kind c.object
  pub status_deletable :
      (c : Cell O W) → x.deletable (k.status_update c).1.object ≡ x.deletable c.object
  pub status_finalizer :
      (f : String) (c : Cell O W)
      → x.contains_finalizer f (k.status_update c).1.object ≡ x.contains_finalizer f c.object
  pub update_at : (p : P) (c : Cell O W) → at (k.update c).1.world p ≡ at c.world p
  pub status_at : (p : P) (c : Cell O W) → at (k.status_update c).1.world p ≡ at c.world p
  pub event_at : (p : P) (o : O) (text : String) (w : W) → at (k.record_event o text w) p ≡ at w p
  pub now_at : (p : P) (w : W) → at (k.now w).1 p ≡ at w p
