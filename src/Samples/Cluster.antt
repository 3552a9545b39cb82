-- ===== src/Samples/Cluster.antt =====
-- A resource with its conditions and finalizers, and an API server that answers with what it is sent.
use vault_config_operator.Common.{
  String, ◌≡◌, refl, Bool, true, false, some, List, [], ◌∷◌, arith, if◌then◌else◌, str_eq, any,
  eq_refl,
}
use vault_config_operator.Common.Int.{pos}
use vault_config_operator.Common.Action.{ok}
use vault_config_operator.Payload.{Payload, end, field, str, map_equal}
use vault_config_operator.Endpoint.{VaultObject}
use vault_config_operator.Conditions.{Condition}
use vault_config_operator.Outcome.{KubeObject, Kube, wants_finalizer}
use vault_config_operator.Outcome.Api.{IsObject, IsApi}
use vault_config_operator.Samples.Memory.{Store, stored_at}

pub record Item : Type 0 where
  pub path : String
  pub text : String
  pub deleting : Bool
  pub conditions : List Condition
  pub finalizers : List String

abbrev pub item_payload : Item → Payload
item_payload i = field "policy" (str i.text) end

abbrev pub erase_text : String → List String → List String
erase_text f [] = []
erase_text f (g ∷ l) = if str_eq f g then erase_text f l else g ∷ erase_text f l

abbrev pub items : KubeObject Item
items = record {
  get_kind = λ i. "Policy";
  get_generation = λ i. pos 1;
  is_deleting = λ i. i.deleting;
  get_conditions = λ i. i.conditions;
  set_conditions = λ cs i. record i { conditions = cs };
  contains_finalizer = λ f i. any (str_eq f) i.finalizers;
  add_finalizer = λ f i. record i { finalizers = f ∷ i.finalizers };
  remove_finalizer = λ f i. record i { finalizers = erase_text f i.finalizers };
  deletable = λ i. some true;
}

abbrev pub vault_items : VaultObject Item Store
vault_items = record {
  get_path = λ i. i.path;
  get_payload = λ i. item_payload i;
  is_equivalent_to_desired_state = λ i d. map_equal (item_payload i) d;
  prepare_internal_values = λ c. (ok tt, c);
  prepare_tls_config = λ c. (ok tt, c);
}

abbrev pub server : Kube Item Store
server = record {
  update = λ c. (ok tt, c);
  status_update = λ c. (ok tt, c);
  record_event = λ i text w. w;
  now = λ w. (pos 7, w);
  error_text = λ e. "failed";
}

pub erased : (f : String) (l : List String) → any (str_eq f) (erase_text f l) ≡ false
erased f [] = refl
erased f (g ∷ l) = ground (arith, erased f l)

pub added : (f : String) (l : List String) → any (str_eq f) (f ∷ l) ≡ true
added f l = rw (eq_refl f) refl

pub items-IsObject : IsObject items
items-IsObject = record {
  conditions_set = λ cs i. refl;
  kind_set = λ cs i. refl;
  deletable_set = λ cs i. refl;
  finalizer_set = λ f cs i. refl;
  kind_add = λ f i. refl;
  finalizer_add = λ f i. added f i.finalizers;
  kind_remove = λ f i. refl;
  finalizer_remove = λ f i. erased f i.finalizers;
}

pub server-IsApi : IsApi items server stored_at
server-IsApi = record {
  object = items-IsObject;
  update_kind = λ c. refl;
  update_finalizer = λ f c. refl;
  status_kind = λ c. refl;
  status_deletable = λ c. refl;
  status_finalizer = λ f c. refl;
  update_at = λ p c. refl;
  status_at = λ p c. refl;
  event_at = λ p i text w. refl;
  now_at = λ p w. refl;
}

pub items-deletable : (i : Item) → wants_finalizer (items.deletable i) ≡ true
items-deletable i = refl

abbrev pub success : Condition
success = record {
  kind = "ReconcileSuccessful";
  status = "True";
  observed_generation = pos 1;
  last_transition_time = pos 3;
  reason = "LastReconcileCycleSucceded";
  message = "";
}

-- A new resource, the same in deletion after a success, and worlds around them.
abbrev pub fresh : Item
fresh = record {
  path = "sys/policy/p";
  text = "t";
  deleting = false;
  conditions = [];
  finalizers = [];
}

abbrev pub leaving : Item
leaving = record fresh {
  deleting = true;
  conditions = success ∷ [];
  finalizers = "controller-policy" ∷ [];
}

abbrev pub occupied : Store
occupied = ("sys/policy/p", field "policy" (str "old") end) ∷ []
