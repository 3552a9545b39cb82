-- ===== src/Controllers/Tests.antt =====
-- Requests for a resource over servers in memory, with a login that is granted or refused.
use vault_config_operator.Common.{String, ◌≡◌, refl, true, false, Option, none, some, []}
use vault_config_operator.Common.Int.{pos}
use vault_config_operator.Common.Action.{err, ok, plain}
use vault_config_operator.Conditions.{add_or_replace_condition}
use vault_config_operator.Payload.{Payload, deep_equal, map_equal}
use vault_config_operator.Vault.{Vault, Secret, read, write}
use vault_config_operator.Vault.Store.{IsStore}
use vault_config_operator.Endpoint.{VaultObject, create_or_update}
use vault_config_operator.Outcome.{
  Kube, ends_well, no_error, get_finalizer, to_lower, record_condition, ensure_finalizer,
  manage_outcome, manage_outcome_with_requeue,
}
use vault_config_operator.Outcome.Api.{IsApi}
use vault_config_operator.Reconcile.{reconcile, reconcile_resource, resource_logic, prepare}
use vault_config_operator.KubeAuth.{
  KubeAuthConfiguration, Platform, Session, in_session, get_vault_client, log_in, get_jwt_token,
  create_vault_client, cache_put, get_cache_key,
}
use vault_config_operator.Controllers.{
  NamespacedName, Controller, Authenticable, on_request, in_context, prepare_context,
  serve_resource,
}
use vault_config_operator.Controllers.Served.{IsServed, serve_resource-IsServed, in_context_refused}
use vault_config_operator.Samples.Memory.{Differ, Store, memory, stored_at, as_is, memory-IsStore}
use vault_config_operator.Samples.Cluster.{
  Item, items, items-IsObject, items-deletable, item_payload, fresh, leaving, occupied,
}

abbrev World : Type 0
World = Session Store String

abbrev at : World → String → Option Payload
at s p = stored_at s.world p

-- Every client has the one server.
abbrev vault_of : String → Vault World
vault_of client = record {
  logical_read = λ p. in_session (memory.logical_read p);
  logical_write = λ p d. in_session (memory.logical_write p d);
  logical_delete = λ p. in_session (memory.logical_delete p);
}

vault_of-IsStore : (client : String) → IsStore (vault_of client) at as_is Differ
vault_of-IsStore client = record {
  read_keeps = λ p q w. memory-IsStore.read_keeps p q w.world;
  read_found = λ p w s h. memory-IsStore.read_found p w.world s h;
  read_nothing = λ p w h. memory-IsStore.read_nothing p w.world h;
  read_missing = λ p w e h m. memory-IsStore.read_missing p w.world e h m;
  write_stores = λ p d w s h. memory-IsStore.write_stores p d w.world s h;
  write_keeps = λ p q d w h. memory-IsStore.write_keeps p q d w.world h;
  delete_removes = λ p w s h. memory-IsStore.delete_removes p w.world s h;
  delete_missing = λ p w e h m. memory-IsStore.delete_missing p w.world e h m;
  delete_keeps = λ p q w h. memory-IsStore.delete_keeps p q w.world h;
}

abbrev server : Kube Item World
server = record {
  update = λ c. (ok tt, c);
  status_update = λ c. (ok tt, c);
  record_event = λ i text w. w;
  now = λ w. (pos 7, w);
  error_text = λ e. "failed";
}

server-IsApi : IsApi items server at
server-IsApi = record {
  object = items-IsObject;
  update_kind = λ c. refl;
  update_finalizer = λ f c. refl;
  status_kind = λ c. refl;
  status_deletable = λ c. refl;
  status_finalizer = λ f c. refl;
  update_at = λ p c. refl;
  status_at = λ p c. refl;
  event_at = λ p i text w. refl;
  now_at = λ p w. refl;
}

abbrev login : Secret
login = record {
  contents = none;
  lease_id = "";
  lease_duration = 0;
  renewable = true;
  client_token = "s.1";
}

abbrev platform : Platform Store String String
platform = record {
  lookup_env = λ name w. none;
  create_token = λ account ns seconds w. (ok "jwt", w);
  default_config = "http://vault";
  configure = λ connection ns w. (ok connection.address, w);
  new_client = λ config w. (ok config, w);
  set_namespace = λ ns client. client;
  set_token = λ token client. client;
  client_write = λ client path payload w. (ok (some login), w);
  lookup_self = λ client w. (ok tt, w);
}

abbrev refusing : Platform Store String String
refusing = record platform {
  create_token = λ account ns seconds w. (err (plain "no such service account"), w);
}

abbrev controller : Controller Item World
controller = record {
  objects = items;
  kube = server;
  get_object = λ request w. (ok fresh, w);
  get_namespace = λ i. "ns";
}

abbrev account : KubeAuthConfiguration
account = record { service_account = some "sa"; path = "kubernetes"; role = "r"; namespace = "" }

abbrev methods : Authenticable Item
methods = record { get_vault_connection = λ i. none; get_kube_auth_configuration = λ i. account }

abbrev objects_of : Vault World → VaultObject Item World
objects_of v = record {
  get_path = λ i. i.path;
  get_payload = λ i. item_payload i;
  is_equivalent_to_desired_state = λ i d. map_equal (item_payload i) d;
  prepare_internal_values = λ c. (ok tt, c);
  prepare_tls_config = λ c. (ok tt, c);
}

abbrev start : World
start = record { cache = []; world = occupied }

abbrev request : NamespacedName
request = record { namespace = "ns"; name = "p" }

runs : Unit {0}
unfolding reconcile_resource reconcile resource_logic prepare create_or_update read write map_equal
    deep_equal get_finalizer to_lower record_condition ensure_finalizer manage_outcome
    manage_outcome_with_requeue add_or_replace_condition on_request in_context prepare_context
    get_vault_client log_in get_jwt_token create_vault_client cache_put get_cache_key
runs = tt

serve_resource-IsServed_example :
    IsServed platform controller methods vault_of objects_of at as_is Differ vault_of-IsStore
      server-IsApi items-deletable
      (record { object = fresh; world = start })
      (serve_resource platform controller methods vault_of objects_of request start).1
unfolding runs
serve_resource-IsServed_example =
    serve_resource-IsServed platform controller methods vault_of objects_of at as_is Differ
      vault_of-IsStore server-IsApi items-deletable request fresh start start no_error refl refl
      refl refl

in_context_refused_example :
    (ends_well
        (in_context refusing controller methods
          (λ client c. (ok no_error, c))
          (record { object = leaving; world = start })).0
      ≡ false)
    × (items.contains_finalizer "controller-policy"
          (in_context refusing controller methods
            (λ client c. (ok no_error, c))
            (record { object = leaving; world = start })).1.object
        ≡ true)
unfolding prepare_context get_vault_client log_in get_jwt_token
in_context_refused_example =
    in_context_refused refusing controller methods at server-IsApi (λ client c. (ok no_error, c))
      (plain "no such service account") "controller-policy"
      (record { object = leaving; world = start }) refl
