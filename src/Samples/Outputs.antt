-- ===== src/Samples/Outputs.antt =====
-- A VaultSecret, a Vault server with one leased secret, and an API server that holds secrets.
use vault_config_operator.Common.{
  String, ◌≡◌, refl, Bool, true, false, ◌&&◌, Option, none, some, List, [], ◌∷◌, if◌then◌else◌,
  str_eq, any, arith, eq_iff, eq_refl,
}
use vault_config_operator.Common.Int.{pos}
use vault_config_operator.Common.Action.{Error, api, Result, ok, err}
use vault_config_operator.Payload.{end, field, str}
use vault_config_operator.Vault.{Vault, Secret}
use vault_config_operator.Outcome.{KubeObject, Kube}
use vault_config_operator.Outcome.Api.{IsApi}
use vault_config_operator.KubeAuth.{Platform, Session}
use vault_config_operator.Periodic.{OwnerReference, is_owner}
use vault_config_operator.Resource.{Client}
use vault_config_operator.Resource.Applied.{IsServer}
use vault_config_operator.VaultSecret.{VaultSecret, VaultSecretDefinition, K8sSecret, k8s_secrets}
use vault_config_operator.VaultSecret.Hash.{Hasher}
use vault_config_operator.VaultSecret.Controller.{Environment}
use vault_config_operator.VaultSecret.Output.{IsCluster}
use vault_config_operator.VaultSecret.Ownership.{held_at}
use vault_config_operator.Samples.Cluster.{erase_text, erased, added}

abbrev pub World : Type 0
World = Session (List K8sSecret) String

abbrev pub is_at : String → String → K8sSecret → Bool
is_at n m s = str_eq s.namespace n && str_eq s.name m

abbrev pub find_secret : String → String → List K8sSecret → Option K8sSecret
find_secret n m [] = none
find_secret n m (s ∷ l) = if is_at n m s then some s else find_secret n m l

abbrev pub drop_secret : String → String → List K8sSecret → List K8sSecret
drop_secret n m [] = []
drop_secret n m (s ∷ l) = if is_at n m s then drop_secret n m l else s ∷ drop_secret n m l

abbrev pub held : World → String → String → Option K8sSecret
held w n m = find_secret n m w.world

abbrev pub numbered : K8sSecret → K8sSecret
numbered s = record s { resource_version = "1" }

abbrev pub IsApart : String × String → String × String → Type 0
IsApart p q = (str_eq p.0 q.0 && str_eq p.1 q.1) ≡ false

abbrev pub answer : Option K8sSecret → Result K8sSecret
answer none = err (api true "not found")
answer (some s) = ok s

abbrev pub api_server : Client K8sSecret World
api_server = record {
  get = λ n m w. (answer (held w n m), w);
  create = λ s w. (ok tt, record w { world = numbered s ∷ w.world });
  update = λ s w. (ok tt, record w { world = numbered s ∷ w.world });
  delete = λ s w. (ok tt, record w { world = drop_secret s.namespace s.name w.world });
}

answer-found : (o : Option K8sSecret) (s : K8sSecret) → answer o ≡ ok s → o ≡ some s
answer-found none s h = cc
answer-found (some t) s h = ground arith

answer-missing : (o : Option K8sSecret) (e : Error) → answer o ≡ err e → o ≡ none
answer-missing none e h = refl
answer-missing (some t) e h = cc

held_here :
    (s : K8sSecret) (l : List K8sSecret)
    → find_secret s.namespace s.name (numbered s ∷ l) ≡ some (numbered s)
held_here s l = rw (eq_refl s.namespace, eq_refl s.name) refl

gone_here : (n m : String) (l : List K8sSecret) → find_secret n m (drop_secret n m l) ≡ none
gone_here n m [] = refl
gone_here n m (s ∷ l) = ground (arith, gone_here n m l)

kept_there :
    (n m n' m' : String) (l : List K8sSecret)
    → (str_eq n n' && str_eq m m') ≡ false
    → find_secret n' m' (drop_secret n m l) ≡ find_secret n' m' l
kept_there n m n' m' [] h = refl
kept_there n m n' m' (s ∷ l) h = ground (
  arith,
  kept_there n m n' m' l h,
  eq_iff s.namespace n,
  eq_iff s.namespace n',
  eq_iff s.name m,
  eq_iff s.name m',
  eq_iff n n',
  eq_iff m m',
)

pub api_server-IsServer : IsServer k8s_secrets api_server held numbered IsApart
api_server-IsServer = record {
  get_keeps = λ n m w n' m'. refl;
  get_found = λ n m w s h. answer-found (held w n m) s h;
  get_missing = λ n m w e h _. answer-missing (held w n m) e h;
  create_stores = λ s w h. held_here s w.world;
  update_stores = λ s w h. held_here s w.world;
  create_keeps = λ s w n m h. rw h refl;
  update_keeps = λ s w n m h. rw h refl;
  delete_removes = λ s w h. gone_here s.namespace s.name w.world;
  delete_missing = λ s w e h _. gone_here s.namespace s.name w.world;
  delete_keeps = λ s w n m h. kept_there s.namespace s.name n m w.world h;
  version_name = λ v s. refl;
  version_namespace = λ v s. refl;
  version_stored = λ v s. refl;
}

-- Every read of Vault finds one password with a lease of an hour.
abbrev pub leased_password : Secret
leased_password = record {
  contents = some (field "password" (str "pw") end);
  lease_id = "l";
  lease_duration = 3600;
  renewable = true;
  client_token = "";
}

abbrev pub leasing : Vault World
leasing = record {
  logical_read = λ path w. (ok (some leased_password), w);
  logical_write = λ path payload w. (ok (some leased_password), w);
  logical_delete = λ path w. (ok none, w);
}

abbrev pub platform : Platform (List K8sSecret) String String
platform = record {
  lookup_env = λ name w. none;
  create_token = λ account ns seconds w. (ok "jwt", w);
  default_config = "http://vault";
  configure = λ connection ns w. (ok "http://vault", w);
  new_client = λ config w. (ok config, w);
  set_namespace = λ ns client. client;
  set_token = λ token client. client;
  client_write = λ client path payload w. (ok (some leased_password), w);
  lookup_self = λ client w. (ok tt, w);
}

abbrev pub hasher : Hasher
hasher = record { sum256 = λ l. l; bytes_of = λ s. []; encode_to_string = λ l. "hash" }

abbrev pub vault_secrets : KubeObject VaultSecret
vault_secrets = record {
  get_kind = λ d. "VaultSecret";
  get_generation = λ d. pos 1;
  is_deleting = λ d. d.deleting;
  get_conditions = λ d. d.status.conditions;
  set_conditions = λ cs d. record d { status = record (d.status) { conditions = cs } };
  contains_finalizer = λ f d. any (str_eq f) d.finalizers;
  add_finalizer = λ f d. record d { finalizers = f ∷ d.finalizers };
  remove_finalizer = λ f d. record d { finalizers = erase_text f d.finalizers };
  deletable = λ d. none;
}

abbrev pub vault_secret_server : Kube VaultSecret World
vault_secret_server = record {
  update = λ c. (ok tt, c);
  status_update = λ c. (ok tt, c);
  record_event = λ d text w. w;
  now = λ w. (pos 100, w);
  error_text = λ e. "failed";
}

abbrev pub references : VaultSecret → List OwnerReference
references d = record { name = d.metadata_name; uid = d.uid; kind = "VaultSecret" } ∷ []

abbrev pub environment : Environment (List K8sSecret) String String
environment = record {
  objects = vault_secrets;
  kube = vault_secret_server;
  secrets = api_server;
  platform = platform;
  logical = λ client. leasing;
  hasher = hasher;
  render = λ template m w. (ok (112 ∷ 119 ∷ []), w);
  set_controller_reference = λ d s. record s { owner_references = references d };
  lease_share = λ threshold seconds. seconds;
}

is_owner_self :
    (name uid : String)
    → is_owner name uid "VaultSecret" (record { name = name; uid = uid; kind = "VaultSecret" } ∷ [])
      ≡ true
unfolding is_owner
is_owner_self name uid = rw (eq_refl name, eq_refl uid) refl

pub environment-IsCluster : IsCluster environment held numbered IsApart references
environment-IsCluster = record {
  server = api_server-IsServer;
  get_held = λ w n m s h. rw h refl;
  reference = λ d s. refl;
  mine = λ d last stats. is_owner_self d.metadata_name d.uid;
  stored_annotations = λ s. refl;
  stored_contents = λ s. refl;
  stored_owners = λ s. refl;
  now_held = λ w n m. refl;
}

abbrev pub definition : VaultSecretDefinition
definition = record {
  name = "db";
  connection = none;
  authentication = record {
    service_account = some "sa";
    path = "kubernetes";
    role = "r";
    namespace = "";
  };
  path = "database/creds/app";
  request_type = "GET";
  request_payload = [];
}

abbrev pub wanted : VaultSecret
wanted = record {
  metadata_name = "app";
  namespace = "team";
  uid = "u1";
  deleting = false;
  finalizers = [];
  spec = record {
    refresh_period = none;
    refresh_threshold = pos 90;
    vault_secret_definitions = definition ∷ [];
    templatized_k8s_secret = record {
      name = "app-secret";
      kind = "Opaque";
      string_data = ("password", "{{ .db.password }}") ∷ [];
      labels = [];
      annotations = [];
    };
  };
  status = record {
    conditions = [];
    last_vault_secret_update = none;
    next_vault_secret_update = none;
    vault_secret_definitions_status = none;
  };
}

-- A secret of the output's name that belongs to nobody.
abbrev pub stray : K8sSecret
stray = record {
  name = "app-secret";
  namespace = "team";
  resource_version = "7";
  owner_references = [];
  annotations = none;
  labels = [];
  contents = [];
  kind = "Opaque";
}

abbrev pub empty_world : World
empty_world = record { cache = []; world = [] }

abbrev pub stray_world : World
stray_world = record { cache = []; world = stray ∷ [] }

pub environment-IsApi :
    IsApi vault_secrets vault_secret_server
      (held_at environment held numbered IsApart api_server-IsServer)
environment-IsApi = record {
  object = record {
    conditions_set = λ cs d. refl;
    kind_set = λ cs d. refl;
    deletable_set = λ cs d. refl;
    finalizer_set = λ f cs d. refl;
    kind_add = λ f d. refl;
    finalizer_add = λ f d. added f d.finalizers;
    kind_remove = λ f d. refl;
    finalizer_remove = λ f d. erased f d.finalizers;
  };
  update_kind = λ c. refl;
  update_finalizer = λ f c. refl;
  status_kind = λ c. refl;
  status_deletable = λ c. refl;
  status_finalizer = λ f c. refl;
  update_at = λ p c. refl;
  status_at = λ p c. refl;
  event_at = λ p d text w. refl;
  now_at = λ p w. refl;
}
