-- ===== src/Database/Tests.antt =====
-- A database whose root password changes.
use vault_config_operator.Common.{◌≡◌, some, none, [], true, false}
use vault_config_operator.Reconcile.{reconcile_resource, reconcile, reconcile_deleted}
use vault_config_operator.Common.{inl, Bool, str_eq, any, ◌∷◌, refl}
use vault_config_operator.Common.Int.{ℤ, pos}
use vault_config_operator.Common.Action.{ok, panic}
use vault_config_operator.Endpoint.{Cell}
use vault_config_operator.Outcome.{KubeObject, Kube}
use vault_config_operator.Outcome.Api.{IsApi}
use vault_config_operator.Payload.{end}
use vault_config_operator.Database.Retrieval.{Lookups}
use vault_config_operator.Database.Controller.{
  rotate, rotate_root_password, rotate_if_due, reconcile_database, requeued,
}
use vault_config_operator.Database.Rotation.{
  IsRotated, rotate_if_due-IsRotated, reconcile_database_deleted-IsRotated,
}
use vault_config_operator.Samples.Cluster.{erase_text, erased, added}
use vault_config_operator.Samples.Memory.{Store, memory, stored_at}
use vault_config_operator.Database.{DatabaseSecretEngineConfig, is_equivalent_to_desired_state}
use vault_config_operator.Database.Password.{
  with_password, is_equivalent_to_desired_state-with_password,
}

abbrev database : DatabaseSecretEngineConfig
database = record {
  metadata_name = "db";
  deleting = false;
  finalizers = [];
  spec = record {
    connection = none;
    authentication = record {
      service_account = none;
      path = "kubernetes";
      role = "r";
      namespace = "";
    };
    path = "database";
    dbse_config = record {
      plugin_name = "postgresql-database-plugin";
      plugin_version = "";
      verify_connection = true;
      allowed_roles = [];
      root_rotation_statements = [];
      password_authentication = "";
      password_policy = "";
      connection_url = "postgresql://db";
      username = "root";
      disable_escaping = false;
      database_specific_config = [];
      retrieved_password = "old";
      retrieved_username = "";
      root_password_rotation = none;
    };
    root_credentials = record {
      vault_secret = none;
      secret = some "root";
      random_secret = none;
      password_key = "password";
      username_key = "username";
    };
    name = "";
  };
  status = record { conditions = []; last_root_password_rotation = none };
}

is_equivalent_to_desired_state-with_password_example :
    is_equivalent_to_desired_state database (some end)
    ≡ is_equivalent_to_desired_state (with_password "new" database) (some end)
is_equivalent_to_desired_state-with_password_example =
    is_equivalent_to_desired_state-with_password database "old" "new" (some end)

abbrev databases : KubeObject DatabaseSecretEngineConfig
databases = record {
  get_kind = λ d. "DatabaseSecretEngineConfig";
  get_generation = λ d. pos 1;
  is_deleting = λ d. d.deleting;
  get_conditions = λ d. d.status.conditions;
  set_conditions = λ cs d. record d { status = record (d.status) { conditions = cs } };
  contains_finalizer = λ f d. any (str_eq f) d.finalizers;
  add_finalizer = λ f d. record d { finalizers = f ∷ d.finalizers };
  remove_finalizer = λ f d. record d { finalizers = erase_text f d.finalizers };
  deletable = λ d. some true;
}

abbrev database_server : Kube DatabaseSecretEngineConfig Store
database_server = record {
  update = λ c. (ok tt, c);
  status_update = λ c. (ok tt, c);
  record_event = λ d text w. w;
  now = λ w. (pos 9, w);
  error_text = λ e. "failed";
}

database_server-IsApi : IsApi databases database_server stored_at
database_server-IsApi = record {
  object = record {
    conditions_set = λ cs d. refl;
    kind_set = λ cs d. refl;
    deletable_set = λ cs d. refl;
    finalizer_set = λ f cs d. refl;
    kind_add = λ f d. refl;
    finalizer_add = λ f d. added f d.finalizers;
    kind_remove = λ f d. refl;
    finalizer_remove = λ f d. erased f d.finalizers;
  };
  update_kind = λ c. refl;
  update_finalizer = λ f c. refl;
  status_kind = λ c. refl;
  status_deletable = λ c. refl;
  status_finalizer = λ f c. refl;
  update_at = λ p c. refl;
  status_at = λ p c. refl;
  event_at = λ p d text w. refl;
  now_at = λ p w. refl;
}

abbrev lookups : Lookups Store
lookups = record {
  get_random_secret = λ name w. (panic, w);
  get_secret = λ name w. (ok (("password", "pw") ∷ []), w);
}

abbrev never : ℤ → ℤ → Bool
never elapsed period = false

abbrev rotated_database : DatabaseSecretEngineConfig
rotated_database = record database {
  spec = record (database.spec) {
    dbse_config = record (database.spec.dbse_config) {
      root_password_rotation = some (record { enable = true; rotation_period = pos 50 });
    };
  };
}

abbrev cell : Cell DatabaseSecretEngineConfig Store
cell = record { object = rotated_database; world = [] }

abbrev gone : Cell DatabaseSecretEngineConfig Store
gone = record { object = record rotated_database { deleting = true }; world = [] }

rotate_if_due-IsRotated_example :
    IsRotated databases database_server memory lookups never stored_at database_server-IsApi
      (λ c. refl)
      cell
      (rotate_if_due databases database_server memory lookups never cell).1
    × ((rotate_if_due databases database_server memory lookups never cell).0
        ≡ ok (requeued databases database_server memory lookups never (pos 50)))
unfolding rotate_if_due rotate_root_password rotate
rotate_if_due-IsRotated_example =
    rotate_if_due-IsRotated databases database_server memory lookups never stored_at
      database_server-IsApi (λ c. refl) cell (record { enable = true; rotation_period = pos 50 }) []
      refl refl (inl (refl, refl)) refl

reconcile_database_deleted-IsRotated_example :
    IsRotated databases database_server memory lookups never stored_at database_server-IsApi
      (λ c. refl)
      gone
      (reconcile_database databases database_server memory lookups never gone).1
    × ((reconcile_database databases database_server memory lookups never gone).0
        ≡ ok (requeued databases database_server memory lookups never (pos 50)))
unfolding rotate_if_due rotate_root_password rotate reconcile_database reconcile_resource reconcile
    reconcile_deleted
reconcile_database_deleted-IsRotated_example =
    reconcile_database_deleted-IsRotated databases database_server memory lookups never stored_at
      database_server-IsApi (λ c. refl) gone (record { enable = true; rotation_period = pos 50 }) []
      refl refl refl refl (inl (refl, refl)) refl
