-- ===== src/Samples/Secrets.antt =====
-- RandomSecrets, the bytes of their passwords, and an API server with a clock for them.
use vault_config_operator.Common.{
  ℕ, ◌≡◌, refl, true, false, ◌||◌, ◌==◌, none, some, List, [], ◌∷◌, ◌++◌, str_eq, any, arith,
}
use vault_config_operator.Common.Int.{pos}
use vault_config_operator.Common.Action.{ok}
use vault_config_operator.Payload.{end, field, str}
use vault_config_operator.Outcome.{KubeObject, Kube}
use vault_config_operator.RandomSecret.{
  RandomSecret, RandomSecretSpec, Runtime, PasswordPolicyFormat,
}
use vault_config_operator.RandomSecret.Password.{ByteSets}
use vault_config_operator.RandomSecret.Password.Laws.{IsByteSets}
use vault_config_operator.Samples.Memory.{Store}
use vault_config_operator.Samples.Cluster.{erase_text}

abbrev pub byte_lists : ByteSets (List ℕ)
byte_lists = record {
  of_list = λ l. l;
  merge = λ s t. s ++ t;
  has = λ s c. any (◌==◌ c) s;
  list = λ s. s;
}

any-append : (s t : List ℕ) (c : ℕ) → any (◌==◌ c) (s ++ t) ≡ (any (◌==◌ c) s || any (◌==◌ c) t)
any-append [] t c = refl
any-append (d ∷ s) t c = ground (arith, any-append s t c)

pub byte_lists-IsByteSets : IsByteSets byte_lists
byte_lists-IsByteSets = record {
  has_of_list = λ l c. refl;
  has_merge = any-append;
  has_list = λ s c. refl;
}

-- Every random number is zero, and every password reads "pw".
abbrev pub runtime : Runtime Store
runtime = record {
  intn = λ n w. (ok 0, w);
  text = λ s. "pw";
  hcl_decode = λ name source. (none, record { length = pos 0; rules = [] });
  duration_string = λ d. "1h0m0s";
  duration_size = λ d. pos 0;
}

-- Three bytes, two of them lower-case letters of two.
abbrev pub policy : PasswordPolicyFormat
policy = record {
  length = pos 3;
  rules = record { rule_type = "charset"; charset = 97 ∷ 98 ∷ []; min_chars = pos 2 } ∷ [];
}

abbrev pub spec : RandomSecretSpec
spec = record {
  connection = none;
  authentication = record {
    service_account = none;
    path = "kubernetes";
    role = "r";
    namespace = "";
  };
  path = "kv/data/team";
  secret_format = record { password_policy_name = "p"; inline_password_policy = "" };
  refresh_period = none;
  secret_key = "password";
  calculated_secret = "";
  is_kv_secrets_engine_v2 = true;
  name = "";
  kv_secret_retain_policy = "Delete";
}

abbrev pub one_off : RandomSecret
one_off = record {
  metadata_name = "s";
  deleting = false;
  finalizers = [];
  spec = spec;
  status = record { conditions = []; last_vault_secret_update = none };
}

abbrev pub refreshed : RandomSecret
refreshed = record one_off {
  spec = record spec { refresh_period = some (pos 10) };
  status = record { conditions = []; last_vault_secret_update = some (pos 5) };
}

abbrev pub random_objects : KubeObject RandomSecret
random_objects = record {
  get_kind = λ d. "RandomSecret";
  get_generation = λ d. pos 1;
  is_deleting = λ d. d.deleting;
  get_conditions = λ d. d.status.conditions;
  set_conditions = λ cs d. record d { status = record (d.status) { conditions = cs } };
  contains_finalizer = λ f d. any (str_eq f) d.finalizers;
  add_finalizer = λ f d. record d { finalizers = f ∷ d.finalizers };
  remove_finalizer = λ f d. record d { finalizers = erase_text f d.finalizers };
  deletable = λ d. some true;
}

abbrev pub random_server : Kube RandomSecret Store
random_server = record {
  update = λ c. (ok tt, c);
  status_update = λ c. (ok tt, c);
  record_event = λ d text w. w;
  now = λ w. (pos 100, w);
  error_text = λ e. "failed";
}

-- A secret that is there already, and the generator of the password policy.
abbrev pub kept : Store
kept =
    ("kv/data/team/s", field "data" (str "old") end)
    ∷ ("/sys/policies/password/p/generate", field "password" (str "pw") end)
    ∷ []
