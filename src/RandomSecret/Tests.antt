-- ===== src/RandomSecret/Tests.antt =====
-- RandomSecrets over a Vault server in memory.
use vault_config_operator.Common.{
  ℕ, String, ◌≡◌, refl, true, not, ◌||◌, some, List, [], ◌∷◌, length, All,
}
use vault_config_operator.Common.Int.{pos, ◌+ℤ◌}
use vault_config_operator.Common.Action.{ok}
use vault_config_operator.Common.Text.{contains}
use vault_config_operator.Payload.{lookup, str, field, end}
use vault_config_operator.Paths.{cleanse_path}
use vault_config_operator.Vault.{read, write, write_with_response}
use vault_config_operator.Endpoint.{Cell, delete_kvv2_if_exists, create, exists}
use vault_config_operator.Common.Text.{replace_from, replace_first}
use vault_config_operator.RandomSecret.{
  RandomSecret, get_path, get_payload, get_v1_payload, is_valid, validate_update, is_empty,
  validate_either_password_policy_reference_or_inline, validate_inline_password_policy_format,
  validate_secret_key, validate_kvv2_data_in_path,
}
use vault_config_operator.RandomSecret.Password.{
  charset_rules, rand_string_bytes, obeys, calculate_secret, generate_new_password,
}
use vault_config_operator.RandomSecret.Password.Laws.{
  is_letter, IsCovered, calculate_secret_verdict, calculate_secret-IsCovered,
}
use vault_config_operator.RandomSecret.Validity.{is_valid-lookup}
use vault_config_operator.RandomSecret.Controller.{
  manage_clean_up_logic, manage_reconcile_logic, is_taken, write_new_secret,
}
use vault_config_operator.RandomSecret.Lifecycle.{
  IsForgotten, IsWritten, manage_clean_up_logic-IsForgotten, manage_reconcile_logic_taken,
  manage_reconcile_logic-IsWritten,
}
use vault_config_operator.Samples.Memory.{Differ, Store, memory, stored_at, as_is, memory-IsStore}
use vault_config_operator.Samples.Secrets.{
  byte_lists, byte_lists-IsByteSets, runtime, policy, one_off, refreshed, random_objects,
  random_server, kept,
}

runs : Unit {0}
unfolding manage_clean_up_logic manage_reconcile_logic is_taken write_new_secret
    delete_kvv2_if_exists create exists read write write_with_response cleanse_path get_path
    get_payload get_v1_payload replace_from replace_first generate_new_password calculate_secret
    rand_string_bytes is_valid validate_update validate_either_password_policy_reference_or_inline
    validate_inline_password_policy_format validate_secret_key validate_kvv2_data_in_path
runs = tt

abbrev cell : Cell RandomSecret Store
cell = record { object = one_off; world = kept }

abbrev due : Cell RandomSecret Store
due = record { object = refreshed; world = kept }

manage_clean_up_logic-IsForgotten_example :
    IsForgotten random_objects random_server memory byte_lists runtime stored_at as_is Differ
      memory-IsStore cell
      (manage_clean_up_logic random_objects random_server memory byte_lists runtime cell).1
unfolding runs
manage_clean_up_logic-IsForgotten_example =
    manage_clean_up_logic-IsForgotten random_objects random_server memory byte_lists runtime
      stored_at as_is Differ memory-IsStore cell refl

manage_reconcile_logic_taken_example :
    ((manage_reconcile_logic random_objects random_server memory byte_lists runtime cell).0 ≡ ok tt)
    × ((q : String)
        → stored_at
            (manage_reconcile_logic random_objects random_server memory byte_lists runtime
              cell).1.world
            q
          ≡ stored_at kept q)
    × ((manage_reconcile_logic random_objects random_server memory byte_lists runtime cell).1.object
        ≡ one_off)
unfolding runs
manage_reconcile_logic_taken_example =
    manage_reconcile_logic_taken random_objects random_server memory byte_lists runtime stored_at
      as_is Differ memory-IsStore cell (some (field "data" (str "old") end)) refl refl refl

manage_reconcile_logic-IsWritten_example :
    IsWritten random_objects random_server memory byte_lists runtime stored_at as_is Differ
      memory-IsStore
      (record due { world = (random_server.now kept).1 })
      (manage_reconcile_logic random_objects random_server memory byte_lists runtime due).1
unfolding runs ◌+ℤ◌
manage_reconcile_logic-IsWritten_example =
    manage_reconcile_logic-IsWritten random_objects random_server memory byte_lists runtime
      stored_at as_is Differ memory-IsStore (λ q w. refl) due (pos 5) (pos 10) refl refl refl refl

calculate_secret-IsCovered_example :
    (t : List ℕ) × ((calculate_secret byte_lists runtime policy 3
        cell).1.object.spec.calculated_secret
      ≡ "pw")
    × (pos (length t) ≡ pos 3)
    × All (λ a. is_letter (charset_rules policy.rules) a ≡ true) t
    × IsCovered byte_lists (charset_rules policy.rules) t
unfolding runs
calculate_secret-IsCovered_example =
    calculate_secret-IsCovered byte_lists runtime byte_lists-IsByteSets policy 2 cell refl

calculate_secret_verdict_example :
    (t : List ℕ) × ((rand_string_bytes runtime (pos 3) (97 ∷ 98 ∷ []) kept).0 ≡ ok t)
    × (true ≡ obeys byte_lists (charset_rules policy.rules) t)
    × ((calculate_secret byte_lists runtime policy 3 cell).1.object.spec.calculated_secret ≡ "pw")
unfolding runs
calculate_secret_verdict_example =
    calculate_secret_verdict byte_lists runtime policy 2 cell true refl

is_valid-lookup_example :
    (lookup "password" (get_v1_payload runtime one_off) ≡ some (str ""))
    × ((not true || contains "/data/" (get_path one_off)) ≡ true)
    × (is_empty "" ≡ not (is_empty "p"))
unfolding runs
is_valid-lookup_example = is_valid-lookup runtime one_off refl
