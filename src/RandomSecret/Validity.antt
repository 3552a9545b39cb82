-- ===== src/RandomSecret/Validity.antt =====
-- What the validation of a RandomSecret by its webhooks is worth.
use vault_config_operator.Common.{
  String, ◌≡◌, refl, Bool, true, false, not, ◌&&◌, ◌||◌, ◌+◌, ◌==◌, List, [], ◌∷◌, Option, none,
  some, arith, Bool-cases, inl, inr, eq_iff, eq_refl, str_eq, if◌then◌else◌,
}
use vault_config_operator.Common.Int.{ℤ, pos, ltb_ℤ}
use vault_config_operator.Common.Action.{Error}
use vault_config_operator.Common.Text.{contains}
use vault_config_operator.Payload.{lookup, str, field, end}
use vault_config_operator.RandomSecret.{
  RandomSecret, Runtime, get_path, get_v1_payload, has_refresh, is_valid, validate_update,
  append_error, ttl_key, with_ttl, is_empty, validate_either_password_policy_reference_or_inline,
  validate_inline_password_policy_format, validate_secret_key, validate_kvv2_data_in_path,
}

append_error-empty :
    (l : List Error) (o : Option Error) → append_error l o ≡ [] → (l ≡ []) × (o ≡ none)
append_error-empty l none h = (h, refl)
append_error-empty [] (some issue) h = ground arith
append_error-empty (x ∷ l) (some issue) h = ground arith

-- Validators that returned nil.
guarded : (b : Bool) (issue : Error) → (if b then some issue else none) ≡ none → b ≡ false
guarded true issue h = ground arith
guarded false issue h = refl

implied :
    (v2 has : Bool) (issue : Error)
    → (if v2 && not has then some issue else none) ≡ none
    → (not v2 || has) ≡ true
implied true true issue h = refl
implied true false issue h = ground arith
implied false has issue h = refl

one_of :
    (a b : Bool) (issue : Error)
    → (if (if a then 0 else 1) + (if b then 0 else 1) == 1 then none else some issue) ≡ none
    → a ≡ not b
one_of true true issue h = ground arith
one_of true false issue h = refl
one_of false true issue h = refl
one_of false false issue h = ground arith

module _ {W : Type 0} (e : Runtime W) where
  is_valid_parts :
      (r : RandomSecret)
      → is_valid e r ≡ []
      → (validate_either_password_policy_reference_or_inline r ≡ none)
        × (validate_inline_password_policy_format e r ≡ none)
        × (validate_secret_key r ≡ none)
        × (validate_kvv2_data_in_path r ≡ none)
  unfolding is_valid
  is_valid_parts r h =
      let (h3, kvv2) = append_error-empty _ (validate_kvv2_data_in_path r) h in
      let (h2, key) = append_error-empty _ (validate_secret_key r) h3 in
      let (h1, inline) = append_error-empty _ (validate_inline_password_policy_format e r) h2 in
      let (_, either) =
        append_error-empty [] (validate_either_password_policy_reference_or_inline r) h1 in
      (either, inline, key, kvv2)

  with_ttl_other :
      (o : Option ℤ) (k s : String)
      → (has_refresh o && str_eq k ttl_key) ≡ false
      → lookup k (with_ttl e o (field k (str s) end)) ≡ some (str s)
  with_ttl_other none k s h = rw (eq_refl k) refl
  with_ttl_other (some duration) k s h = elim (Bool-cases (ltb_ℤ (pos 0) duration)) [
    | inl positive ↦ ground (arith, eq_refl k, eq_iff k ttl_key)
    | inr other ↦ ground (arith, eq_refl k)
  ]

  -- If a RandomSecret is valid, its version 1 payload holds the password under the secret's key,
  -- the lifetime never taking its place; its path contains "/data/" if it is for version 2 of the
  -- KV engine; and exactly one of the two kinds of password policy is given.
  pub is_valid-lookup :
      (r : RandomSecret)
      → is_valid e r ≡ []
      → (lookup r.spec.secret_key (get_v1_payload e r) ≡ some (str r.spec.calculated_secret))
        × ((not (r.spec.is_kv_secrets_engine_v2) || contains "/data/" (get_path r)) ≡ true)
        × (is_empty r.spec.secret_format.inline_password_policy
            ≡ not (is_empty r.spec.secret_format.password_policy_name))
  unfolding get_v1_payload validate_secret_key validate_kvv2_data_in_path
      validate_either_password_policy_reference_or_inline
  is_valid-lookup r h =
      let (either, inline, key, kvv2) = is_valid_parts r h in
      (
        with_ttl_other r.spec.refresh_period r.spec.secret_key r.spec.calculated_secret
            (guarded _ _ key),
        implied r.spec.is_kv_secrets_engine_v2 (contains "/data/" (get_path r)) _ kvv2,
        one_of (is_empty r.spec.secret_format.inline_password_policy)
            (is_empty r.spec.secret_format.password_policy_name) _ either,
      )

  -- If an update is accepted, `spec.path` and `spec.secretKey` are those of the old object and the
  -- new object is valid.
  pub validate_update_keeps :
      (r old : RandomSecret)
      → validate_update e r old ≡ []
      → (r.spec.path ≡ old.spec.path)
        × (r.spec.secret_key ≡ old.spec.secret_key)
        × (is_valid e r ≡ [])
  unfolding validate_update
  validate_update_keeps r old h =
      ground (arith, eq_iff r.spec.path old.spec.path, eq_iff r.spec.secret_key old.spec.secret_key)
