-- ===== src/Database/Password.antt =====
-- What the comparison with Vault's answer says of the root password.
use vault_config_operator.Common.{
  String, ◌≡◌, refl, ap, ◌∙◌, false, Option, arith, eq_iff, str_eq, Bool-cases, inl, inr,
}
use vault_config_operator.Payload.{
  lookup, Payload, Fields, Value, str, end, field, insert, erase, obj, map_equal,
}
use vault_config_operator.Payload.Laws.{lookup-insert}
use vault_config_operator.Database.{
  DatabaseSecretEngineConfig, to_map, insert_some, base_map, plain_map, reported, value_at,
  value_of, connection_details, is_equivalent_to_desired_state,
}

erase-insert_self : (k : String) (v : Value) (m : Fields) → erase k (insert k v m) ≡ erase k m
erase-insert_self k v end = ground (arith, eq_iff k k)
erase-insert_self k v (field j w m) =
    ground (arith, eq_iff k k, eq_iff j k, erase-insert_self k v m)

erase-insert_ne :
    (k j : String) (v : Value) (m : Fields)
    → str_eq j k ≡ false
    → erase k (insert j v m) ≡ insert j v (erase k m)
erase-insert_ne k j v end h = rw h refl
erase-insert_ne k j v (field i w m) h =
    ground (arith, eq_iff j k, eq_iff i k, eq_iff i j, erase-insert_ne k j v m h)

value_at-password :
    (j p : String) (m : Payload)
    → str_eq "password" j ≡ false
    → value_at j (insert_some "password" p m) ≡ value_at j m
value_at-password j p m h = elim (Bool-cases (str_eq p "")) [
  | inl none ↦ rw none refl
  | inr some ↦
      rw some (ap value_of {y = lookup j m} (lookup-insert "password" j (str p) m ∙ rw h refl))
]

connection_details-password :
    (p : String) (m : Payload)
    → connection_details (insert_some "password" p m) ≡ connection_details m
connection_details-password p m =
    rw
      (
        value_at-password "username" p m refl,
        value_at-password "root_credentials_rotate_statements" p m refl,
        value_at-password "disable_escaping" p m refl,
        value_at-password "connection_url" p m refl,
        value_at-password "verify_connection" p m refl,
      )
      refl

erase-password :
    (p : String) (v : Value) (m : Payload)
    → erase "password" (insert "connection_details" v (insert_some "password" p m))
      ≡ insert "connection_details" v (erase "password" m)
erase-password p v m = elim (Bool-cases (str_eq p "")) [
  | inl none ↦ rw none (erase-insert_ne "password" "connection_details" v m refl)
  | inr some ↦ rw some (
      erase-insert_ne "password" "connection_details" v (insert "password" (str p) m) refl
      ∙ ap (insert "connection_details" v) (erase-insert_self "password" (str p) m))
]

reported-password :
    (p q : String) (m : Payload)
    → reported (insert_some "password" p m) ≡ reported (insert_some "password" q m)
unfolding reported
reported-password p q m =
    rw
      (
        connection_details-password p m,
        connection_details-password q m,
        erase-password p (obj (connection_details m)) m,
        erase-password q (obj (connection_details m)) m,
      )
      refl

abbrev pub with_password : String → DatabaseSecretEngineConfig → DatabaseSecretEngineConfig
with_password p d = record d {
  spec = record (d.spec) { dbse_config = record (d.spec.dbse_config) { retrieved_password = p } };
}

-- Whatever password was retrieved, the comparison with what Vault answers has the same result: a
-- new password never makes the configuration differ from the one in Vault.
pub is_equivalent_to_desired_state-with_password :
    (d : DatabaseSecretEngineConfig) (p q : String) (payload : Option Payload)
    → is_equivalent_to_desired_state (with_password p d) payload
      ≡ is_equivalent_to_desired_state (with_password q d) payload
unfolding is_equivalent_to_desired_state to_map base_map plain_map
is_equivalent_to_desired_state-with_password d p q payload =
    ap (λ m. map_equal m payload) (reported-password p q (base_map d.spec.dbse_config))
