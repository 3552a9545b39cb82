-- ===== src/Payload/Laws.antt =====
-- Updates of maps as lookups see them, and what `reflect.DeepEqual` decides.
use vault_config_operator.Common.{
  String, ◌≡◌, refl, subst, ◌↔◌, inl, inr, true, false, ◌&&◌, none, some, arith, if◌then◌else◌,
  str_eq, eq_iff, Option-cases, str_eq-cases, ==_iff, and_left, and_right,
}
use vault_config_operator.Payload.{
  Value, nil, str, Fields, end, field, lookup, insert, erase, size, deep_equal, fields_within,
  map_equal,
}

pub lookup-insert :
    (k j : String) (v : Value) (m : Fields)
    → lookup j (insert k v m) ≡ (if str_eq k j then some v else lookup j m)
lookup-insert k j v end = refl
lookup-insert k j v (field i w m) =
    ground (arith, eq_iff k j, eq_iff i k, eq_iff i j, lookup-insert k j v m)

pub lookup-erase :
    (k j : String) (m : Fields) → lookup j (erase k m) ≡ (if str_eq k j then none else lookup j m)
lookup-erase k j end = ground arith
lookup-erase k j (field i w m) =
    ground (arith, eq_iff k j, eq_iff i k, eq_iff i j, lookup-erase k j m)

pub str_equal_iff : (s : String) (w : Value) → (deep_equal (str s) w ≡ true) ↔ (w ≡ str s)
unfolding deep_equal
str_equal_iff s nil = ground arith
str_equal_iff s (str t) = ground (arith, eq_iff s t)
str_equal_iff s w = ground arith

-- One round of the comparison of maps, with the comparison of values shut.
pub fields_within_found :
    (k : String) (v : Value) (l m : Fields) {w : Value}
    → lookup k m ≡ some w
    → fields_within (field k v l) m ≡ (deep_equal v w && fields_within l m)
unfolding deep_equal
fields_within_found k v l m e = rw (e, fields_within) refl

pub fields_within_missing :
    (k : String) (v : Value) (l m : Fields)
    → lookup k m ≡ none
    → fields_within (field k v l) m ≡ false
unfolding deep_equal
fields_within_missing k v l m e = rw (e, fields_within) refl

-- Equal maps are found to have equal values under every key of the first.
pub lookup-fields_within :
    (k : String) (l m : Fields) {v : Value}
    → fields_within l m ≡ true
    → lookup k l ≡ some v
    → (w : Value) × (lookup k m ≡ some w) × (deep_equal v w ≡ true)
lookup-fields_within k end m h e = ground arith
lookup-fields_within k (field j x l) m h e = elim (Option-cases (lookup j m)) [
  | inl missing ↦ ground (arith, fields_within_missing j x l m missing)
  | inr (w, found) ↦ elim (str_eq-cases j k) [
    | inl (b, same) ↦ (
      w,
      subst (λ i. lookup i m ≡ some w) same found,
      ground (arith, fields_within_found j x l m found),
    )
    | inr (b, other) ↦
        lookup-fields_within k l m (ground (arith, fields_within_found j x l m found))
          (ground arith)
  ]
]

-- Two maps that are equal have the same number of entries, and equal values under each key.
pub map_equal-lookup :
    (k : String) (l m : Fields) {v : Value}
    → map_equal l (some m) ≡ true
    → lookup k l ≡ some v
    → (size l ≡ size m) × ((w : Value) × (lookup k m ≡ some w) × (deep_equal v w ≡ true))
unfolding map_equal
map_equal-lookup k l m h e =
    ((==_iff (size l) (size m)).0 (and_left _ _ h), lookup-fields_within k l m (and_right _ _ h) e)
