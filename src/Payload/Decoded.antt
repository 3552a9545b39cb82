-- ===== src/Payload/Decoded.antt =====
-- The maps that a JSON response decodes to, and the maps that never equal one.
use vault_config_operator.Common.{
  String, ◌≡◌, inl, inr, Bool, true, false, subst, some, arith, str_eq, Bool-cases,
}
use vault_config_operator.Payload.{
  erase, Value, int, strs, dict, duration, pointer, enums, raw, arr, obj, Items, done, item, Fields,
  end, field, lookup, deep_equal, map_equal,
}
use vault_config_operator.Payload.Laws.{map_equal-lookup}

-- What the Vault client's JSON decoder puts behind `interface{}`: null, texts, booleans,
-- `json.Number`, `[]interface{}` and `map[string]interface{}`.
abbrev mutual
  pub IsDecoded : Value → Type 0
  IsDecoded (arr xs) = IsDecodedItems xs
  IsDecoded (obj m) = IsDecodedMap m
  IsDecoded (int n) = ⊥
  IsDecoded (strs l) = ⊥
  IsDecoded (dict m) = ⊥
  IsDecoded (duration n) = ⊥
  IsDecoded (pointer p) = ⊥
  IsDecoded (enums t l) = ⊥
  IsDecoded (raw j) = ⊥
  IsDecoded _ = Unit

  pub IsDecodedItems : Items → Type 0
  IsDecodedItems done = Unit
  IsDecodedItems (item x xs) = IsDecoded x × IsDecodedItems xs

  pub IsDecodedMap : Fields → Type 0
  IsDecodedMap end = Unit
  IsDecodedMap (field k v m) = IsDecoded v × IsDecodedMap m

-- A value of a Go type that the decoder never makes: an integer, a duration, a pointer, a
-- slice of strings or a `map[string]string`.
abbrev pub is_native : Value → Bool
is_native (int n) = true
is_native (strs l) = true
is_native (dict m) = true
is_native (duration n) = true
is_native (pointer p) = true
is_native (enums t l) = true
is_native (raw j) = true
is_native _ = false

lookup-IsDecoded :
    (k : String) (m : Fields) {w : Value} → IsDecodedMap m → lookup k m ≡ some w → IsDecoded w
lookup-IsDecoded k end d e = ground arith
lookup-IsDecoded k (field j v m) {w} d e = elim (Bool-cases (str_eq j k)) [
  | inl hit ↦ let same : v ≡ w = ground arith in subst IsDecoded same d.0
  | inr miss ↦ lookup-IsDecoded k m d.1 (rw miss at e)
]

deep_equal-native : (v w : Value) → is_native v ≡ true → IsDecoded w → deep_equal v w ≡ true → ⊥
unfolding deep_equal
deep_equal-native (int n) (int m) h d e = d
deep_equal-native (int n) w h d e = ground arith
deep_equal-native (strs l) (strs m) h d e = d
deep_equal-native (strs l) w h d e = ground arith
deep_equal-native (dict l) (dict m) h d e = d
deep_equal-native (dict l) w h d e = ground arith
deep_equal-native (duration n) (duration m) h d e = d
deep_equal-native (duration n) w h d e = ground arith
deep_equal-native (pointer p) (pointer q) h d e = d
deep_equal-native (pointer p) w h d e = ground arith
deep_equal-native (enums t l) (enums u m) h d e = d
deep_equal-native (enums t l) w h d e = ground arith
deep_equal-native (raw j) (raw i) h d e = d
deep_equal-native (raw j) w h d e = ground arith
deep_equal-native v w h d e = ground arith

-- A map with such a value under some key differs from every map that was decoded from JSON.
pub map_equal_native :
    (k : String) (l m : Fields) {v : Value}
    → lookup k l ≡ some v
    → is_native v ≡ true
    → IsDecodedMap m
    → map_equal l (some m) ≡ false
map_equal_native k l m {v} e n d = elim (Bool-cases (map_equal l (some m))) [
  | inr different ↦ different
  | inl same ↦
      let (_, (w, found, eq)) = map_equal-lookup k l m same e in
      absurd (deep_equal-native v w n (lookup-IsDecoded k m d found) eq)
]

pub erase-IsDecodedMap : (k : String) (m : Fields) → IsDecodedMap m → IsDecodedMap (erase k m)
erase-IsDecodedMap k end d = tt
erase-IsDecodedMap k (field j v m) d = elim (Bool-cases (str_eq j k)) [
  | inl hit ↦ rw hit (erase-IsDecodedMap k m d.1)
  | inr miss ↦ rw miss (d.0, erase-IsDecodedMap k m d.1)
]
