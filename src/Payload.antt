-- ===== src/Payload.antt =====
-- `map[string]interface{}`: what the operator sends to Vault and what Vault sends back, and
-- `reflect.DeepEqual` on such maps, by which `IsEquivalentToDesiredState` compares.
-- A map is an association list with one entry for each key; `Fields` is a list of its own, since
-- maps hold maps.
pub mod Laws
mod Tests
pub mod Decoded
use vault_config_operator.Common.{
  ℕ, zero, suc, String, Bool, true, false, ◌&&◌, List, [], ◌∷◌, Option, none, some, ◌==◌,
  if◌then◌else◌, str_eq,
}
use vault_config_operator.Common.Int.{ℤ, eqb_ℤ}

-- The values behind `interface{}`, by their dynamic type: `strs` is `[]string`, `arr` is
-- `[]interface{}`, `dict` is `map[string]string`, `obj` is `map[string]interface{}` and `number`
-- is `json.Number`, with its text. `strs none` and `dict none` are the nil slice and map.
-- `duration` is `metav1.Duration`, `pointer` is `*string`, `enums` is a slice of the string type of
-- the name, and `raw` is `*apiextensionsv1.JSON`, with its text.
mutual
  pub data Value : Type 0 where
    nil : Value
    str : String → Value
    bool : Bool → Value
    int : ℤ → Value
    number : String → Value
    strs : Option (List String) → Value
    dict : Option (List (String × String)) → Value
    duration : ℤ → Value
    pointer : Option String → Value
    enums : String → Option (List String) → Value
    raw : Option String → Value
    arr : Items → Value
    obj : Fields → Value

  pub data Items : Type 0 where
    done : Items
    item : Value → Items → Items

  pub data Fields : Type 0 where
    end : Fields
    field : String → Value → Fields → Fields

abbrev pub Payload : Type 0
Payload = Fields

-- `m[k]` with the flag of `v, ok := m[k]`.
abbrev pub lookup : String → Fields → Option Value
lookup k end = none
lookup k (field j v m) = if str_eq j k then some v else lookup k m

-- `m[k] = v`.
abbrev pub insert : String → Value → Fields → Fields
insert k v end = field k v end
insert k v (field j w m) = if str_eq j k then field j v m else field j w (insert k v m)

-- `delete(m, k)`.
abbrev pub erase : String → Fields → Fields
erase k end = end
erase k (field j v m) = if str_eq j k then erase k m else field j v (erase k m)

abbrev pub size : Fields → ℕ
size end = 0
size (field k v m) = suc (size m)

abbrev pub bool_eq : Bool → Bool → Bool
bool_eq true b = b
bool_eq false true = false
bool_eq false false = true

abbrev pub strs_eq : List String → List String → Bool
strs_eq [] [] = true
strs_eq (x ∷ xs) (y ∷ ys) = str_eq x y && strs_eq xs ys
strs_eq _ _ = false

abbrev lookup_str : String → List (String × String) → Option String
lookup_str k [] = none
lookup_str k ((j, v) ∷ m) = if str_eq j k then some v else lookup_str k m

abbrev found_str : String → Option String → Bool
found_str v none = false
found_str v (some w) = str_eq v w

-- Each entry of the first map is in the second.
abbrev dict_within : List (String × String) → List (String × String) → Bool
dict_within [] m = true
dict_within ((k, v) ∷ l) m = found_str v (lookup_str k m) && dict_within l m

abbrev entries : List (String × String) → ℕ
entries [] = 0
entries (_ ∷ m) = suc (entries m)

abbrev dict_eq : List (String × String) → List (String × String) → Bool
dict_eq l m = entries l == entries m && dict_within l m

-- Nil and empty are told apart.
abbrev both {ℓ} : {A : Type ℓ} → (A → A → Bool) → Option A → Option A → Bool
both eq none none = true
both eq (some a) (some b) = eq a b
both eq _ _ = false

-- `reflect.DeepEqual`: values of different dynamic types are never equal; maps are equal if they
-- have as many entries and each key of one has an equal value in the other.
unfoldable mutual
  pub deep_equal : Value → Value → Bool
  deep_equal nil nil = true
  deep_equal (str s) (str t) = str_eq s t
  deep_equal (bool a) (bool b) = bool_eq a b
  deep_equal (int a) (int b) = eqb_ℤ a b
  deep_equal (number s) (number t) = str_eq s t
  deep_equal (strs l) (strs m) = both strs_eq l m
  deep_equal (dict l) (dict m) = both dict_eq l m
  deep_equal (duration a) (duration b) = eqb_ℤ a b
  deep_equal (pointer s) (pointer t) = both str_eq s t
  deep_equal (enums s l) (enums t m) = str_eq s t && both strs_eq l m
  deep_equal (raw s) (raw t) = both str_eq s t
  deep_equal (arr xs) (arr ys) = items_equal xs ys
  deep_equal (obj l) (obj m) = size l == size m && fields_within l m
  deep_equal _ _ = false

  pub items_equal : Items → Items → Bool
  items_equal done done = true
  items_equal (item x xs) (item y ys) = deep_equal x y && items_equal xs ys
  items_equal _ _ = false

  -- Each entry of the first map is in the second.
  pub fields_within : Fields → Fields → Bool
  fields_within end m = true
  fields_within (field k v l) m = elim (lookup k m) [
    | none ↦ false
    | some w ↦ deep_equal v w && fields_within l m
  ]

-- `reflect.DeepEqual(m, payload)` for a map that is not nil and one that may be.
unfoldable pub map_equal : Fields → Option Fields → Bool
unfolding deep_equal
map_equal l none = false
map_equal l (some m) = deep_equal (obj l) (obj m)
