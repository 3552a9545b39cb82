-- ===== src/VaultSecret/Hash.antt =====
-- The hash of a Kubernetes secret's data: controllers/vaultsecretutils/hash.go. SHA-256, the
-- encoding of texts as bytes and that of bytes as hexadecimal digits are parameters.
pub mod Order
pub mod Stable
mod Blocks
mod Tests
pub mod Collision
use Prim.Native.Char.{code}
use Prim.Native.String
use Prim.Native.String.{◌∷◌}
use vault_config_operator.Common.{
  ℕ, String, Bool, true, false, List, [], ◌∷◌, ◌++◌, map, Option, none, some, if◌then◌else◌, ltb,
  ◌==◌, zero, suc,
}
use vault_config_operator.KubeAuth.{load}
use vault_config_operator.VaultSecret.{Bytes}

pub record Hasher : Type 0 where
  pub sum256 : List ℕ → List ℕ
  pub bytes_of : String → List ℕ
  pub encode_to_string : List ℕ → String

-- The order of Go's strings: that of the characters' codes, which is that of their bytes in UTF-8.
unfoldable pub leb_String : String → String → Bool
leb_String String.[] t = true
leb_String (c ∷ s) String.[] = false
leb_String (c ∷ s) (d ∷ t) =
    let rest = leb_String s t in if code c == code d then rest else ltb (code c) (code d)

-- `sort.Strings`; on strings, every sort has the same result.
unfoldable pub insert_String : String → List String → List String
insert_String k [] = k ∷ []
insert_String k (j ∷ keys) =
    let rest = insert_String k keys in if leb_String k j then k ∷ j ∷ keys else j ∷ rest

unfoldable pub sort_strings : List String → List String
sort_strings [] = []
sort_strings (k ∷ keys) = insert_String k (sort_strings keys)

-- A variable of type `[32]byte`.
abbrev pub zeros : ℕ → List ℕ
zeros zero = []
zeros (suc n) = 0 ∷ zeros n

-- `data[k]`, nil for a missing key.
abbrev pub bytes_at : Option (List ℕ) → List ℕ
bytes_at none = []
bytes_at (some bytes) = bytes

abbrev pub keys : Bytes → List String
keys data_map = map (λ e. e.0) data_map

module _ (h : Hasher) where
  unfoldable pub hash_hashes : List ℕ → List ℕ → List ℕ
  hash_hashes l r = h.sum256 (l ++ r)

  abbrev pub node_sha : Bytes → String → List ℕ
  node_sha data_map k =
      hash_hashes (h.sum256 (h.bytes_of k)) (h.sum256 (bytes_at (load k data_map)))

  -- The loop over the sorted keys.
  unfoldable pub root_sha : Bytes → List ℕ → List String → List ℕ
  root_sha data_map root [] = root
  root_sha data_map root (k ∷ ks) = root_sha data_map (hash_hashes root (node_sha data_map k)) ks

  unfoldable pub hash_data : Bytes → String
  hash_data data_map =
      h.encode_to_string (root_sha data_map (zeros 32) (sort_strings (keys data_map)))
