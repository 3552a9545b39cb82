-- ===== src/VaultSecret/Hash/Stable.antt =====
-- The hash of a map does not depend on how the map is stored.
use mathlib.Core.List.{Perm}
use vault_config_operator.Common.{String, ◌≡◌, refl, ap, ◌∙◌, List, [], ◌∷◌, ℕ}
use vault_config_operator.KubeAuth.{load}
use vault_config_operator.VaultSecret.{Bytes}
use vault_config_operator.VaultSecret.Hash.{
  Hasher, keys, hash_hashes, node_sha, root_sha, hash_data, sort_strings, zeros,
}
use vault_config_operator.VaultSecret.Hash.Order.{sort_strings-Perm}

-- Two lists of entries that stand for one map: the same keys, in any order, and the same bytes.
abbrev pub IsSameMap : Bytes → Bytes → Type 0
IsSameMap m m' = Perm (keys m) (keys m') × ((k : String) → load k m ≡ load k m')

root_sha_cong :
    (h : Hasher) (m m' : Bytes)
    → ((k : String) → load k m ≡ load k m')
    → (root : List ℕ) (ks : List String) → root_sha h m root ks ≡ root_sha h m' root ks
unfolding root_sha
root_sha_cong h m m' same root [] = refl
root_sha_cong h m m' same root (k ∷ ks) =
    rw (same k) (root_sha_cong h m m' same (hash_hashes h root (node_sha h m' k)) ks)

-- Whatever the hash functions are, two lists of entries for one map have one hash, though Go's
-- iteration lists the keys in a random order.
pub hash_data-IsSameMap :
    (h : Hasher) (m m' : Bytes) → IsSameMap m m' → hash_data h m ≡ hash_data h m'
unfolding hash_data
hash_data-IsSameMap h m m' (permuted, same) =
    ap (λ ks. h.encode_to_string (root_sha h m (zeros 32) ks))
      (sort_strings-Perm (keys m) (keys m') permuted)
    ∙ ap h.encode_to_string (root_sha_cong h m m' same (zeros 32) (sort_strings (keys m')))
