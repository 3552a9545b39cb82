-- ===== src/VaultSecret/Hash/Tests.antt =====
-- The hash of a secret's data at small data.
use vault_config_operator.Common.{refl, ◌⊎◌, [], ◌∷◌}
use vault_config_operator.VaultSecret.{Bytes}
use vault_config_operator.VaultSecret.Hash.{
  hash_data, sort_strings, insert_String, root_sha, hash_hashes, leb_String, keys,
}
use vault_config_operator.VaultSecret.Hash.Collision.{IsSameData, IsBroken, hash_data-inj}
use vault_config_operator.Samples.Digits.{one_hash, digits-inj, codes-inj}

abbrev old_data : Bytes
old_data = ("user", 1 ∷ []) ∷ []

abbrev new_data : Bytes
new_data = ("user", 2 ∷ []) ∷ []

hash_data-inj_example :
    IsSameData one_hash
      (λ x. refl)
      codes-inj
      old_data
      new_data
      (sort_strings (keys old_data))
      (sort_strings (keys new_data))
    ⊎ IsBroken one_hash
unfolding hash_data sort_strings insert_String root_sha hash_hashes leb_String
hash_data-inj_example =
    hash_data-inj one_hash (λ x. refl) codes-inj digits-inj old_data new_data refl
