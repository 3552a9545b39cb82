-- ===== src/VaultSecret/Hash/Collision.antt =====
-- Different data have different hashes, unless the hash function itself is broken.
use vault_config_operator.Common.{
  ℕ, ◌<◌, String, ◌≡◌, ◌≢◌, refl, ap, sym, ◌∙◌, List, [], ◌∷◌, ◌++◌, ◌⊎◌, inl, inr, All, length,
  map, arith,
}
use vault_config_operator.KubeAuth.{load}
use vault_config_operator.VaultSecret.{Bytes}
use vault_config_operator.VaultSecret.Hash.Blocks.{bytes-cases, order, cons-inj, append-inj}
use vault_config_operator.VaultSecret.Hash.{
  Hasher, keys, bytes_at, hash_hashes, node_sha, root_sha, hash_data, sort_strings, zeros,
}

module _ (h : Hasher) where
  -- Two inputs with one hash, or an input whose hash is all zeros, where the chain of hashes starts.
  abbrev pub IsBroken : Type 0
  IsBroken =
      ((x y : List ℕ) × (x ≢ y) × (h.sum256 x ≡ h.sum256 y))
      ⊎ ((x : List ℕ) × (h.sum256 x ≡ zeros 32))

  sum256-inj : (x y : List ℕ) → h.sum256 x ≡ h.sum256 y → (x ≡ y) ⊎ IsBroken
  sum256-inj x y e = elim (bytes-cases x y) [ inl p ↦ inl p | inr n ↦ inr (inl (x, y, n, e)) ]

  module _ (sized : (x : List ℕ) → length (h.sum256 x) ≡ 32) where
    -- Two hashes of two blocks each.
    pair-inj :
        (a b x y : List ℕ)
        → length a ≡ length b
        → hash_hashes h a x ≡ hash_hashes h b y
        → ((a ≡ b) × (x ≡ y)) ⊎ IsBroken
    unfolding hash_hashes
    pair-inj a b x y len e = elim (sum256-inj (a ++ x) (b ++ y) e) [
      | inl p ↦ inl (append-inj a b x y len p)
      | inr bad ↦ inr bad
    ]

    sized_pair : (a x : List ℕ) → length (hash_hashes h a x) ≡ 32
    unfolding hash_hashes
    sized_pair a x = sized (a ++ x)

    root_sha-inj :
        (m m' : Bytes) (a b : List ℕ) (ks ks' : List String)
        → length a ≡ length b
        → length ks ≡ length ks'
        → root_sha h m a ks ≡ root_sha h m' b ks'
        → ((a ≡ b) × (map (node_sha h m) ks ≡ map (node_sha h m') ks')) ⊎ IsBroken
    unfolding root_sha
    root_sha-inj m m' a b [] [] len len' e = inl (e, refl)
    root_sha-inj m m' a b [] (k' ∷ ks') len len' e = absurd (omega arith)
    root_sha-inj m m' a b (k ∷ ks) [] len len' e = absurd (omega arith)
    root_sha-inj m m' a b (k ∷ ks) (k' ∷ ks') len len' e =
        elim (root_sha-inj m m' (hash_hashes h a (node_sha h m k))
          (hash_hashes h b (node_sha h m' k')) ks ks'
          (sized_pair a (node_sha h m k) ∙ sym (sized_pair b (node_sha h m' k'))) (omega arith) e) [
            | inl (p, q) ↦ elim (pair-inj a b (node_sha h m k) (node_sha h m' k') len p) [
              | inl (r, n) ↦ inl (r, rw (n, q) refl)
              | inr bad ↦ inr bad
            ]
            | inr bad ↦ inr bad
          ]

    -- A longer chain ends where a shorter one does only if the start of the shorter one is a hash.
    root_sha_longer :
        (m m' : Bytes) (a b : List ℕ) (ks ks' : List String)
        → length a ≡ 32
        → length b ≡ 32
        → length ks < length ks'
        → root_sha h m a ks ≡ root_sha h m' b ks'
        → ((z : List ℕ) × (h.sum256 z ≡ a)) ⊎ IsBroken
    unfolding root_sha hash_hashes
    root_sha_longer m m' a b ks [] la lb len e = absurd (omega arith)
    root_sha_longer m m' a b ks (k' ∷ ks') la lb len e =
        let start = hash_hashes h b (node_sha h m' k') in
        let there = sized_pair b (node_sha h m' k') in
        elim (order (length ks) (length ks')) [
          | inl same ↦ elim (root_sha-inj m m' a start ks ks' (la ∙ sym there) same e) [
            | inl (p, q) ↦ inl (b ++ node_sha h m' k', sym p)
            | inr bad ↦ inr bad
          ]
          | inr (inl less) ↦ root_sha_longer m m' a start ks ks' la there less e
          | inr (inr more) ↦ absurd (omega arith)
        ]

    from_zeros : ((z : List ℕ) × (h.sum256 z ≡ zeros 32)) ⊎ IsBroken → IsBroken
    from_zeros (inl zero_hash) = inr zero_hash
    from_zeros (inr bad) = bad

    root_sha-zeros :
        (m m' : Bytes) (ks ks' : List String)
        → root_sha h m (zeros 32) ks ≡ root_sha h m' (zeros 32) ks'
        → (map (node_sha h m) ks ≡ map (node_sha h m') ks') ⊎ IsBroken
    root_sha-zeros m m' ks ks' e = elim (order (length ks) (length ks')) [
      | inl same ↦ elim (root_sha-inj m m' (zeros 32) (zeros 32) ks ks' refl same e) [
        | inl (_, nodes) ↦ inl nodes
        | inr bad ↦ inr bad
      ]
      | inr (inl less) ↦
          inr (from_zeros (root_sha_longer m m' (zeros 32) (zeros 32) ks ks' refl refl less e))
      | inr (inr more) ↦
          inr
            (from_zeros (root_sha_longer m' m (zeros 32) (zeros 32) ks' ks refl refl more (sym e)))
    ]

    module _ (bytes_of-inj : (s t : String) → h.bytes_of s ≡ h.bytes_of t → s ≡ t) where
      node_sha-inj :
          (m m' : Bytes) (k k' : String)
          → node_sha h m k ≡ node_sha h m' k'
          → ((k ≡ k') × (bytes_at (load k m) ≡ bytes_at (load k' m'))) ⊎ IsBroken
      node_sha-inj m m' k k' e =
          elim (pair-inj (h.sum256 (h.bytes_of k)) (h.sum256 (h.bytes_of k'))
            (h.sum256 (bytes_at (load k m))) (h.sum256 (bytes_at (load k' m')))
            (sized (h.bytes_of k) ∙ sym (sized (h.bytes_of k'))) e) [
              | inr bad ↦ inr bad
              | inl (p, q) ↦ elim (sum256-inj (h.bytes_of k) (h.bytes_of k') p) [
                | inr bad ↦ inr bad
                | inl same_key ↦ elim (sum256-inj (bytes_at (load k m)) (bytes_at (load k' m')) q) [
                  | inr bad ↦ inr bad
                  | inl same_data ↦ inl (bytes_of-inj k k' same_key, same_data)
                ]
              ]
            ]

      -- The same keys, in order, and under each of them the same bytes.
      abbrev pub IsSameData : Bytes → Bytes → List String → List String → Type 0
      IsSameData m m' ks ks' = (ks ≡ ks') × All (λ k. bytes_at (load k m) ≡ bytes_at (load k m')) ks

      nodes-inj :
          (m m' : Bytes) (ks ks' : List String)
          → map (node_sha h m) ks ≡ map (node_sha h m') ks'
          → IsSameData m m' ks ks' ⊎ IsBroken
      nodes-inj m m' [] [] e = inl (refl, tt)
      nodes-inj m m' [] (k' ∷ ks') e = cc
      nodes-inj m m' (k ∷ ks) [] e = cc
      nodes-inj m m' (k ∷ ks) (k' ∷ ks') e =
          let (first, rest) = cons-inj _ _ _ _ e in
          elim (node_sha-inj m m' k k' first) [
            | inr bad ↦ inr bad
            | inl (p, here) ↦ elim (nodes-inj m m' ks ks' rest) [
              | inr bad ↦ inr bad
              | inl (q, there) ↦
                  inl (rw (p, q) refl, (here ∙ ap (λ j. bytes_at (load j m')) (sym p), there))
            ]
          ]

      -- If every hash has 32 bytes, and no two strings have the same bytes and no two hashes the
      -- same digits, then data with one hash are the same data, or else the hash function has a
      -- collision or an input whose hash is all zeros.
      pub hash_data-inj :
          (encode-inj : (l m : List ℕ) → h.encode_to_string l ≡ h.encode_to_string m → l ≡ m)
          (m m' : Bytes)
          → hash_data h m ≡ hash_data h m'
          → IsSameData m m' (sort_strings (keys m)) (sort_strings (keys m')) ⊎ IsBroken
      unfolding hash_data
      hash_data-inj encode-inj m m' e =
          elim (root_sha-zeros m m' (sort_strings (keys m)) (sort_strings (keys m'))
            (encode-inj _ _ e)) [
              | inr bad ↦ inr bad
              | inl nodes ↦ nodes-inj m m' (sort_strings (keys m)) (sort_strings (keys m')) nodes
            ]
