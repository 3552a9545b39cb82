-- ===== src/VaultSecret/Hash/Blocks.antt =====
-- Blocks of bytes, compared and cut apart, for the hash of a secret's data.
use vault_config_operator.Common.{
  ℕ, ◌<◌, ◌≡◌, ◌≢◌, refl, ap, sym, ◌∙◌, List, [], ◌∷◌, ◌++◌, ◌⊎◌, inl, inr, Bool, true, false, ◌&&◌,
  Bool-cases, length, arith, ◌==◌, ==_iff, ltb,
}

abbrev same_bytes : List ℕ → List ℕ → Bool
same_bytes [] [] = true
same_bytes (a ∷ l) (b ∷ m) = a == b && same_bytes l m
same_bytes _ _ = false

same_bytes-eq : (l m : List ℕ) → same_bytes l m ≡ true → l ≡ m
same_bytes-eq [] [] h = refl
same_bytes-eq [] (b ∷ m) h = cc
same_bytes-eq (a ∷ l) [] h = cc
same_bytes-eq (a ∷ l) (b ∷ m) h = ground (arith, ==_iff a b, same_bytes-eq l m)

same_bytes_self : (l : List ℕ) → same_bytes l l ≡ true
same_bytes_self [] = refl
same_bytes_self (a ∷ l) = ground (arith, same_bytes_self l)

differ : (l m : List ℕ) → same_bytes l m ≡ false → l ≢ m
differ l m h p = absurd_of (ap (same_bytes l) (sym p) ∙ same_bytes_self l)
  where
    absurd_of : same_bytes l m ≡ true → ⊥
    absurd_of k = cc

pub bytes-cases : (l m : List ℕ) → (l ≡ m) ⊎ (l ≢ m)
bytes-cases l m = elim (Bool-cases (same_bytes l m)) [
  | inl h ↦ inl (same_bytes-eq l m h)
  | inr h ↦ inr (differ l m h)
]

pub order : (a b : ℕ) → (a ≡ b) ⊎ ((a < b) ⊎ (b < a))
order a b = elim (Bool-cases (a == b)) [
  | inl h ↦ inl ((==_iff a b).0 h)
  | inr h ↦ elim (Bool-cases (ltb a b)) [
    | inl k ↦ inr (inl (ground arith))
    | inr k ↦ inr (inr (ground arith))
  ]
]

pub cons-inj : {A : Type 0} (c d : A) (l m : List A) → c ∷ l ≡ d ∷ m → (c ≡ d) × (l ≡ m)
cons-inj c d l m e = (cc, cc)

pub append-inj : (a b x y : List ℕ) → length a ≡ length b → a ++ x ≡ b ++ y → (a ≡ b) × (x ≡ y)
append-inj [] [] x y h e = (refl, e)
append-inj [] (d ∷ b) x y h e = absurd (omega arith)
append-inj (c ∷ a) [] x y h e = absurd (omega arith)
append-inj (c ∷ a) (d ∷ b) x y h e =
    let (heads, tails) = cons-inj c d (a ++ x) (b ++ y) e in
    let (p, q) = append-inj a b x y (omega arith) tails in (rw (heads, p) refl, q)
