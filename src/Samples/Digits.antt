-- ===== src/Samples/Digits.antt =====
-- A hash of one value, and codes of strings and bytes that lose nothing.
use Prim.Native.Char.{code}
use Prim.Native.String.{◌∷◌}
use text.Mathlib.TextEquality.{Char-path}
use vault_config_operator.Common.{ℕ, zero, suc, String, ◌≡◌, refl, ap, sym, List, [], ◌∷◌}
use vault_config_operator.VaultSecret.Hash.{Hasher, zeros}

abbrev pub codes : String → List ℕ
codes String.[] = []
codes (c ∷ s) = code c ∷ codes s

abbrev pub mark : ℕ → String → String
mark zero s = "|" ∷ s
mark (suc n) s = "1" ∷ mark n s

abbrev pub digits : List ℕ → String
digits [] = ""
digits (n ∷ l) = mark n (digits l)

abbrev pub one_hash : Hasher
one_hash = record { sum256 = λ x. zeros 32; bytes_of = codes; encode_to_string = digits }

abbrev first_code : String → ℕ
first_code String.[] = 0
first_code (c ∷ s) = code c

abbrev rest : String → String
rest String.[] = ""
rest (c ∷ s) = s

mark-inj : (n m : ℕ) (s t : String) → mark n s ≡ mark m t → (n ≡ m) × (s ≡ t)
mark-inj zero zero s t e = (refl, ap rest e)
mark-inj zero (suc m) s t e = absurd (differ (ap first_code e))
  where
    differ : ◌≡◌ {A = ℕ} 124 49 → ⊥
    differ h = cc
mark-inj (suc n) zero s t e = absurd (differ (ap first_code e))
  where
    differ : ◌≡◌ {A = ℕ} 49 124 → ⊥
    differ h = cc
mark-inj (suc n) (suc m) s t e = let (p, q) = mark-inj n m s t (ap rest e) in (ap suc p, q)

mark-nonempty : (n : ℕ) (s : String) → first_code (mark n s) ≡ 0 → ⊥
mark-nonempty zero s h = cc
mark-nonempty (suc n) s h = cc

pub digits-inj : (l m : List ℕ) → digits l ≡ digits m → l ≡ m
digits-inj [] [] e = refl
digits-inj [] (n ∷ m) e = absurd (mark-nonempty n (digits m) (ap first_code (sym e)))
digits-inj (n ∷ l) [] e = absurd (mark-nonempty n (digits l) (ap first_code e))
digits-inj (n ∷ l) (k ∷ m) e =
    let (p, q) = mark-inj n k (digits l) (digits m) e in rw (p, digits-inj l m q) refl

cons-inj :
    (a b : ℕ) (l m : List ℕ)
    → vault_config_operator.Common.◌∷◌ a l ≡ vault_config_operator.Common.◌∷◌ b m
    → (a ≡ b) × (l ≡ m)
cons-inj a b l m e = (cc, cc)

pub codes-inj : (s t : String) → codes s ≡ codes t → s ≡ t
codes-inj String.[] String.[] e = refl
codes-inj String.[] (d ∷ t) e = cc
codes-inj (c ∷ s) String.[] e = cc
codes-inj (c ∷ s) (d ∷ t) e =
    let (heads, tails) = cons-inj (code c) (code d) (codes s) (codes t) e in
    λ i. Char-path c d heads i ∷ codes-inj s t tails i
