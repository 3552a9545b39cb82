-- ===== src/VaultSecret/Hash/Order.antt =====
-- The order of strings that `sort.Strings` uses, and that its result does not depend on the order
-- in which the strings come.
use Prim.Native.Char.{Char, code}
use Prim.Native.String.{◌∷◌}
use text.Mathlib.TextEquality.{Char-path, IsScalar-prop}
use mathlib.Core.Logic.{∥∥₁_elim}
use mathlib.Core.List.{Permᴰ, Perm}
use vault_config_operator.Common.{
  String, ◌≡◌, refl, sym, ◌∙◌, true, false, Bool-cases, ◌⊎◌, inl, inr, List, [], ◌∷◌, arith,
}
use vault_config_operator.VaultSecret.Hash.{leb_String, insert_String, sort_strings}

pub leb_String_total : (s t : String) → leb_String s t ≡ false → leb_String t s ≡ true
unfolding leb_String
leb_String_total String.[] t h = cc
leb_String_total (c ∷ s) String.[] h = refl
leb_String_total (c ∷ s) (d ∷ t) h = ground (arith, leb_String_total s t)

pub leb_String_trans :
    (s t u : String) → leb_String s t ≡ true → leb_String t u ≡ true → leb_String s u ≡ true
unfolding leb_String
leb_String_trans String.[] t u h k = refl
leb_String_trans (c ∷ s) String.[] u h k = cc
leb_String_trans (c ∷ s) (d ∷ t) String.[] h k = cc
leb_String_trans (c ∷ s) (d ∷ t) (b ∷ u) h k = ground (arith, leb_String_trans s t u)

leb_String_heads :
    (c d : Char) (s t : String)
    → leb_String (c ∷ s) (d ∷ t) ≡ true
    → leb_String (d ∷ t) (c ∷ s) ≡ true
    → (code c ≡ code d) × (leb_String s t ≡ true) × (leb_String t s ≡ true)
unfolding leb_String
leb_String_heads c d s t h k = (ground arith, ground arith, ground arith)

pub leb_String_antisym : (s t : String) → leb_String s t ≡ true → leb_String t s ≡ true → s ≡ t
unfolding leb_String
leb_String_antisym String.[] String.[] h k = refl
leb_String_antisym String.[] (d ∷ t) h k = cc
leb_String_antisym (c ∷ s) String.[] h k = cc
leb_String_antisym (c ∷ s) (d ∷ t) h k =
    let (heads, below, above) = leb_String_heads c d s t h k in
    λ i. Char-path c d heads i ∷ leb_String_antisym s t below above i

-- Two strings are one, or strictly ordered one way or the other.
leb_String-cases :
    (s t : String)
    → (s ≡ t)
      ⊎ (((leb_String s t ≡ true) × (leb_String t s ≡ false))
          ⊎ ((leb_String s t ≡ false) × (leb_String t s ≡ true)))
leb_String-cases s t = elim (Bool-cases (leb_String s t)) [
  | inl h ↦ elim (Bool-cases (leb_String t s)) [
    | inl k ↦ inl (leb_String_antisym s t h k)
    | inr k ↦ inr (inl (h, k))
  ]
  | inr h ↦ inr (inr (h, leb_String_total s t h))
]

insert_String_below :
    (s t : String)
    → leb_String s t ≡ true
    → leb_String t s ≡ false
    → (l : List String) → insert_String s (insert_String t l) ≡ insert_String t (insert_String s l)
unfolding insert_String
insert_String_below s t h k [] = rw (h, k) refl
insert_String_below s t h k (u ∷ l) = ground (
  arith,
  leb_String_trans s t u,
  leb_String_total t u,
  leb_String_total s u,
  insert_String_below s t h k l,
)

insert_String_comm :
    (s t : String) (l : List String)
    → insert_String s (insert_String t l) ≡ insert_String t (insert_String s l)
insert_String_comm s t l = elim (leb_String-cases s t) [
  | inl p ↦ rw p refl
  | inr (inl (h, k)) ↦ insert_String_below s t h k l
  | inr (inr (h, k)) ↦ sym (insert_String_below t s k h l)
]

permuted : (l l' : List String) → Permᴰ l l' → sort_strings l ≡ sort_strings l'
unfolding sort_strings
permuted l l' Permᴰ.nil = refl
permuted l l' (Permᴰ.cons {a = a} {l₁ = m} {l₂ = m'} e p) = rw (e, permuted m m' p) refl
permuted l l' (Permᴰ.swap {a = a} {b = b} {l = m} e f) =
    rw (e, f) (insert_String_comm _ _ (sort_strings m))
permuted l l' (Permᴰ.trans {l₂ = m} p q) = permuted l m p ∙ permuted m l' q

-- Sorting forgets the order in which the keys of a map come.
pub sort_strings-Perm : (l l' : List String) → Perm l l' → sort_strings l ≡ sort_strings l'
sort_strings-Perm l l' p = ∥∥₁_elim p (hlevel IsScalar-prop) (permuted l l')
