-- ===== src/Samples/Filter.antt =====
-- Listings that keep what passes a test.
use mathlib.Core.List.{Memᴰ}
use mathlib.Core.List.Memᴰ
use vault_config_operator.Common.{
  ◌≡◌, ap, ◌∙◌, ◌↔◌, Bool, true, false, Bool-cases, inl, inr, List, [], ◌∷◌, if◌then◌else◌,
}

module _ {A : Type 0} (p : A → Bool) where
  abbrev pub keep : List A → List A
  keep [] = []
  keep (x ∷ xs) = let rest = keep xs in if p x then x ∷ rest else rest

  unpassed : (x y : A) → p y ≡ false → x ≡ y → p x ≡ true → ⊥
  unpassed x y e q h = let same = ap p q in cc

  pub keep-Memᴰ : (x : A) (xs : List A) → Memᴰ x (keep xs) ↔ (Memᴰ x xs × (p x ≡ true))
  keep-Memᴰ x [] = ((λ m. elim m [ ]), λ (m, _). elim m [ ])
  keep-Memᴰ x (y ∷ xs) =
      let ih = keep-Memᴰ x xs in
      elim (Bool-cases (p y)) [
        | inl e ↦ rw e (
          (λ m. elim (Memᴰ.cases_cons m) [
            | inl q ↦ (Memᴰ.head q, ap p q ∙ e)
            | inr n ↦ let (n', h) = ih.0 n in (Memᴰ.tail n', h)
          ]),
          λ (m, h). elim (Memᴰ.cases_cons m) [
            | inl q ↦ Memᴰ.head q
            | inr n ↦ Memᴰ.tail (ih.1 (n, h))
          ],
        )
        | inr e ↦ rw e (
          (λ m. let (n, h) = ih.0 m in (Memᴰ.tail n, h)),
          λ (m, h). elim (Memᴰ.cases_cons m) [
            | inl q ↦ absurd (unpassed x y e q h)
            | inr n ↦ ih.1 (n, h)
          ],
        )
      ]
