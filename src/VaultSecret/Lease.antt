-- ===== src/VaultSecret/Lease.antt =====
-- When a VaultSecret is due again: `calculateDuration` of controllers/vaultsecret_controller.go.
use mathlib.Core.List.{Mem, Memᴰ, mem-cons_of_mem}
use vault_config_operator.Common.{
  ◌≡◌, refl, subst, ap, sym, ◌∙◌, none, some, ◌⊎◌, inl, inr, List, [], ◌∷◌, All, arith,
  if◌then◌else◌, Bool, true, false, Bool-cases,
}
use vault_config_operator.Common.Int.{ℤ, pos, ◌≤ℤ◌, ltb_ℤ, eqb_ℤ}
use vault_config_operator.VaultSecret.{VaultSecret, VaultSecretDefinitionStatus}
use vault_config_operator.VaultSecret.Controller.{
  smallest_lease, leased, calculate_duration, max_int64,
}

-- A lease of the list that no other is below.
abbrev pub IsLeast : VaultSecretDefinitionStatus → List VaultSecretDefinitionStatus → Type 0
IsLeast least stats = Mem least stats × All (λ s. least.lease_duration ≤ℤ s.lease_duration) stats

All-below :
    (a b : ℤ)
    → a ≤ℤ b
    → (stats : List VaultSecretDefinitionStatus) → All (λ s. b ≤ℤ s.lease_duration) stats
    → All (λ s. a ≤ℤ s.lease_duration) stats
All-below a b h [] all = tt
All-below a b h (s ∷ stats) (first, rest) = (omega arith, All-below a b h stats rest)

smallest_lease_first :
    (start : ℤ) (s : VaultSecretDefinitionStatus) (stats : List VaultSecretDefinitionStatus)
    → ltb_ℤ s.lease_duration start ≡ true
    → smallest_lease start (s ∷ stats) ≡ smallest_lease s.lease_duration stats
unfolding smallest_lease
smallest_lease_first start s stats h = rw h refl

smallest_lease_rest :
    (start : ℤ) (s : VaultSecretDefinitionStatus) (stats : List VaultSecretDefinitionStatus)
    → ltb_ℤ s.lease_duration start ≡ false
    → smallest_lease start (s ∷ stats) ≡ smallest_lease start stats
unfolding smallest_lease
smallest_lease_rest start s stats h = rw h refl

abbrev IsLower : ℤ → ℤ → List VaultSecretDefinitionStatus → Type 0
IsLower r start stats = (r ≤ℤ start) × All (λ s. r ≤ℤ s.lease_duration) stats

smallest_lease-IsLower :
    (start : ℤ) (stats : List VaultSecretDefinitionStatus)
    → IsLower (smallest_lease start stats) start stats
unfolding smallest_lease
smallest_lease-IsLower start [] = (omega arith, tt)
smallest_lease-IsLower start (s ∷ stats) = elim (Bool-cases (ltb_ℤ s.lease_duration start)) [
  | inl h ↦
      let (below, all) = smallest_lease-IsLower s.lease_duration stats in
      subst (λ r. IsLower r start (s ∷ stats)) (sym (smallest_lease_first start s stats h))
        (ground arith, (below, all))
  | inr h ↦
      let (below, all) = smallest_lease-IsLower start stats in
      subst (λ r. IsLower r start (s ∷ stats)) (sym (smallest_lease_rest start s stats h))
        (below, (ground arith, all))
]

abbrev Attained : ℤ → ℤ → List VaultSecretDefinitionStatus → Type 0
Attained r start stats =
    (r ≡ start) ⊎ ((s : VaultSecretDefinitionStatus) × Mem s stats × (r ≡ s.lease_duration))

smallest_lease-Attained :
    (start : ℤ) (stats : List VaultSecretDefinitionStatus)
    → Attained (smallest_lease start stats) start stats
unfolding smallest_lease
smallest_lease-Attained start [] = inl refl
smallest_lease-Attained start (s ∷ stats) = elim (Bool-cases (ltb_ℤ s.lease_duration start)) [
  | inl h ↦
      subst (λ r. Attained r start (s ∷ stats)) (sym (smallest_lease_first start s stats h))
        (elim (smallest_lease-Attained s.lease_duration stats) [
          | inl p ↦ inr (s, ∣ Memᴰ.head refl ∣₁, p)
          | inr (d, m, p) ↦ inr (d, mem-cons_of_mem s m, p)
        ])
  | inr h ↦
      subst (λ r. Attained r start (s ∷ stats)) (sym (smallest_lease_rest start s stats h))
        (elim (smallest_lease-Attained start stats) [
          | inl p ↦ inl p
          | inr (d, m, p) ↦ inr (d, mem-cons_of_mem s m, p)
        ])
]

calculable :
    (share : ℤ → ℤ → ℤ) (threshold t smallest : ℤ) (b : Bool)
    → (if b then none else some (share threshold smallest)) ≡ some t
    → (b ≡ false) × (t ≡ share threshold smallest)
calculable share threshold t smallest true h = cc
calculable share threshold t smallest false h = (refl, cc)

leased-IsLeast :
    (share : ℤ → ℤ → ℤ) (threshold t : ℤ) (stats : List VaultSecretDefinitionStatus)
    → leased share threshold (some stats) ≡ some t
    → (least : VaultSecretDefinitionStatus) × IsLeast least stats
      × (t ≡ share threshold least.lease_duration)
unfolding leased
leased-IsLeast share threshold t stats h =
    let smallest = smallest_lease (pos max_int64) stats in
    let (some_lease, share_of) =
      calculable share threshold t smallest (eqb_ℤ smallest (pos max_int64)) h in
    elim (smallest_lease-Attained (pos max_int64) stats) [
      | inl p ↦ absurd (differs smallest p some_lease)
      | inr (d, m, p) ↦ (
        d,
        (
          m,
          subst (λ r. All (λ s. r ≤ℤ s.lease_duration) stats) p
              (smallest_lease-IsLower (pos max_int64) stats).1,
        ),
        share_of ∙ ap (share threshold) p,
      )
    ]
  where
    differs : (r : ℤ) → r ≡ pos max_int64 → eqb_ℤ r (pos max_int64) ≡ false → ⊥
    differs r p e = cc

calculated :
    (share : ℤ → ℤ → ℤ) (d : VaultSecret) (stats : List VaultSecretDefinitionStatus)
    → d.spec.refresh_period ≡ none
    → d.status.vault_secret_definitions_status ≡ some stats
    → calculate_duration share d ≡ leased share d.spec.refresh_threshold (some stats)
unfolding calculate_duration
calculated share d stats h k = rw (h, k) refl

-- If a VaultSecret has no refresh period and its duration is calculable, then the duration is the
-- threshold's share of the lease of one definition, and no definition has a smaller lease.
pub calculate_duration-IsLeast :
    (share : ℤ → ℤ → ℤ) (d : VaultSecret) (t : ℤ) (stats : List VaultSecretDefinitionStatus)
    → d.spec.refresh_period ≡ none
    → d.status.vault_secret_definitions_status ≡ some stats
    → calculate_duration share d ≡ some t
    → (least : VaultSecretDefinitionStatus) × IsLeast least stats
      × (t ≡ share d.spec.refresh_threshold least.lease_duration)
unfolding calculate_duration
calculate_duration-IsLeast share d t stats h k e =
    leased-IsLeast share d.spec.refresh_threshold t stats (sym (calculated share d stats h k) ∙ e)
