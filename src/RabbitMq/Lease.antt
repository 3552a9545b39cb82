-- ===== src/RabbitMq/Lease.antt =====
-- Which leases are ever sent to Vault.
use vault_config_operator.Common.{
  String, ◌≡◌, refl, ap, sym, subst, ◌∙◌, Bool, true, false, not, ◌||◌, arith, Bool-cases, Option,
  none, some, ◌⊎◌, inl, inr, if◌then◌else◌,
}
use vault_config_operator.Common.Int.{ℤ, pos, negsuc, eqb_ℤ}
use vault_config_operator.Common.Action.{Result, ok}
use vault_config_operator.Payload.{Payload, end, field, int}
use vault_config_operator.Vault.{Vault, read, write}
use vault_config_operator.Vault.Store.{IsStore}
use vault_config_operator.Vault.Calls.{read-keeps, write-stores, write-keeps}
use vault_config_operator.Endpoint.{Cell, VaultObject, create_or_update, create_or_update_lease}
use vault_config_operator.Endpoint.Converge.{Course, course, fails, agrees, writes}
use vault_config_operator.RabbitMq.{
  RabbitMqSecretEngineConfig, leases, check_ttl_values_provided, get_lease_path, get_lease_payload,
  leases_to_map,
}

abbrev pub zero_lease : Payload
zero_lease = field "ttl" (int (pos 0)) (field "max_ttl" (int (pos 0)) end)

zero_of : (a : ℤ) → not (eqb_ℤ a (pos 0)) ≡ false → a ≡ pos 0
zero_of (pos n) h = ground arith
zero_of (negsuc n) h = ground arith

neither : (a b : Bool) → (if a || b then true else false) ≡ false → (a ≡ false) × (b ≡ false)
neither true b h = ground arith
neither false true h = ground arith
neither false false h = (refl, refl)

unprovided :
    (d : RabbitMqSecretEngineConfig)
    → check_ttl_values_provided d ≡ false
    → get_lease_payload d ≡ zero_lease
unfolding check_ttl_values_provided get_lease_payload leases_to_map
unprovided d h =
    let (a, b) =
      neither (not (eqb_ℤ d.spec.rmqse_config.lease_ttl (pos 0)))
        (not (eqb_ℤ d.spec.rmqse_config.lease_max_ttl (pos 0))) h in
    ground
      (arith, zero_of d.spec.rmqse_config.lease_ttl a, zero_of d.spec.rmqse_config.lease_max_ttl b)

module _ {W : Type 0} (v : Vault W) (o : VaultObject RabbitMqSecretEngineConfig W)
    (at : W → String → Option Payload) (stored : String → Payload → Payload)
    (apart : String → String → Type 0) (store : IsStore v at stored apart) where
  -- The object with the place and the payload of its lease.
  abbrev as_lease : VaultObject RabbitMqSecretEngineConfig W
  as_lease = record o { get_path = leases.get_lease_path; get_payload = leases.get_lease_payload }

  -- What a step for the lease has done: it makes no call if one of the values is given. One that
  -- succeeds leaves at the lease's place what was there or a lease of two zeros, and changes no place
  -- apart from it; and if there was nothing, and no value is given, it leaves the lease of two zeros.
  abbrev pub IsUnsent :
      Cell RabbitMqSecretEngineConfig W
      → Result (Unit {0}) × Cell RabbitMqSecretEngineConfig W
      → Type 0
  IsUnsent c (r, c') =
      let place = get_lease_path c.object in
      (check_ttl_values_provided c.object ≡ true → (r ≡ ok tt) × (c' ≡ c))
      × (r ≡ ok tt
          → ((at c'.world place ≡ at c.world place)
              ⊎ (at c'.world place ≡ some (stored place zero_lease)))
            × ((q : String) → apart place q → at c'.world q ≡ at c.world q))
      × (check_ttl_values_provided c.object ≡ false
          → (read v place c.world).0 ≡ ok (none, false)
          → r ≡ ok tt
          → at c'.world place ≡ some (stored place zero_lease))

  given_lem :
      (c : Cell RabbitMqSecretEngineConfig W)
      → check_ttl_values_provided c.object ≡ true
      → create_or_update_lease v o leases c ≡ (ok tt, c)
  unfolding create_or_update_lease
  given_lem c given = rw given refl

  not_given_lem :
      (c : Cell RabbitMqSecretEngineConfig W)
      → check_ttl_values_provided c.object ≡ false
      → create_or_update_lease v o leases c ≡ create_or_update v as_lease c
  unfolding create_or_update_lease create_or_update
  not_given_lem c not_given = rw not_given refl

  written-zero :
      (c : Cell RabbitMqSecretEngineConfig W)
      → check_ttl_values_provided c.object ≡ false
      → let place = get_lease_path c.object in
        let w = (read v place c.world).1 in
        (write v place (get_lease_payload c.object) w).0 ≡ ok tt
        → at (write v place (get_lease_payload c.object) w).1 place ≡ some (stored place zero_lease)
  written-zero c not_given h =
      let place = get_lease_path c.object in
      write-stores v at stored apart store place (get_lease_payload c.object)
        (read v place c.world).1 h
      ∙ ap (λ d. some (stored place d)) (unprovided c.object not_given)

  course-IsUnsent :
      (c : Cell RabbitMqSecretEngineConfig W)
      → check_ttl_values_provided c.object ≡ false
      → Course v as_lease c
      → IsUnsent c (create_or_update v as_lease c)
  course-IsUnsent c not_given (fails r bad e) = (
    λ given. cc,
    λ h. absurd (bad (ap (λ p. p.0) (sym e) ∙ h)),
    λ _ _ h. absurd (bad (ap (λ p. p.0) (sym e) ∙ h)),
  )
  course-IsUnsent c not_given (agrees d found same e) =
      let place = get_lease_path c.object in
      subst (IsUnsent c) (sym e) (
        λ given. cc,
        λ _. (
          inl (read-keeps v at stored apart store place place c.world),
          λ q _. read-keeps v at stored apart store place q c.world,
        ),
        λ _ nothing _. cc,
      )
  course-IsUnsent c not_given (writes d found answered differs e) =
      let place = get_lease_path c.object in
      let w = (read v place c.world).1 in
      subst (IsUnsent c) (sym e) (
        λ given. cc,
        λ h. (
          inr (written-zero c not_given h),
          λ q away.
              write-keeps v at stored apart store place q (get_lease_payload c.object) w away
              ∙ read-keeps v at stored apart store place q c.world,
        ),
        λ _ _ h. written-zero c not_given h,
      )

  -- On a server that keeps what is written place by place: the step for the lease makes no call if
  -- one of the values is given. One that succeeds leaves at the lease's place what was there or a
  -- lease of two zeros, and the latter where nothing was found and no value is given; no place apart
  -- from it changes. So it never brings a lease with a value that was asked for.
  pub create_or_update_lease-IsUnsent :
      (c : Cell RabbitMqSecretEngineConfig W) → IsUnsent c (create_or_update_lease v o leases c)
  create_or_update_lease-IsUnsent c = elim (Bool-cases (check_ttl_values_provided c.object)) [
    | inl given ↦
        subst (IsUnsent c) (sym (given_lem c given))
          (λ _. (refl, refl), λ _. (inl refl, λ q _. refl), λ not_given. cc)
    | inr not_given ↦
        subst (IsUnsent c) (sym (not_given_lem c not_given))
          (course-IsUnsent c not_given (course v as_lease c))
  ]
