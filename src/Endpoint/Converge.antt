-- ===== src/Endpoint/Converge.antt =====
-- `CreateOrUpdate` brings Vault to the desired state, and then leaves it alone.
use vault_config_operator.Common.{
  String, ◌≡◌, refl, ap, sym, ◌∙◌, ◌≢◌, ◌&&◌, ◌⊎◌, inl, inr, Bool, true, false, Option, some, arith,
  Bool-cases,
}
use vault_config_operator.Common.Action.{Result, ok, err, panic}
use vault_config_operator.Payload.{Payload}
use vault_config_operator.Vault.{Vault, read, write}
use vault_config_operator.Vault.Store.{IsStore}
use vault_config_operator.Vault.Calls.{read-at, read-keeps, write-stores, write-keeps}
use vault_config_operator.Endpoint.{Cell, VaultObject, create_or_update}

module _ {O W : Type 0} (v : Vault W) (o : VaultObject O W) (c : Cell O W) where
  abbrev path : String
  path = o.get_path c.object

  abbrev answer : Result (Option Payload × Bool)
  answer = (read v path c.world).0

  abbrev after : W
  after = (read v path c.world).1

  abbrev written : Result (Unit {0}) × W
  written = write v path (o.get_payload c.object) after

  -- The three ways in which `CreateOrUpdate` ends: the read fails, the object is found in the
  -- desired state, or it is written.
  pub data Course : Type 0 where
    fails :
        (r : Result (Unit {0}))
        → r ≢ ok tt
        → create_or_update v o c ≡ (r, record c { world = after })
        → Course
    agrees :
        (d : Option Payload)
        → answer ≡ ok (d, true)
        → o.is_equivalent_to_desired_state c.object d ≡ true
        → create_or_update v o c ≡ (ok tt, record c { world = after })
        → Course
    writes :
        (d : Option Payload) (found : Bool)
        → answer ≡ ok (d, found)
        → (found && o.is_equivalent_to_desired_state c.object d) ≡ false
        → create_or_update v o c ≡ (written.0, record c { world = written.1 })
        → Course

  create_or_update_agrees :
      (d : Option Payload)
      → answer ≡ ok (d, true)
      → o.is_equivalent_to_desired_state c.object d ≡ true
      → create_or_update v o c ≡ (ok tt, record c { world = after })
  unfolding create_or_update
  create_or_update_agrees d h same = ground arith

  course_of : (r : Result (Option Payload × Bool)) → answer ≡ r → Course
  unfolding create_or_update
  course_of (err e) h = fails (err e) (λ p. cc) (ground (arith, h))
  course_of panic h = fails panic (λ p. cc) (ground (arith, h))
  course_of (ok (d, false)) h = writes d false h refl (ground (arith, h))
  course_of (ok (d, true)) h = elim (Bool-cases (o.is_equivalent_to_desired_state c.object d)) [
    | inl same ↦ agrees d h same (create_or_update_agrees d h same)
    | inr other ↦ writes d true h (rw other refl) (ground (arith, h))
  ]

  pub course : Course
  course = course_of answer refl

module _ {O W : Type 0} (v : Vault W) (o : VaultObject O W) (at : W → String → Option Payload)
    (stored : String → Payload → Payload) (apart : String → String → Type 0)
    (s : IsStore v at stored apart) where
  -- What a cycle that succeeded has reached: the object's place holds a payload that the object
  -- takes for its desired state, or what the server keeps of the object's payload.
  abbrev pub IsReached : Cell O W → W → Type 0
  IsReached c w =
      (o.is_equivalent_to_desired_state c.object (at w (o.get_path c.object)) ≡ true)
      ⊎ (at w (o.get_path c.object) ≡ some (stored (o.get_path c.object) (o.get_payload c.object)))

  -- A `CreateOrUpdate` that returns no error has reached the desired state, has changed no
  -- place in Vault apart from the object's, and has left the object alone.
  pub create_or_update-IsReached :
      (c : Cell O W)
      → (create_or_update v o c).0 ≡ ok tt
      → let c' = (create_or_update v o c).1 in
        IsReached c c'.world
        × ((q : String) → apart (o.get_path c.object) q → at c'.world q ≡ at c.world q)
        × (c'.object ≡ c.object)
  create_or_update-IsReached c h = elim (course v o c) [
    | fails r bad e ↦ absurd (bad (ap (λ x. x.0) (sym e) ∙ h))
    | agrees d read_it same e ↦ rw e (
      inl (
          rw
            (
              read-keeps v at stored apart s p p c.world,
              read-at v at stored apart s p c.world d true read_it,
            )
            same),
      λ q _. read-keeps v at stored apart s p q c.world,
      refl,
    )
    | writes d found read_it differs e ↦ rw e (
      inr (
          write-stores v at stored apart s p (o.get_payload c.object) (after v o c)
            (ap (λ x. x.0) (sym e) ∙ h)),
      λ q ne.
          write-keeps v at stored apart s p q (o.get_payload c.object) (after v o c) ne
          ∙ read-keeps v at stored apart s p q c.world,
      refl,
    )
  ]
    where
      p : String
      p = o.get_path c.object

  -- Where the object recognises what the server keeps of its payload, and Vault is at its desired
  -- state, a `CreateOrUpdate` whose read finds a secret has nothing to do: it reads once and calls
  -- nothing else.
  pub create_or_update_settles :
      (c : Cell O W) (w : W)
      → o.is_equivalent_to_desired_state c.object
          (some (stored (o.get_path c.object) (o.get_payload c.object)))
        ≡ true
      → IsReached c w
      → (d : Option Payload) → (read v (o.get_path c.object) w).0 ≡ ok (d, true)
      → create_or_update v o (record c { world = w })
        ≡ (ok tt, record c { world = (read v (o.get_path c.object) w).1 })
  create_or_update_settles c w knows reached d read_it =
      create_or_update_agrees v o (record c { world = w }) d read_it (recognised reached)
    where
      now : at w (o.get_path c.object) ≡ d
      now = read-at v at stored apart s (o.get_path c.object) w d true read_it

      recognised : IsReached c w → o.is_equivalent_to_desired_state c.object d ≡ true
      recognised (inl same) = rw (← now) same
      recognised (inr kept) = rw (← now, kept) knows
