-- ===== src/RandomSecret/Password/Laws.antt =====
-- What a password that `calculateSecret` accepts is made of, and what its retries are worth.
use vault_config_operator.Common.{
  ℕ, zero, suc, ◌≡◌, refl, ap, sym, ◌∙◌, Bool, true, false, ◌||◌, List, [], ◌∷◌, arith, Bool-cases,
  inl, inr, length, any, All, if◌then◌else◌, ◌==◌,
}
use vault_config_operator.Common.Int.{ℤ, pos, negsuc, ◌≤ℤ◌, ltb_ℤ}
use vault_config_operator.Common.Action.{ok, Action, pure, of_result}
use vault_config_operator.Common.Bind.{bind-ok, bind-at, ok-inj}
use vault_config_operator.Endpoint.{Cell, in_world}
use vault_config_operator.RandomSecret.{
  RandomSecret, PasswordPolicyFormat, PasswordPolicyRule, Runtime,
}
use vault_config_operator.RandomSecret.Password.{
  ByteSets, rune_starts, charset_rules, letter_at, fill, rand_string_bytes, set_of, merge_all,
  count_in, obeys, attempt_secret, keep_secret, calculate_secret,
}

-- What the code relies on of the byte sets.
pub record IsByteSets {S : Type 0} (b : ByteSets S) : Type 0 where
  pub has_of_list : (l : List ℕ) (c : ℕ) → b.has (b.of_list l) c ≡ any (◌==◌ c) l
  pub has_merge : (s t : S) (c : ℕ) → b.has (b.merge s t) c ≡ (b.has s c || b.has t c)
  pub has_list : (s : S) (c : ℕ) → any (◌==◌ c) (b.list s) ≡ b.has s c

letter_at-any : (l : List ℕ) (i c : ℕ) → letter_at l i ≡ ok c → any (◌==◌ c) l ≡ true
letter_at-any [] i c h = cc
letter_at-any (d ∷ l) zero c h = ground arith
letter_at-any (d ∷ l) (suc i) c h = ground (arith, letter_at-any l i c h)

module _ {W : Type 0} (e : Runtime W) where
  fill_lem :
      (letters : List ℕ) (n : ℕ) (w : W) (s : List ℕ)
      → (fill e letters n w).0 ≡ ok s
      → (length s ≡ n) × All (λ c. any (◌==◌ c) letters ≡ true) s
  fill_lem letters zero w s h = rw (sym (ok-inj h)) (refl, tt)
  fill_lem letters (suc n) w s h =
      let (i, drawn, h1) = bind-ok (e.intn (length letters)) _ w s h in
      let (c, at, h2) = bind-ok (of_result (letter_at letters i)) _ _ s h1 in
      let (rest, filled, h3) = bind-ok (fill e letters n) _ _ s h2 in
      let (long, known) = fill_lem letters n _ rest filled in
      rw (sym (ok-inj h3)) (ap suc long, (letter_at-any letters i c at, known))

  rand_string_bytes_lem :
      (size : ℤ) (letters : List ℕ) (w : W) (s : List ℕ)
      → (rand_string_bytes e size letters w).0 ≡ ok s
      → (pos (length s) ≡ size) × All (λ c. any (◌==◌ c) letters ≡ true) s
  unfolding rand_string_bytes
  rand_string_bytes_lem (pos n) letters w s h =
      let (long, known) = fill_lem letters n w s h in (ap pos long, known)
  rand_string_bytes_lem (negsuc n) letters w s h = cc

All-mono : (P Q : ℕ → Type 0) (s : List ℕ) → ((c : ℕ) → P c → Q c) → All P s → All Q s
All-mono P Q [] f h = tt
All-mono P Q (c ∷ s) f (x, h) = (f c x, All-mono P Q s f h)

-- Some rule of the policy has the byte in its character set.
abbrev pub is_letter : List PasswordPolicyRule → ℕ → Bool
is_letter rules c = any (λ rule. any (◌==◌ c) rule.charset) rules

module _ {S : Type 0} (b : ByteSets S) where
  -- The counts that a policy asks for.
  abbrev pub IsCovered : List PasswordPolicyRule → List ℕ → Type 0
  IsCovered rules s =
      All (λ rule. rule.min_chars ≤ℤ pos (count_in b (set_of b rule) (rune_starts 0 s))) rules

  obeys-IsCovered :
      (rules : List PasswordPolicyRule) (s : List ℕ) → obeys b rules s ≡ true → IsCovered rules s
  obeys-IsCovered [] s h = tt
  obeys-IsCovered (rule ∷ rules) s h =
      elim (Bool-cases
        (ltb_ℤ (pos (count_in b (set_of b rule) (rune_starts 0 s))) rule.min_chars)) [
          | inl broken ↦ ground arith
          | inr kept ↦ (ground arith, obeys-IsCovered rules s (rw kept at h))
        ]

  merge_all-has :
      (laws : IsByteSets b) (s : S) (rules : List PasswordPolicyRule) (c : ℕ)
      → b.has (merge_all b s rules) c ≡ (b.has s c || is_letter rules c)
  merge_all-has laws s [] c = ground arith
  merge_all-has laws s (rule ∷ rules) c = ground (
    arith,
    laws.has_merge s (set_of b rule) c,
    laws.has_of_list rule.charset c,
    merge_all-has laws (b.merge s (set_of b rule)) rules c,
  )

  module _ {W : Type 0} (e : Runtime W) where
    -- After a failed attempt no other one succeeds.
    attempt_secret_failed :
        (policy : PasswordPolicyFormat) (letters : List ℕ) (n : ℕ) (s : List ℕ) (w : W)
        (r : Bool × List ℕ)
        → (attempt_secret b e policy letters n false s w).0 ≡ ok r
        → r.0 ≡ false
    attempt_secret_failed policy letters zero s w r h = ap (λ r. r.0) (sym (ok-inj h))
    attempt_secret_failed policy letters (suc n) s w r h =
        let (t, drawn, h1) = bind-ok (rand_string_bytes e policy.length letters) _ w r h in
        attempt_secret_failed policy letters n t _ r h1

    choose_first :
        (good : Bool) (t : List ℕ) (rest : Action W (Bool × List ℕ)) (w : W) (r : Bool × List ℕ)
        → ((if good then pure (true, t) else rest) w).0 ≡ ok r
        → ((rest w).0 ≡ ok r → r.0 ≡ false)
        → (r.0 ≡ good) × (r.0 ≡ true → r.1 ≡ t)
    choose_first true t rest w r h f =
        (ap (λ r. r.0) (sym (ok-inj h)), λ _. ap (λ r. r.1) (sym (ok-inj h)))
    choose_first false t rest w r h f = (f h, λ g. ground (arith, f h))

    -- A second attempt is worth nothing: the verdict is that on the first string drawn.
    attempt_secret_first :
        (policy : PasswordPolicyFormat) (letters : List ℕ) (n : ℕ) (s : List ℕ) (w : W)
        (r : Bool × List ℕ)
        → (attempt_secret b e policy letters (suc n) true s w).0 ≡ ok r
        → (t : List ℕ) × ((rand_string_bytes e policy.length letters w).0 ≡ ok t)
          × (r.0 ≡ obeys b (charset_rules policy.rules) t)
          × (r.0 ≡ true → r.1 ≡ t)
    attempt_secret_first policy letters n s w r h =
        let (t, drawn, h1) = bind-ok (rand_string_bytes e policy.length letters) _ w r h in
        let (verdict, kept) =
          choose_first (obeys b (charset_rules policy.rules) t) t
            (attempt_secret b e policy letters n false t) _ r h1
            (λ h2. attempt_secret_failed policy letters n t _ r h2) in
        (t, drawn, verdict, kept)

    calculate_secret_result :
        (policy : PasswordPolicyFormat) (r : Bool × List ℕ) (c : Cell RandomSecret W) (found : Bool)
        (t : List ℕ)
        → (keep_secret b e r c).0 ≡ ok found
        → r.0 ≡ obeys b (charset_rules policy.rules) t
        → (r.0 ≡ true → r.1 ≡ t)
        → (found ≡ obeys b (charset_rules policy.rules) t)
          × ((keep_secret b e r c).1.object.spec.calculated_secret
              ≡ (if found then e.text t else c.object.spec.calculated_secret))
    calculate_secret_result policy (true, s) c found t h verdict kept =
        (sym (ok-inj h) ∙ verdict, rw (← ok-inj h) (ap e.text (kept refl)))
    calculate_secret_result policy (false, s) c found t h verdict kept =
        (sym (ok-inj h) ∙ verdict, rw (← ok-inj h) refl)

    -- If `calculateSecret` returns, with at least one attempt, then its verdict is that on the first
    -- string drawn, however many attempts there are; an accepted string becomes the secret, which
    -- otherwise stays as it was.
    pub calculate_secret_verdict :
        (policy : PasswordPolicyFormat) (n : ℕ) (c : Cell RandomSecret W) (found : Bool)
        → (calculate_secret b e policy (suc n) c).0 ≡ ok found
        → (t : List ℕ) × ((rand_string_bytes e policy.length
              (b.list (merge_all b (b.of_list []) (charset_rules policy.rules)))
              c.world).0
            ≡ ok t)
          × (found ≡ obeys b (charset_rules policy.rules) t)
          × ((calculate_secret b e policy (suc n) c).1.object.spec.calculated_secret
              ≡ (if found then e.text t else c.object.spec.calculated_secret))
    unfolding calculate_secret
    calculate_secret_verdict policy n c found h =
        let letters = b.list (merge_all b (b.of_list []) (charset_rules policy.rules)) in
        let (r, drawn, h1) =
          bind-ok (in_world (attempt_secret b e policy letters (suc n) true [])) (keep_secret b e) c
            found h in
        let (t, first, verdict, kept) = attempt_secret_first policy letters n [] c.world r drawn in
        let (found_lem, stored) = calculate_secret_result policy r _ found t h1 verdict kept in
        (
          t,
          first,
          found_lem,
          ap (λ x. x.1.object.spec.calculated_secret)
                (bind-at (in_world (attempt_secret b e policy letters (suc n) true []))
                  (keep_secret b e) c r drawn)
              ∙ stored,
        )

    -- A secret that `calculateSecret` accepts, with at least one attempt, is the text of bytes whose
    -- number is the length that the policy asks for; each of them is in a character set of the
    -- policy, and every rule's count is reached.
    pub calculate_secret-IsCovered :
        (laws : IsByteSets b) (policy : PasswordPolicyFormat) (n : ℕ) (c : Cell RandomSecret W)
        → (calculate_secret b e policy (suc n) c).0 ≡ ok true
        → (t : List ℕ) × ((calculate_secret b e policy (suc n) c).1.object.spec.calculated_secret
            ≡ e.text t)
          × (pos (length t) ≡ policy.length)
          × All (λ a. is_letter (charset_rules policy.rules) a ≡ true) t
          × IsCovered (charset_rules policy.rules) t
    calculate_secret-IsCovered laws policy n c h =
        let rules = charset_rules policy.rules in
        let (t, drawn, good, stored) = calculate_secret_verdict policy n c true h in
        let (long, known) =
          rand_string_bytes_lem e policy.length (b.list (merge_all b (b.of_list []) rules)) c.world
            t drawn in
        (
          t,
          stored,
          long,
          All-mono _ _ t
              (λ a k.
                sym (
                  merge_all-has laws (b.of_list []) rules a
                  ∙ ap (λ x. x || is_letter rules a) (laws.has_of_list [] a))
                ∙ sym (laws.has_list (merge_all b (b.of_list []) rules) a)
                ∙ k)
              known,
          obeys-IsCovered rules t (sym good),
        )
