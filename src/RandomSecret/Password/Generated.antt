-- ===== src/RandomSecret/Password/Generated.antt =====
-- The new password of a RandomSecret: `GenerateNewPassword`, with an inline policy and with one that
-- Vault keeps.
use vault_config_operator.Common.{
  ℕ, String, ◌≡◌, refl, ap, sym, ◌∙◌, Bool, Bool-cases, true, false, Option, none, some, List, ◌⊎◌,
  inl, inr, not, if◌then◌else◌, [], subst,
}
use vault_config_operator.Common.Action.{
  Error, Result, ok, err, plain, Action, pure, fail, modify, of_result, ◌>>=◌,
}
use vault_config_operator.Common.Bind.{bind-ok, bind-at, ok-inj}
use vault_config_operator.Common.Text.{◌^^◌}
use vault_config_operator.Payload.{Payload, Value, str, lookup}
use vault_config_operator.Vault.{Vault, Secret}
use vault_config_operator.Endpoint.{Cell, in_world}
use vault_config_operator.RandomSecret.{RandomSecret, Runtime, PasswordPolicyFormat, is_empty}
use vault_config_operator.RandomSecret.Password.{
  ByteSets, charset_rules, rand_string_bytes, merge_all, obeys, calculate_secret, decoded,
  password_in, password_of, with_secret, generate_new_password,
}
use vault_config_operator.RandomSecret.Password.Laws.{calculate_secret_verdict}

module _ {S W : Type 0} (b : ByteSets S) (e : Runtime W) (v : Vault W) where
  -- The password is the text of bytes drawn for the inline policy, which they obey.
  abbrev pub IsDrawn : Cell RandomSecret W → Cell RandomSecret W → Type 0
  IsDrawn c c' =
      (policy : PasswordPolicyFormat) × (e.hcl_decode c.object.spec.secret_key
          c.object.spec.secret_format.inline_password_policy
        ≡ (none, policy))
      × (t : List ℕ) × ((rand_string_bytes e policy.length
            (b.list (merge_all b (b.of_list []) (charset_rules policy.rules))) c.world).0
          ≡ ok t)
      × (obeys b (charset_rules policy.rules) t ≡ true)
      × (c'.object.spec.calculated_secret ≡ e.text t)

  -- The password is the one that Vault answers for the named policy.
  abbrev pub IsAnswered : Cell RandomSecret W → Cell RandomSecret W → Type 0
  IsAnswered c c' =
      (secret : Secret) × (m : Payload) × (s : String) × ((v.logical_read
          ("/sys/policies/password/" ^^ c.object.spec.secret_format.password_policy_name
            ^^ "/generate")
          c.world).0
        ≡ ok (some secret))
      × (secret.contents ≡ some m)
      × (lookup "password" m ≡ some (str s))
      × (c'.object.spec.calculated_secret ≡ s)

  -- An inline policy comes before a named one.
  abbrev pub IsGenerated : Cell RandomSecret W → Cell RandomSecret W → Type 0
  IsGenerated c c' =
      ((is_empty c.object.spec.secret_format.inline_password_policy ≡ false) × IsDrawn c c')
      ⊎ ((is_empty c.object.spec.secret_format.inline_password_policy ≡ true) × IsAnswered c c')

  decoded_lem :
      (r : Option Error × PasswordPolicyFormat) (policy : PasswordPolicyFormat)
      → decoded b e r ≡ ok policy
      → r ≡ (none, policy)
  decoded_lem (none, p) policy h = ap (λ q. (none, q)) (ok-inj h)
  decoded_lem (some issue, p) policy h = cc

  abbrev refuse : Bool → Action (Cell RandomSecret W) (Unit {0})
  refuse found =
      if not found then fail (plain "password could not be generated, will retry") else pure tt

  accepted :
      (found : Bool) (c : Cell RandomSecret W)
      → (refuse found c).0 ≡ ok tt
      → (found ≡ true) × ((refuse found c).1 ≡ c)
  accepted true c h = (refl, refl)
  accepted false c h = cc

  abbrev draw : Cell RandomSecret W → Action (Cell RandomSecret W) (Unit {0})
  draw c =
      of_result (
        decoded b e (
          e.hcl_decode c.object.spec.secret_key c.object.spec.secret_format.inline_password_policy))
      >>= λ policy. calculate_secret b e policy 10000 >>= refuse

  draw-IsDrawn : (c : Cell RandomSecret W) → (draw c c).0 ≡ ok tt → IsDrawn c (draw c c).1
  draw-IsDrawn c h =
      let answer =
        e.hcl_decode c.object.spec.secret_key c.object.spec.secret_format.inline_password_policy in
      let rest = λ (policy : PasswordPolicyFormat). calculate_secret b e policy 10000 >>= refuse in
      let (policy, read, h1) = bind-ok (of_result (decoded b e answer)) rest c tt h in
      let calculate = calculate_secret b e policy 10000 in
      let (found, calculated, h2) = bind-ok calculate refuse c tt h1 in
      let (good, kept) = accepted found (calculate c).1 h2 in
      let (t, drawn, verdict, stored) =
        calculate_secret_verdict b e policy 9999 c found calculated in
      let run =
        bind-at (of_result (decoded b e answer)) rest c policy read
        ∙ bind-at calculate refuse c found calculated in
      (
        policy,
        decoded_lem answer policy read,
        t,
        drawn,
        sym verdict ∙ good,
        ap (λ r. r.1.object.spec.calculated_secret) run
            ∙ ap (λ d. d.object.spec.calculated_secret) kept
            ∙ stored
            ∙ ap (λ f. if f then e.text t else c.object.spec.calculated_secret) good,
      )

  password_in_lem :
      (value : Option Value) (s : String) → password_in b e value ≡ ok s → value ≡ some (str s)
  password_in_lem none s h = cc
  password_in_lem (some (str t)) s h = ap (λ u. some (str u)) (ok-inj h)
  password_in_lem (some _) s h = cc

  password_of_lem :
      (response : Option Secret) (s : String)
      → password_of b e response ≡ ok s
      → (secret : Secret) × (m : Payload) × (response ≡ some secret)
        × (secret.contents ≡ some m)
        × (lookup "password" m ≡ some (str s))
  password_of_lem none s h = cc
  password_of_lem (some secret) s h = found secret.contents refl h
    where
      found :
          (contents : Option Payload)
          → secret.contents ≡ contents
          → (elim contents [
            | none ↦ err (plain "no data returned by password policy")
            | some contents ↦ password_in b e (lookup "password" contents)
          ])
            ≡ ok s
          → (secret' : Secret) × (m : Payload) × (some secret ≡ some secret')
            × (secret'.contents ≡ some m)
            × (lookup "password" m ≡ some (str s))
      found none same q = cc
      found (some m) same q = (secret, m, refl, same, password_in_lem (lookup "password" m) s q)

  abbrev keep : String → Action (Cell RandomSecret W) (Unit {0})
  keep password = modify (with_secret b e password)

  abbrev ask : Cell RandomSecret W → Action (Cell RandomSecret W) (Unit {0})
  ask c =
      in_world (
        v.logical_read (
          "/sys/policies/password/" ^^ c.object.spec.secret_format.password_policy_name
          ^^ "/generate"))
      >>= λ response. of_result (password_of b e response) >>= keep

  ask-IsAnswered : (c : Cell RandomSecret W) → (ask c c).0 ≡ ok tt → IsAnswered c (ask c c).1
  ask-IsAnswered c h =
      let call = in_world (
        v.logical_read (
          "/sys/policies/password/" ^^ c.object.spec.secret_format.password_policy_name
          ^^ "/generate")) in
      let rest = λ (response : Option Secret). of_result (password_of b e response) >>= keep in
      let (response, answered, h1) = bind-ok call rest c tt h in
      let (s, read, h2) = bind-ok (of_result (password_of b e response)) keep (call c).1 tt h1 in
      let (secret, m, there, contents, password) = password_of_lem response s read in
      let run =
        bind-at call rest c response answered
        ∙ bind-at (of_result (password_of b e response)) keep (call c).1 s read in
      (
        secret,
        m,
        s,
        answered ∙ ap ok there,
        contents,
        password,
        ap (λ r. r.1.object.spec.calculated_secret) run,
      )

  -- A password that was generated without an error is one drawn for the inline policy, where there
  -- is one, and otherwise the one that Vault answers for the named policy.
  pub generate_new_password-IsGenerated :
      (c : Cell RandomSecret W)
      → (generate_new_password b e v c).0 ≡ ok tt
      → IsGenerated c (generate_new_password b e v c).1
  unfolding generate_new_password
  generate_new_password-IsGenerated c h =
      elim (Bool-cases (is_empty c.object.spec.secret_format.inline_password_policy)) [
        | inl empty ↦
            elim (Bool-cases (is_empty c.object.spec.secret_format.password_policy_name)) [
              | inl none_given ↦
                  absurd (refused (run c).0 (ap (λ r. r.0) (neither empty none_given)) h)
              | inr named ↦ inr (
                empty,
                subst (λ r. IsAnswered c r.1) (sym (asked empty named))
                    (ask-IsAnswered c (ap (λ r. r.0) (sym (asked empty named)) ∙ h)),
              )
            ]
        | inr inline ↦ inl (
          inline,
          subst (λ r. IsDrawn c r.1) (sym (drawn inline))
              (draw-IsDrawn c (ap (λ r. r.0) (sym (drawn inline)) ∙ h)),
        )
      ]
    where
      run : Action (Cell RandomSecret W) (Unit {0})
      run = generate_new_password b e v

      drawn : is_empty c.object.spec.secret_format.inline_password_policy ≡ false → run c ≡ draw c c
      drawn q = rw q refl

      asked :
          is_empty c.object.spec.secret_format.inline_password_policy ≡ true
          → is_empty c.object.spec.secret_format.password_policy_name ≡ false
          → run c ≡ ask c c
      asked q r = rw (q, r) refl

      neither :
          is_empty c.object.spec.secret_format.inline_password_policy ≡ true
          → is_empty c.object.spec.secret_format.password_policy_name ≡ true
          → run c ≡ (err (plain "no password policy method specified"), c)
      neither q r = rw (q, r) refl

      refused :
          (r : Result (Unit {0}))
          → r ≡ err (plain "no password policy method specified")
          → r ≡ ok tt
          → ⊥
      refused r q g = cc
