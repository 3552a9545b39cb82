-- ===== src/RandomSecret/Password.antt =====
-- The passwords of a RandomSecret: `GenerateNewPassword`, `calculateSecret` and `randStringBytes`.
pub mod Laws
pub mod Generated
use vault_config_operator.Common.{
  ℕ, zero, suc, String, Bool, true, false, not, ◌&&◌, ◌==◌, leb, List, [], ◌∷◌, Option, none, some,
  if◌then◌else◌, str_eq, length,
}
use vault_config_operator.Common.Int.{ℤ, pos, negsuc, ltb_ℤ}
use vault_config_operator.Common.Action.{
  Error, plain, Result, ok, err, panic, Action, pure, fail, of_result, get, modify, ◌>>=◌, ◌>>◌,
}
use vault_config_operator.Common.Text.{◌^^◌}
use vault_config_operator.Payload.{Value, str, lookup}
use vault_config_operator.Vault.{Vault, Secret}
use vault_config_operator.Endpoint.{Cell, VaultObject, in_world}
use vault_config_operator.RandomSecret.{
  RandomSecret, PasswordPolicyFormat, PasswordPolicyRule, Runtime, get_path, get_payload, is_empty,
}

-- The sets of bytes of `github.com/scylladb/go-set/u8set`; `list` has an order of its own.
pub record ByteSets (S : Type 0) : Type 0 where
  pub of_list : List ℕ → S
  pub merge : S → S → S
  pub has : S → ℕ → Bool
  pub list : S → List ℕ

-- The number of bytes after the first one that `for i := range s` passes over: those of the same
-- UTF-8 sequence, none where the sequence is broken.
abbrev pub continues : ℕ → ℕ → ℕ → Bool
continues low high b = leb low b && leb b high

abbrev pub low_second : ℕ → ℕ
low_second b = if b == 224 then 160 else if b == 240 then 144 else 128

abbrev pub high_second : ℕ → ℕ
high_second b = if b == 237 then 159 else if b == 244 then 143 else 191

abbrev pub more_bytes : ℕ → List ℕ → ℕ
more_bytes b [] = 0
more_bytes b (c ∷ []) = if leb 194 b && leb b 223 && continues 128 191 c then 1 else 0
more_bytes b (c ∷ d ∷ []) =
    if leb 194 b && leb b 223 && continues 128 191 c
    then 1
    else if leb 224 b
        && leb b 239
        && continues (low_second b) (high_second b) c
        && continues 128 191 d
    then 2
    else 0
more_bytes b (c ∷ d ∷ f ∷ s) =
    if leb 194 b && leb b 223 && continues 128 191 c
    then 1
    else if leb 224 b
        && leb b 239
        && continues (low_second b) (high_second b) c
        && continues 128 191 d
    then 2
    else if leb 240 b
        && leb b 244
        && continues (low_second b) (high_second b) c
        && continues 128 191 d
        && continues 128 191 f
    then 3
    else 0

-- The bytes `s[i]` for the indices `i` of `range s`.
abbrev pub rune_starts : ℕ → List ℕ → List ℕ
rune_starts skip [] = []
rune_starts (suc skip) (b ∷ s) = rune_starts skip s
rune_starts zero (b ∷ s) = b ∷ rune_starts (more_bytes b s) s

abbrev pub charset_rules : List PasswordPolicyRule → List PasswordPolicyRule
charset_rules [] = []
charset_rules (rule ∷ rules) =
    let rest = charset_rules rules in if str_eq rule.rule_type "charset" then rule ∷ rest else rest

abbrev pub letter_at : List ℕ → ℕ → Result ℕ
letter_at [] i = panic
letter_at (b ∷ letters) zero = ok b
letter_at (b ∷ letters) (suc i) = letter_at letters i

module _ {W : Type 0} (e : Runtime W) where
  abbrev pub fill : List ℕ → ℕ → Action W (List ℕ)
  fill letters zero = pure []
  fill letters (suc n) = do
    i ← e.intn (length letters)
    b ← of_result (letter_at letters i)
    rest ← fill letters n
    pure (b ∷ rest)

  -- `make` of a negative length panics.
  unfoldable pub rand_string_bytes : ℤ → List ℕ → Action W (List ℕ)
  rand_string_bytes (pos n) letters = fill letters n
  rand_string_bytes (negsuc n) letters = of_result panic

module _ {S : Type 0} (b : ByteSets S) where
  abbrev pub set_of : PasswordPolicyRule → S
  set_of rule = b.of_list rule.charset

  -- `intSet`, merged from left to right.
  abbrev pub merge_all : S → List PasswordPolicyRule → S
  merge_all s [] = s
  merge_all s (rule ∷ rules) = merge_all (b.merge s (set_of rule)) rules

  abbrev pub count_in : S → List ℕ → ℕ
  count_in charset [] = 0
  count_in charset (c ∷ s) =
      let rest = count_in charset s in if b.has charset c then suc rest else rest

  -- The loop over the rules, which ends at the first one that the string breaks. Go visits the map
  -- of the rules in any order; here it is that of the policy.
  abbrev pub obeys : List PasswordPolicyRule → List ℕ → Bool
  obeys [] s = true
  obeys (rule ∷ rules) s =
      if ltb_ℤ (pos (count_in (set_of rule) (rune_starts 0 s))) rule.min_chars
      then false
      else obeys rules s

  module _ {W : Type 0} (e : Runtime W) where
    -- The loop over the attempts, with the variables `valid` and `randomString`.
    abbrev pub attempt_secret :
        PasswordPolicyFormat → List ℕ → ℕ → Bool → List ℕ → Action W (Bool × List ℕ)
    attempt_secret policy letters zero valid s = pure (valid, s)
    attempt_secret policy letters (suc attempts) valid _ = do
      s ← rand_string_bytes e policy.length letters
      let rest = attempt_secret policy letters attempts false s
      if valid && obeys (charset_rules policy.rules) s then pure (true, s) else rest

    abbrev pub with_secret : String → Cell RandomSecret W → Cell RandomSecret W
    with_secret s c = record c {
      object = record (c.object) { spec = record (c.object.spec) { calculated_secret = s } };
    }

    abbrev pub keep_secret : Bool × List ℕ → Action (Cell RandomSecret W) Bool
    keep_secret r = do if r.0 then modify (with_secret (e.text r.1)) else pure tt; pure r.0

    unfoldable pub calculate_secret : PasswordPolicyFormat → ℕ → Action (Cell RandomSecret W) Bool
    calculate_secret policy attempts =
        in_world (
          attempt_secret policy (b.list (merge_all (b.of_list []) (charset_rules policy.rules)))
            attempts true [])
        >>= keep_secret

    -- The answer of Vault's generator of passwords.
    abbrev pub string_of : Value → Result String
    string_of (str s) = ok s
    string_of _ = panic

    abbrev pub password_in : Option Value → Result String
    password_in none = err (plain "password policy did not generate a password")
    password_in (some value) = string_of value

    abbrev pub password_of : Option Secret → Result String
    password_of none = err (plain "no data returned by password policy")
    password_of (some secret) = elim secret.contents [
      | none ↦ err (plain "no data returned by password policy")
      | some contents ↦ password_in (lookup "password" contents)
    ]

    abbrev pub decoded : Option Error × PasswordPolicyFormat → Result PasswordPolicyFormat
    decoded (none, policy) = ok policy
    decoded (some issue, policy) = err issue

    unfoldable pub generate_new_password : Vault W → Action (Cell RandomSecret W) (Unit {0})
    generate_new_password v = do
      c ← get
      if not (is_empty c.object.spec.secret_format.inline_password_policy)
          then (do
            policy ← of_result (
                decoded (
                  e.hcl_decode c.object.spec.secret_key
                    c.object.spec.secret_format.inline_password_policy))
            found ← calculate_secret policy 10000
            if not found
                then fail (plain "password could not be generated, will retry")
                else pure tt)
          else if not (is_empty c.object.spec.secret_format.password_policy_name)
          then (do
            response ← in_world (
                v.logical_read (
                  "/sys/policies/password/" ^^ c.object.spec.secret_format.password_policy_name
                  ^^ "/generate"))
            password ← of_result (password_of response)
            modify (with_secret password))
          else fail (plain "no password policy method specified")

    -- The methods of interface `VaultObject`.
    abbrev pub random_secrets : Vault W → VaultObject RandomSecret W
    random_secrets v = record {
      get_path = λ d. get_path d;
      get_payload = λ d. get_payload e d;
      is_equivalent_to_desired_state = λ d payload. false;
      prepare_internal_values = generate_new_password v;
      prepare_tls_config = λ c. (ok tt, c);
    }
