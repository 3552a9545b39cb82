-- ===== src/Paths/Laws.antt =====
-- What the paths sent to Vault look like after `CleansePath`.
use Prim.Native.Char.{Char}
use Prim.Native.String.{String, [], ◌∷◌}
use text.Mathlib.TextLemmas.{nil-append, cons-append}
use vault_config_operator.Common.{
  ◌≡◌, refl, ◌⊎◌, ap, ◌∙◌, Bool, true, false, ◌&&◌, arith, Bool-cases, inl, inr,
}
use vault_config_operator.Common.Text.{
  has_prefix, contains, replace_from, is_slash, trim_left, unless_last_slash, trim_right,
}
use vault_config_operator.Paths.{cleanse_path}

-- The pass of `ReplaceAll` in `CleansePath`.
abbrev squeeze : String → String
squeeze = replace_from "//" "/" 1 0

squeeze-pair :
    (c d : Char) (s : String)
    → is_slash c ≡ true
    → is_slash d ≡ true
    → squeeze (c ∷ d ∷ s) ≡ "/" ∷ squeeze s
unfolding replace_from
squeeze-pair c d s p q = ground (arith, cons-append "/" "" (squeeze s), nil-append (squeeze s))

squeeze-other :
    (c : Char) (s : String)
    → (is_slash c && has_prefix "/" s) ≡ false
    → squeeze (c ∷ s) ≡ c ∷ squeeze s
unfolding replace_from
squeeze-other c [] p = ground arith
squeeze-other c (d ∷ s) p = ground arith

squeeze-nil : squeeze [] ≡ []
unfolding replace_from
squeeze-nil = refl

-- The two ways in which a pass starts.
squeeze-cases :
    (c d : Char) (s : String)
    → ((is_slash c ≡ true) × (is_slash d ≡ true) × (squeeze (c ∷ d ∷ s) ≡ "/" ∷ squeeze s))
      ⊎ (((is_slash c && is_slash d) ≡ false) × (squeeze (c ∷ d ∷ s) ≡ c ∷ squeeze (d ∷ s)))
squeeze-cases c d s = elim (Bool-cases (is_slash c)) [
  | inr e ↦ inr (rw e refl, squeeze-other c (d ∷ s) (rw e refl))
  | inl e ↦ elim (Bool-cases (is_slash d)) [
    | inl e' ↦ inl (e, e', squeeze-pair c d s e e')
    | inr e' ↦ inr (rw (e, e') refl, squeeze-other c (d ∷ s) (rw (e, e') refl))
  ]
]

squeeze-one : (c : Char) → squeeze (c ∷ []) ≡ c ∷ []
squeeze-one c = squeeze-other c [] (ground arith) ∙ ap (λ s. c ∷ s) squeeze-nil

has_prefix-squeeze : (s : String) → has_prefix "/" (squeeze s) ≡ has_prefix "/" s
has_prefix-squeeze [] = rw squeeze-nil
has_prefix-squeeze (c ∷ []) = rw squeeze-one
has_prefix-squeeze (c ∷ d ∷ s) = elim (squeeze-cases c d s) [
  | inl (e, _, p) ↦ rw (p, e)
  | inr (e, p) ↦ rw p
]

contains-squeeze : (s : String) → contains "///" s ≡ false → contains "//" (squeeze s) ≡ false
contains-squeeze [] h = rw squeeze-nil
contains-squeeze (c ∷ []) h = rw squeeze-one (ground arith)
contains-squeeze (c ∷ d ∷ s) h = elim (squeeze-cases c d s) [
  | inl (e, e', p) ↦ rw p (ground (arith, has_prefix-squeeze s, contains-squeeze s))
  | inr (e, p) ↦ rw p (ground (arith, has_prefix-squeeze (d ∷ s), contains-squeeze (d ∷ s)))
]

squeeze_self : (s : String) → contains "//" s ≡ false → squeeze s ≡ s
squeeze_self [] h = squeeze-nil
squeeze_self (c ∷ []) h = squeeze-one c
squeeze_self (c ∷ d ∷ s) h = elim (squeeze-cases c d s) [
  | inl (e, e', p) ↦ ground arith
  | inr (e, p) ↦ p ∙ ap (λ t. c ∷ t) (squeeze_self (d ∷ s) (ground arith))
]

abbrev pub last_is_slash : String → Bool
last_is_slash [] = false
last_is_slash (c ∷ []) = is_slash c
last_is_slash (c ∷ d ∷ s) = last_is_slash (d ∷ s)

-- Neither the first nor the last character is a slash.
abbrev pub IsTrimmed : String → Type 0
IsTrimmed s = (has_prefix "/" s ≡ false) × (last_is_slash s ≡ false)

last_is_slash-unless :
    (c : Char) (r : String)
    → last_is_slash r ≡ false
    → last_is_slash (unless_last_slash c r) ≡ false
last_is_slash-unless c [] h = elim (Bool-cases (is_slash c)) [ inl e ↦ rw e refl | inr e ↦ rw e e ]
last_is_slash-unless c (d ∷ r) h = h

last_is_slash-trim_right : (s : String) → last_is_slash (trim_right s) ≡ false
unfolding trim_right
last_is_slash-trim_right [] = refl
last_is_slash-trim_right (c ∷ s) =
    last_is_slash-unless c (trim_right s) (last_is_slash-trim_right s)

-- What a text keeps when its trailing slashes go: its first character, if any is left.
first-unless :
    (c : Char) (r : String) → (unless_last_slash c r ≡ []) ⊎ (unless_last_slash c r ≡ c ∷ r)
first-unless c [] = elim (Bool-cases (is_slash c)) [
  | inl e ↦ inl (rw e refl)
  | inr e ↦ inr (rw e refl)
]
first-unless c (d ∷ r) = inr refl

has_prefix-trim_right :
    (s : String) → has_prefix "/" s ≡ false → has_prefix "/" (trim_right s) ≡ false
unfolding trim_right
has_prefix-trim_right [] h = refl
has_prefix-trim_right (c ∷ s) h = elim (first-unless c (trim_right s)) [
  | inl e ↦ rw e refl
  | inr e ↦ rw e h
]

contains-trim_right : (s : String) → contains "//" s ≡ false → contains "//" (trim_right s) ≡ false
unfolding trim_right
contains-trim_right [] h = refl
contains-trim_right (c ∷ s) h = elim (first-unless c (trim_right s)) [
  | inl e ↦ rw e refl
  | inr e ↦ rw e (
      ground (arith, contains-trim_right s, has_prefix-trim_right s, Bool-cases (has_prefix "/" s)))
]

has_prefix-trim_left : (s : String) → has_prefix "/" (trim_left s) ≡ false
unfolding trim_left
has_prefix-trim_left [] = refl
has_prefix-trim_left (c ∷ s) = elim (Bool-cases (is_slash c)) [
  | inl e ↦ rw e (has_prefix-trim_left s)
  | inr e ↦ rw e (rw e refl)
]

last_is_slash-tail :
    (c : Char) (s : String) → last_is_slash (c ∷ s) ≡ false → last_is_slash s ≡ false
last_is_slash-tail c [] h = refl
last_is_slash-tail c (d ∷ s) h = h

last_is_slash-trim_left :
    (s : String) → last_is_slash s ≡ false → last_is_slash (trim_left s) ≡ false
unfolding trim_left
last_is_slash-trim_left [] h = refl
last_is_slash-trim_left (c ∷ s) h = elim (Bool-cases (is_slash c)) [
  | inl e ↦ rw e (last_is_slash-trim_left s (last_is_slash-tail c s h))
  | inr e ↦ rw e h
]

contains-trim_left : (s : String) → contains "//" s ≡ false → contains "//" (trim_left s) ≡ false
unfolding trim_left
contains-trim_left [] h = refl
contains-trim_left (c ∷ s) h = elim (Bool-cases (is_slash c)) [
  | inl e ↦ rw e (contains-trim_left s (ground arith))
  | inr e ↦ rw e h
]

trim_left_self : (s : String) → has_prefix "/" s ≡ false → trim_left s ≡ s
unfolding trim_left
trim_left_self [] h = refl
trim_left_self (c ∷ s) h = elim (Bool-cases (is_slash c)) [
  | inl e ↦ ground arith
  | inr e ↦ rw e refl
]

trim_right_self : (s : String) → last_is_slash s ≡ false → trim_right s ≡ s
unfolding trim_right
trim_right_self [] h = refl
trim_right_self (c ∷ []) h = rw h refl
trim_right_self (c ∷ d ∷ s) h = ap (unless_last_slash c) (trim_right_self (d ∷ s) h)

-- Every path that is sent to Vault has neither a leading nor a trailing slash.
pub cleanse_path-IsTrimmed : (path : String) → IsTrimmed (cleanse_path path)
unfolding cleanse_path
cleanse_path-IsTrimmed path = (
  has_prefix-trim_left (trim_right (squeeze path)),
  last_is_slash-trim_left (trim_right (squeeze path)) (last_is_slash-trim_right (squeeze path)),
)

-- Cleansing a path with no three slashes in a row leaves no two slashes in a row.
pub contains-cleanse_path :
    (path : String) → contains "///" path ≡ false → contains "//" (cleanse_path path) ≡ false
unfolding cleanse_path
contains-cleanse_path path h =
    contains-trim_left (trim_right (squeeze path))
      (contains-trim_right (squeeze path) (contains-squeeze path h))

-- A path that is clean already is sent as it is.
pub cleanse_path_self :
    (path : String) → IsTrimmed path → contains "//" path ≡ false → cleanse_path path ≡ path
unfolding cleanse_path
cleanse_path_self path (first, last) h =
    rw (squeeze_self path h, trim_right_self path last) (trim_left_self path first)

-- For a path with no three slashes in a row, cleansing a second time changes nothing.
pub cleanse_path_idempotent :
    (path : String)
    → contains "///" path ≡ false
    → cleanse_path (cleanse_path path) ≡ cleanse_path path
cleanse_path_idempotent path h =
    cleanse_path_self (cleanse_path path) (cleanse_path-IsTrimmed path)
      (contains-cleanse_path path h)
