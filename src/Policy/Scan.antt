-- ===== src/Policy/Scan.antt =====
-- `strings.ReplaceAll` and `strings.HasPrefix` on texts that are put together of pieces.
use Prim.Native.Char.{Char}
use Prim.Native.String.{String, [], ◌∷◌}
use text.Mathlib.TextEquality.{Char-path}
use text.Mathlib.TextLemmas.{nil-append, cons-append}
use vault_config_operator.Common.{ℕ, ◌≡◌, refl, true, false, ◌||◌, arith}
use vault_config_operator.Common.Text.{
  ◌^^◌, has_prefix, contains, length, replace_from, replace_all,
}

replace-skip :
    (old new : String) (more : ℕ) (t s : String)
    → replace_from old new more (length t) (t ^^ s) ≡ replace_from old new more 0 s
unfolding replace_from
replace-skip old new more [] s = rw nil-append refl
replace-skip old new more (c ∷ t) s = rw cons-append (replace-skip old new more t s)

has_prefix-append : (p s : String) → has_prefix p (p ^^ s) ≡ true
has_prefix-append [] s = refl
has_prefix-append (c ∷ p) s = ground (arith, has_prefix-append p s, cons-append c p s)

-- A match is replaced, and the scan goes on behind it.
pub replace-match :
    (c : Char) (old new s : String)
    → replace_all (c ∷ old) new ((c ∷ old) ^^ s) ≡ new ^^ replace_all (c ∷ old) new s
unfolding replace_from
replace-match c old new s = ground (
  arith,
  cons-append c old s,
  has_prefix-append old s,
  replace-skip (c ∷ old) new (length old) old s,
)

-- A text without the first character of what is replaced stays.
pub replace-apart :
    (old new t s : String)
    → contains "$" t ≡ false
    → replace_all ("$" ∷ old) new (t ^^ s) ≡ t ^^ replace_all ("$" ∷ old) new s
unfolding replace_from
replace-apart old new [] s h = rw (nil-append s, nil-append (replace_all ("$" ∷ old) new s)) refl
replace-apart old new (c ∷ t) s h = ground (
  arith,
  replace-apart old new t s,
  cons-append c t s,
  cons-append c t (replace_all ("$" ∷ old) new s),
)

-- What stands before the first closing brace.
pub has_prefix-inner :
    (a b s : String)
    → contains "}" a ≡ false
    → contains "}" b ≡ false
    → has_prefix (a ^^ "}") (b ^^ "}" ^^ s) ≡ true
    → a ≡ b
has_prefix-inner [] [] s h k e = refl
has_prefix-inner [] (d ∷ b) s h k e = ground (arith, nil-append "}", cons-append d b ("}" ^^ s))
has_prefix-inner (c ∷ a) [] s h k e =
    ground (arith, cons-append c a "}", nil-append ("}" ^^ s), cons-append "}" "" s, nil-append s)
has_prefix-inner (c ∷ a) (d ∷ b) s h k e = λ i.
    Char-path c d (ground (arith, cons-append c a "}", cons-append d b ("}" ^^ s))) i
    ∷ has_prefix-inner a b s (ground arith) (ground arith)
        (ground (arith, cons-append c a "}", cons-append d b ("}" ^^ s))) i

pub has_prefix-same : (p a b : String) → has_prefix (p ^^ a) (p ^^ b) ≡ has_prefix a b
has_prefix-same [] a b = rw (nil-append a, nil-append b) refl
has_prefix-same (c ∷ p) a b =
    ground (arith, cons-append c p a, cons-append c p b, has_prefix-same p a b)

pub contains-append :
    (d : Char) (s t : String)
    → contains (d ∷ []) (s ^^ t) ≡ (contains (d ∷ []) s || contains (d ∷ []) t)
contains-append d [] t = rw (nil-append t) refl
contains-append d (c ∷ s) t = ground (arith, cons-append c s t, contains-append d s t)

-- Where nothing matches, the scan goes on by one character.
pub replace-miss :
    (old new : String) (s : String)
    → has_prefix old s ≡ false
    → replace_all ("$" ∷ old) new ("$" ∷ s) ≡ "$" ∷ replace_all ("$" ∷ old) new s
unfolding replace_from
replace-miss old new s h = ground arith
