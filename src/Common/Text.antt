-- ===== src/Common/Text.antt =====
-- The functions of Go's package `strings` that the program calls, over the native texts.
use Prim.Native.Char.{Char, code}
use Prim.Native.String
use Prim.Native.String.{String, [], ◌∷◌}
use vault_config_operator.Common.{
  ℕ, zero, suc, Bool, true, false, ◌&&◌, ◌||◌, if◌then◌else◌, ◌==◌, str_eq,
}

infixr 65 ◌^^◌
-- Go's `+` on strings.
abbrev pub ◌^^◌ : String → String → String
s ^^ t = String.◌++◌ s t

-- `strings.HasPrefix(s, p)`, the pattern first.
abbrev pub has_prefix : String → String → Bool
has_prefix [] s = true
has_prefix (a ∷ p) [] = false
has_prefix (a ∷ p) (c ∷ s) = code c == code a && has_prefix p s

-- `strings.Contains(s, p)`, the pattern first.
abbrev pub contains : String → String → Bool
contains p [] = has_prefix p []
contains p (c ∷ s) = has_prefix p (c ∷ s) || contains p s

-- `strings.HasSuffix(s, p)`, the pattern first.
abbrev pub has_suffix : String → String → Bool
has_suffix p [] = str_eq p []
has_suffix p (c ∷ s) = str_eq p (c ∷ s) || has_suffix p s

-- `strings.TrimPrefix(s, p)`, the pattern first.
abbrev drop_prefix : String → String → String
drop_prefix [] s = s
drop_prefix (a ∷ p) [] = []
drop_prefix (a ∷ p) (c ∷ s) = drop_prefix p s

unfoldable pub trim_prefix : String → String → String
trim_prefix p s = if has_prefix p s then drop_prefix p s else s

-- The scan of `strings.ReplaceAll(s, old, new)` for an `old` of `suc more` characters: `skip`
-- counts those of a match that are still to be passed over.
unfoldable pub replace_from : String → String → ℕ → ℕ → String → String
replace_from old new more skip [] = []
replace_from old new more (suc skip) (c ∷ s) = replace_from old new more skip s
replace_from old new more zero (c ∷ s) =
    let hit = new ^^ replace_from old new more more s in
    let miss = c ∷ replace_from old new more zero s in if has_prefix old (c ∷ s) then hit else miss

abbrev pub length : String → ℕ
length [] = 0
length (c ∷ s) = suc (length s)

-- `strings.ReplaceAll(s, old, new)` for an `old` that is not empty.
abbrev pub replace_all : String → String → String → String
replace_all [] new s = s
replace_all (a ∷ old) new s = replace_from (a ∷ old) new (length old) 0 s

-- `strings.Replace(s, old, new, 1)` for an `old` that is not empty.
unfoldable pub replace_first : String → String → String → String
replace_first old new [] = []
replace_first old new (c ∷ s) =
    let miss = c ∷ replace_first old new s in
    if has_prefix old (c ∷ s) then new ^^ drop_prefix old (c ∷ s) else miss

abbrev pub is_slash : Char → Bool
is_slash c = code c == b'/'

-- `strings.TrimLeft(s, "/")`.
unfoldable pub trim_left : String → String
trim_left [] = []
trim_left (c ∷ s) = let rest = trim_left s in if is_slash c then rest else c ∷ s

-- Puts a character before a text of which the trailing slashes are gone.
abbrev pub unless_last_slash : Char → String → String
unless_last_slash c [] = if is_slash c then [] else c ∷ []
unless_last_slash c (d ∷ s) = c ∷ d ∷ s

-- `strings.TrimRight(s, "/")`.
unfoldable pub trim_right : String → String
trim_right [] = []
trim_right (c ∷ s) = unless_last_slash c (trim_right s)

-- `strings.Trim(s, "/")`.
unfoldable pub trim : String → String
unfolding trim_left trim_right
trim s = trim_left (trim_right s)
