-- ===== src/Policy/Template.antt =====
-- Policies as the pieces of which they are put together, and a scan for one placeholder.
use Prim.Native.Char.{Char}
use Prim.Native.String.{String, []}
use text.Mathlib.TextLemmas.{append_assoc, append_cancel_right, nil-append, cons-append}
use vault_config_operator.Common.{
  ◌≡◌, refl, ◌∙◌, sym, ap, true, false, arith, Bool-cases, inl, inr, List, ◌∷◌, eq_iff,
  if◌then◌else◌, str_eq,
}
use vault_config_operator.Common.Text.{◌^^◌, has_prefix, contains, replace_from, replace_all}
use vault_config_operator.Policy.Accessors.{placeholder}
use vault_config_operator.Policy.Scan.{
  replace-match, replace-apart, has_prefix-inner, has_prefix-same, contains-append, replace-miss,
}

-- A character that stands for itself, or the placeholder of the engine at a path.
pub data Piece : Type 0 where
  literal : Char → Piece
  slot : String → Piece

unfoldable pub print : List Piece → String
print List.[] = []
print (literal c ∷ ps) = String.◌∷◌ c (print ps)
print (slot path ∷ ps) = placeholder path ^^ print ps

-- Neither a dollar sign nor a closing brace.
abbrev pub IsInert : String → Type 0
IsInert s = (contains "$" s ≡ false) × (contains "}" s ≡ false)

-- Dollar signs stand only where placeholders begin.
unfoldable pub IsTemplate : List Piece → Type 0
IsTemplate List.[] = Unit {0}
IsTemplate (literal c ∷ ps) = (contains "$" (String.◌∷◌ c []) ≡ false) × IsTemplate ps
IsTemplate (slot path ∷ ps) = IsInert path × IsTemplate ps

unfoldable pub spell : String → List Piece → List Piece
spell [] ps = ps
spell (String.◌∷◌ c s) ps = literal c ∷ spell s ps

-- The pieces after one placeholder was replaced.
unfoldable pub put_in : String → String → List Piece → List Piece
put_in path accessor List.[] = List.[]
put_in path accessor (literal c ∷ ps) = literal c ∷ put_in path accessor ps
put_in path accessor (slot q ∷ ps) =
    let rest = put_in path accessor ps in
    if str_eq q path then spell accessor rest else slot q ∷ rest

print-spell : (s : String) (ps : List Piece) → print (spell s ps) ≡ s ^^ print ps
unfolding print spell
print-spell [] ps = rw (nil-append (print ps)) refl
print-spell (String.◌∷◌ c s) ps =
    rw (cons-append c s (print ps)) (ap (λ t. String.◌∷◌ c t) (print-spell s ps))

spell-IsTemplate :
    (s : String) (ps : List Piece)
    → contains "$" s ≡ false
    → IsTemplate ps
    → IsTemplate (spell s ps)
unfolding IsTemplate spell
spell-IsTemplate [] ps h t = t
spell-IsTemplate (String.◌∷◌ c s) ps h t = (ground arith, spell-IsTemplate s ps (ground arith) t)

pub put_in-IsTemplate :
    (path accessor : String) (ps : List Piece)
    → contains "$" accessor ≡ false
    → IsTemplate ps
    → IsTemplate (put_in path accessor ps)
unfolding IsTemplate put_in
put_in-IsTemplate path accessor List.[] h t = tt
put_in-IsTemplate path accessor (literal c ∷ ps) h t =
    (t.0, put_in-IsTemplate path accessor ps h t.1)
put_in-IsTemplate path accessor (slot q ∷ ps) h t = elim (Bool-cases (str_eq q path)) [
  | inl e ↦ rw e (
      spell-IsTemplate accessor (put_in path accessor ps) h
        (put_in-IsTemplate path accessor ps h t.1))
  | inr e ↦ rw e (t.0, put_in-IsTemplate path accessor ps h t.1)
]

-- A placeholder behind its dollar sign.
abbrev behind : String → String
behind path = "{auth/" ^^ path ^^ "/@accessor}"

placeholder_dollar : (path : String) → placeholder path ≡ String.◌∷◌ "$" (behind path)
placeholder_dollar path = cons-append "$" "{auth/" (path ^^ "/@accessor}")

abbrev stem : String → String
stem path = path ^^ "/@accessor"

stem_braced : (path : String) → path ^^ "/@accessor}" ≡ stem path ^^ "}"
stem_braced path = sym (append_assoc path "/@accessor" "}")

stem-closed : (path : String) → contains "}" path ≡ false → contains "}" (stem path) ≡ false
stem-closed path h = contains-append "}" path "/@accessor" ∙ rw h refl

behind-apart : (path : String) → contains "$" path ≡ false → contains "$" (behind path) ≡ false
behind-apart path h =
    contains-append "$" "{auth/" (path ^^ "/@accessor}")
    ∙ contains-append "$" path "/@accessor}"
    ∙ rw h refl

has_prefix-stems :
    (path q s : String)
    → has_prefix (behind path) (behind q ^^ s) ≡ has_prefix (stem path ^^ "}") (stem q ^^ "}" ^^ s)
has_prefix-stems path q s =
    ap (λ t. has_prefix (behind path) t) (append_assoc "{auth/" (q ^^ "/@accessor}") s)
    ∙ has_prefix-same "{auth/" (path ^^ "/@accessor}") ((q ^^ "/@accessor}") ^^ s)
    ∙ (λ i. has_prefix (stem_braced path i) (stem_braced q i ^^ s))
    ∙ ap (λ t. has_prefix (stem path ^^ "}") t) (append_assoc (stem q) "}" s)

has_prefix-behind :
    (path q s : String)
    → IsInert path
    → IsInert q
    → has_prefix (behind path) (behind q ^^ s) ≡ true
    → path ≡ q
has_prefix-behind path q s h k e = append_cancel_right path q "/@accessor" (
    has_prefix-inner (stem path) (stem q) s (stem-closed path h.1) (stem-closed q k.1)
      (sym (has_prefix-stems path q s) ∙ e))

has_prefix-other :
    (path q s : String)
    → IsInert path
    → IsInert q
    → str_eq q path ≡ false
    → has_prefix (behind path) (behind q ^^ s) ≡ false
has_prefix-other path q s h k e = elim (Bool-cases (has_prefix (behind path) (behind q ^^ s))) [
  | inl t ↦
      (let same = sym (has_prefix-behind path q s h k t) in let both = (eq_iff q path).1 same in cc)
  | inr f ↦ f
]

-- A placeholder of another engine is passed over.
replace-other :
    (path q accessor s : String)
    → IsInert path
    → IsInert q
    → str_eq q path ≡ false
    → replace_all (placeholder path) accessor (placeholder q ^^ s)
      ≡ placeholder q ^^ replace_all (placeholder path) accessor s
replace-other path q accessor s h k e =
    rw (placeholder_dollar path, placeholder_dollar q)
      (rw (cons-append "$" (behind q) s) (
        replace-miss (behind path) accessor (behind q ^^ s) (has_prefix-other path q s h k e)
        ∙ ap (λ t. String.◌∷◌ "$" t)
            (replace-apart (behind path) accessor (behind q) s (behind-apart q k.0))
        ∙ sym (cons-append "$" (behind q) (replace_all (String.◌∷◌ "$" (behind path)) accessor s))))

replace-hit :
    (path accessor s : String)
    → replace_all (placeholder path) accessor (placeholder path ^^ s)
      ≡ accessor ^^ replace_all (placeholder path) accessor s
replace-hit path accessor s =
    rw (placeholder_dollar path) (replace-match "$" (behind path) accessor s)

replace-literal :
    (path accessor : String) (c : Char) (s : String)
    → contains "$" (String.◌∷◌ c []) ≡ false
    → replace_all (placeholder path) accessor (String.◌∷◌ c s)
      ≡ String.◌∷◌ c (replace_all (placeholder path) accessor s)
unfolding replace_from
replace-literal path accessor c s h = rw (placeholder_dollar path) (ground arith)

-- A pass over a policy replaces the placeholders of one engine, and only those.
pub replace_all-print :
    (path accessor : String) (ps : List Piece)
    → IsInert path
    → IsTemplate ps
    → replace_all (placeholder path) accessor (print ps) ≡ print (put_in path accessor ps)
unfolding print put_in IsTemplate replace_from
replace_all-print path accessor List.[] h t = rw (placeholder_dollar path) refl
replace_all-print path accessor (literal c ∷ ps) h t =
    replace-literal path accessor c (print ps) t.0
    ∙ ap (λ s. String.◌∷◌ c s) (replace_all-print path accessor ps h t.1)
replace_all-print path accessor (slot q ∷ ps) h t =
    let rest = replace_all-print path accessor ps h t.1 in
    elim (Bool-cases (str_eq q path)) [
      | inl e ↦ rw e (
          ap (λ k. replace_all (placeholder path) accessor (placeholder k ^^ print ps))
            ((eq_iff q path).0 e)
          ∙ replace-hit path accessor (print ps)
          ∙ ap (λ s. accessor ^^ s) rest
          ∙ sym (print-spell accessor (put_in path accessor ps)))
      | inr e ↦
          rw e
            (replace-other path q accessor (print ps) h t.0 e ∙ ap (λ s. placeholder q ^^ s) rest)
    ]
