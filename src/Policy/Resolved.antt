-- ===== src/Policy/Resolved.antt =====
-- What `Policy.PrepareInternalValues` makes of a policy's text.
use Prim.Native.String.{String, ◌∷◌}
use text.Mathlib.TextLemmas.{append_assoc, cons-append, nil-append}
use vault_config_operator.Common.{
  ◌≡◌, refl, ◌∙◌, ap, true, false, arith, Bool-cases, inl, inr, List, Option, none, some,
  if◌then◌else◌, str_eq,
}
use vault_config_operator.Common.Action.{ok, try, try_result}
use vault_config_operator.Common.Bind.{bind-at}
use vault_config_operator.Common.Text.{◌^^◌, contains, trim}
use vault_config_operator.Payload.{Fields, end, field}
use vault_config_operator.Vault.{Vault, Secret}
use vault_config_operator.Endpoint.{Cell, in_world}
use vault_config_operator.Engine.{entries_of}
use vault_config_operator.Policy.{Policy}
use vault_config_operator.Policy.Accessors.{
  has_placeholder, placeholder, accessor_of, set_policy, resolve, replace_accessors,
  prepare_internal_values,
}
use vault_config_operator.Policy.Scan.{contains-append}
use vault_config_operator.Policy.Template.{
  Piece, literal, slot, print, IsInert, IsTemplate, spell, put_in, put_in-IsTemplate,
  replace_all-print,
}

-- The accessor of the engine at a path.
abbrev pub accessor_at : String → List (String × String) → Option String
accessor_at path List.[] = none
accessor_at path (List.◌∷◌ (q, a) es) = if str_eq path q then some a else accessor_at path es

abbrev fill_in : String → Option String → String → String
fill_in path none rest = placeholder path ^^ rest
fill_in path (some a) rest = a ^^ rest

-- The text of a policy in which each placeholder of an engine that is there is its accessor.
unfoldable pub resolved : List (String × String) → List Piece → String
resolved es List.[] = ""
resolved es (List.◌∷◌ (literal c) ps) = c ∷ resolved es ps
resolved es (List.◌∷◌ (slot path) ps) = fill_in path (accessor_at path es) (resolved es ps)

-- `m` is Vault's listing of the engines `es`; their paths have neither dollar signs nor closing
-- braces, and their accessors have no dollar signs.
abbrev pub Lists : Fields → List (String × String) → Type 0
Lists end List.[] = Unit {0}
Lists end (List.◌∷◌ e es) = ⊥
Lists (field key entry m) List.[] = ⊥
Lists (field key entry m) (List.◌∷◌ (path, accessor) es) =
    (trim key ≡ path)
    × (accessor_of entry ≡ ok accessor)
    × IsInert path
    × (contains "$" accessor ≡ false)
    × Lists m es

resolved-spell :
    (es : List (String × String)) (s : String) (ps : List Piece)
    → resolved es (spell s ps) ≡ s ^^ resolved es ps
unfolding resolved spell
resolved-spell es String.[] ps = rw (nil-append (resolved es ps)) refl
resolved-spell es (c ∷ s) ps =
    rw (cons-append c s (resolved es ps)) (ap (λ t. c ∷ t) (resolved-spell es s ps))

resolved-nil : (ps : List Piece) → resolved List.[] ps ≡ print ps
unfolding resolved print
resolved-nil List.[] = refl
resolved-nil (List.◌∷◌ (literal c) ps) = ap (λ s. c ∷ s) (resolved-nil ps)
resolved-nil (List.◌∷◌ (slot path) ps) = ap (λ s. placeholder path ^^ s) (resolved-nil ps)

resolved-put_in :
    (path accessor : String) (es : List (String × String)) (ps : List Piece)
    → resolved es (put_in path accessor ps) ≡ resolved (List.◌∷◌ (path, accessor) es) ps
unfolding resolved put_in
resolved-put_in path accessor es List.[] = refl
resolved-put_in path accessor es (List.◌∷◌ (literal c) ps) =
    ap (λ s. c ∷ s) (resolved-put_in path accessor es ps)
resolved-put_in path accessor es (List.◌∷◌ (slot q) ps) = elim (Bool-cases (str_eq q path)) [
  | inl e ↦ rw e (
      resolved-spell es accessor (put_in path accessor ps)
      ∙ ap (λ s. accessor ^^ s) (resolved-put_in path accessor es ps))
  | inr e ↦ rw e (ap (λ s. fill_in q (accessor_at q es) s) (resolved-put_in path accessor es ps))
]

slot-start : (rest : String) → "${auth/" ^^ rest ≡ "$" ∷ "{" ∷ "a" ∷ ("uth/" ^^ rest)
slot-start rest =
    cons-append "$" "{auth/" rest
    ∙ ap (λ s. "$" ∷ s)
        (cons-append "{" "auth/" rest ∙ ap (λ s. "{" ∷ s) (cons-append "a" "uth/" rest))

contains-slot : (path s : String) → contains "}" ("uth/" ^^ ((path ^^ "/@accessor}") ^^ s)) ≡ true
contains-slot path s = ground (
  arith,
  contains-append "}" "uth/" ((path ^^ "/@accessor}") ^^ s),
  contains-append "}" (path ^^ "/@accessor}") s,
  contains-append "}" path "/@accessor}",
)

-- The regular expression finds each placeholder.
has_placeholder-slot : (path s : String) → has_placeholder (placeholder path ^^ s) ≡ true
has_placeholder-slot path s =
    ap has_placeholder
      (append_assoc "${auth/" (path ^^ "/@accessor}") s ∙ slot-start ((path ^^ "/@accessor}") ^^ s))
    ∙ rw (contains-slot path s) refl

resolved-unmarked :
    (es : List (String × String)) (ps : List Piece)
    → has_placeholder (print ps) ≡ false
    → resolved es ps ≡ print ps
unfolding resolved print
resolved-unmarked es List.[] h = refl
resolved-unmarked es (List.◌∷◌ (literal c) ps) h =
    ap (λ s. c ∷ s) (resolved-unmarked es ps (ground arith))
resolved-unmarked es (List.◌∷◌ (slot path) ps) h =
    let found = has_placeholder-slot path (print ps) in cc

module _ {W : Type 0} where
  replace_accessors-print :
      (m : Fields) (es : List (String × String)) (ps : List Piece) (c : Cell Policy W)
      → Lists m es
      → IsTemplate ps
      → replace_accessors m (set_policy (print ps) c) ≡ (ok tt, set_policy (resolved es ps) c)
  unfolding replace_accessors
  replace_accessors-print end List.[] ps c l t = rw (resolved-nil ps) refl
  replace_accessors-print end (List.◌∷◌ e es) ps c l t = elim l [ ]
  replace_accessors-print (field key entry m) List.[] ps c l t = elim l [ ]
  replace_accessors-print (field key entry m) (List.◌∷◌ (path, accessor) es) ps c l t =
      let (named, found, inert, plain_text, listed) = l in
      rw (found, named, replace_all-print path accessor ps inert t)
        (replace_accessors-print m es (put_in path accessor ps) c listed
            (put_in-IsTemplate path accessor ps plain_text t)
          ∙ ap (λ text. (ok tt, set_policy text c)) (resolved-put_in path accessor es ps))

module _ {W : Type 0} (v : Vault W) where
  -- For a policy that is put together of placeholders and of characters other than the dollar
  -- sign, and engines that Vault lists when it answers, whose paths have neither dollar signs nor
  -- closing braces and whose accessors have no dollar signs, the values are prepared without an
  -- error, and each placeholder of an engine that is listed is its accessor then; nothing else of
  -- the object changes.
  pub prepare_internal_values-IsResolved :
      (ps : List Piece) (es : List (String × String)) (c : Cell Policy W) (s : Secret)
      → IsTemplate ps
      → (v.logical_read "sys/auth" c.world).0 ≡ ok (some s)
      → Lists (entries_of s.contents) es
      → ((prepare_internal_values v (set_policy (print ps) c)).0 ≡ ok tt)
        × ((prepare_internal_values v (set_policy (print ps) c)).1.object
            ≡ (set_policy (resolved es ps) c).object)
  unfolding prepare_internal_values
  prepare_internal_values-IsResolved ps es c s t answered l =
      elim (Bool-cases (has_placeholder (print ps))) [
        | inr e ↦ rw e (refl, rw (resolved-unmarked es ps e) refl)
        | inl e ↦ rw e (
            let ran =
              bind-at (try (in_world (v.logical_read "sys/auth"))) resolve (set_policy (print ps) c)
                (ok (some s)) (ap try_result answered)
              ∙ replace_accessors-print (entries_of s.contents) es ps
                  (record c { world = (v.logical_read "sys/auth" c.world).1 }) l t in
            (ap (λ r. r.0) ran, ap (λ r. r.1.object) ran))
      ]
