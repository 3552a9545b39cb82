-- ===== src/Policy/Stored.antt =====
-- What a policy takes for its desired state.
use vault_config_operator.Common.{
  String, ◌≡◌, refl, ◌∙◌, sym, ap, true, some, if◌then◌else◌, str_eq, Bool-cases, inl, inr,
}
use vault_config_operator.Payload.{Payload, lookup, str, size, map_equal}
use vault_config_operator.Payload.Laws.{map_equal-lookup, str_equal_iff}
use vault_config_operator.Policy.{Policy, desired_state, is_equivalent_to_desired_state, name_of}

-- The key under which Vault reports the text.
abbrev pub text_key : Policy → String
text_key d = if str_eq d.spec.kind "" then "rules" else "policy"

desired_state_fields :
    (d : Policy)
    → (lookup (text_key d) (desired_state d) ≡ some (str d.spec.policy))
      × (lookup "name" (desired_state d) ≡ some (str (name_of d)))
      × (size (desired_state d) ≡ 2)
unfolding desired_state
desired_state_fields d = elim (Bool-cases (str_eq d.spec.kind "")) [
  | inl untyped ↦ rw untyped (refl, refl, refl)
  | inr typed ↦ rw typed (refl, refl, refl)
]

equal_text :
    (k s : String) (l m : Payload)
    → map_equal l (some m) ≡ true
    → lookup k l ≡ some (str s)
    → (lookup k m ≡ some (str s)) × (size l ≡ size m)
equal_text k s l m h f =
    let (same, (w, found, eq)) = map_equal-lookup k l m h f in
    (found ∙ ap (λ x. some x) ((str_equal_iff s w).0 eq), same)

-- If a policy takes a payload for its desired state, the payload holds the policy's text, under
-- "rules" or under "policy" as the type is empty or not, its name, and nothing else.
pub is_equivalent_to_desired_state-lookup :
    (d : Policy) (m : Payload)
    → is_equivalent_to_desired_state d (some m) ≡ true
    → (lookup (text_key d) m ≡ some (str d.spec.policy))
      × (lookup "name" m ≡ some (str (name_of d)))
      × (size m ≡ 2)
unfolding is_equivalent_to_desired_state
is_equivalent_to_desired_state-lookup d m h =
    let (text, name, two) = desired_state_fields d in
    let (found, same) = equal_text (text_key d) d.spec.policy (desired_state d) m h text in
    (found, (equal_text "name" (name_of d) (desired_state d) m h name).0, sym same ∙ two)
