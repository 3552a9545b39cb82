-- ===== src/Conditions/Laws.antt =====
-- The list of conditions as a map by type.
use vault_config_operator.Common.{
  suc, String, ◌≡◌, refl, ◌≢◌, Bool, true, false, ◌||◌, Option, none, some, List, [], ◌∷◌, arith,
  if◌then◌else◌, str_eq, eq_iff, any, length,
}
use vault_config_operator.Conditions.{
  Condition, add_or_replace_condition, is_success, reconcile_successful,
}

-- The first condition of a type.
abbrev pub find_condition : String → List Condition → Option Condition
find_condition k [] = none
find_condition k (c ∷ cs) = if str_eq k c.kind then some c else find_condition k cs

abbrev pub has_kind : String → List Condition → Bool
has_kind k = any (λ c. str_eq k c.kind)

-- No two conditions have one type, as the API server requires of the list.
abbrev pub HasUniqueKinds : List Condition → Type 0
HasUniqueKinds [] = Unit
HasUniqueKinds (c ∷ cs) = (has_kind c.kind cs ≡ false) × HasUniqueKinds cs

-- A condition that was put is the one that is found under its type; under other types nothing
-- changes.
pub find_condition-add_or_replace :
    (k : String) (c : Condition) (cs : List Condition)
    → find_condition k (add_or_replace_condition c cs)
      ≡ (if str_eq k c.kind then some c else find_condition k cs)
unfolding add_or_replace_condition
find_condition-add_or_replace k c [] = refl
find_condition-add_or_replace k c (d ∷ cs) = ground (
  arith,
  eq_iff c.kind d.kind,
  eq_iff k c.kind,
  eq_iff k d.kind,
  find_condition-add_or_replace k c cs,
)

has_kind-add_or_replace :
    (k : String) (c : Condition) (cs : List Condition)
    → has_kind k (add_or_replace_condition c cs) ≡ (str_eq k c.kind || has_kind k cs)
unfolding add_or_replace_condition
has_kind-add_or_replace k c [] = ground arith
has_kind-add_or_replace k c (d ∷ cs) =
    ground (
      arith,
      eq_iff c.kind d.kind,
      eq_iff k c.kind,
      eq_iff k d.kind,
      has_kind-add_or_replace k c cs,
    )

-- If the types of the conditions are unique they stay so, and the list grows by one exactly when
-- the type is new.
pub add_or_replace_condition-HasUniqueKinds :
    (c : Condition) (cs : List Condition)
    → HasUniqueKinds cs
    → HasUniqueKinds (add_or_replace_condition c cs)
      × (length (add_or_replace_condition c cs)
          ≡ (if has_kind c.kind cs then length cs else suc (length cs)))
unfolding add_or_replace_condition
add_or_replace_condition-HasUniqueKinds c [] h = ((refl, tt), refl)
add_or_replace_condition-HasUniqueKinds c (d ∷ cs) h = ground (
  arith,
  eq_iff c.kind d.kind,
  eq_iff d.kind c.kind,
  has_kind-add_or_replace d.kind c cs,
  add_or_replace_condition-HasUniqueKinds c cs h.1,
)

-- A success, once recorded, is only ever replaced by a condition of the same type: any other
-- condition leaves it in the list.
pub any-is_success-add_or_replace :
    (c : Condition) (cs : List Condition)
    → c.kind ≢ reconcile_successful
    → any is_success (add_or_replace_condition c cs) ≡ any is_success cs
unfolding add_or_replace_condition
any-is_success-add_or_replace c [] h = ground (arith, eq_iff c.kind reconcile_successful)
any-is_success-add_or_replace c (d ∷ cs) h = ground (
  arith,
  eq_iff c.kind reconcile_successful,
  eq_iff d.kind reconcile_successful,
  eq_iff c.kind d.kind,
  any-is_success-add_or_replace c cs h,
)

-- Putting a success makes the list hold one.
pub any-is_success_put :
    (c : Condition) (cs : List Condition)
    → is_success c ≡ true
    → any is_success (add_or_replace_condition c cs) ≡ true
unfolding add_or_replace_condition
any-is_success_put c [] h = ground arith
any-is_success_put c (d ∷ cs) h = ground (arith, any-is_success_put c cs h)
