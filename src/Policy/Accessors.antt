-- ===== src/Policy/Accessors.antt =====
-- The accessor placeholders of a policy: `Policy.PrepareInternalValues`.
use Prim.Native.String.{String, [], ◌∷◌}
use vault_config_operator.Common.{Bool, false, not, ◌&&◌, ◌||◌, if◌then◌else◌, Option, none, some}
use vault_config_operator.Common.Action.{
  plain, Result, ok, err, panic, Action, pure, fail, of_result, get, modify, try, ◌>>=◌, ◌>>◌,
}
use vault_config_operator.Common.Text.{◌^^◌, has_prefix, contains, trim, replace_all}
use vault_config_operator.Payload.{Fields, end, field, Value, lookup}
use vault_config_operator.Vault.{Vault, Secret}
use vault_config_operator.Endpoint.{Cell, in_world}
use vault_config_operator.Engine.{as_map, accessor_field, entries_of}
use vault_config_operator.Policy.{Policy}

-- `[^}]+}` at the start of a text.
abbrev closes : String → Bool
closes [] = false
closes (c ∷ s) = not (has_prefix "}" (c ∷ s)) && contains "}" s

-- `{[^}]+}` at the start of a text.
abbrev opens : String → Bool
opens [] = false
opens (c ∷ s) = has_prefix "{" (c ∷ s) && closes s

-- `regexp.MatchString("\\${[^}]+}", s)`
abbrev pub has_placeholder : String → Bool
has_placeholder [] = false
has_placeholder (c ∷ s) = has_prefix "$" (c ∷ s) && opens s || has_placeholder s

abbrev pub placeholder : String → String
placeholder path = "${auth/" ^^ path ^^ "/@accessor}"

-- `data.(map[string]interface{})["accessor"].(string)`
abbrev accessor_in_map : Result Fields → Result String
accessor_in_map (ok m) = accessor_field (lookup "accessor" m)
accessor_in_map (err e) = err e
accessor_in_map panic = panic

abbrev pub accessor_of : Value → Result String
accessor_of entry = accessor_in_map (as_map entry)

module _ {W : Type 0} where
  abbrev pub set_policy : String → Cell Policy W → Cell Policy W
  set_policy text c = record c {
    object = record (c.object) { spec = record (c.object.spec) { policy = text } };
  }

  -- One pass of the loop over the engines.
  abbrev pub replace_accessor : String → String → Action (Cell Policy W) (Unit {0})
  replace_accessor key accessor =
      modify
        (λ c. set_policy (replace_all (placeholder (trim key)) accessor c.object.spec.policy) c)

  -- The loop; Go visits the entries of the map in any order.
  unfoldable pub replace_accessors : Fields → Action (Cell Policy W) (Unit {0})
  replace_accessors end = pure tt
  replace_accessors (field key entry m) = do
    accessor ← of_result (accessor_of entry)
    replace_accessor key accessor
    replace_accessors m

  -- An error of the read is logged and dropped.
  abbrev pub resolve : Result (Option Secret) → Action (Cell Policy W) (Unit {0})
  resolve (err e) = pure tt
  resolve panic = of_result panic
  resolve (ok none) = fail (plain "listing auth engines at sys/auth unexpectedly returned null")
  resolve (ok (some secret)) = replace_accessors (entries_of secret.contents)

module _ {W : Type 0} (v : Vault W) where
  unfoldable pub prepare_internal_values : Action (Cell Policy W) (Unit {0})
  prepare_internal_values = do
    c ← get
    if has_placeholder c.object.spec.policy
        then (do answer ← try (in_world (v.logical_read "sys/auth")); resolve answer)
        else pure tt
