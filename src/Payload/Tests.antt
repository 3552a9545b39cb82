-- ===== src/Payload/Tests.antt =====
-- Payloads that are compared with what Vault sends back.
use vault_config_operator.Common.{◌≡◌, refl, true, false, some}
use vault_config_operator.Common.Int.{pos}
use vault_config_operator.Payload.{
  Value, str, int, number, Payload, end, field, lookup, size, deep_equal, map_equal,
}
use vault_config_operator.Payload.Laws.{map_equal-lookup}
use vault_config_operator.Payload.Decoded.{map_equal_native}

abbrev desired : Payload
desired = field "name" (str "n") (field "ttl" (int (pos 5)) end)

abbrev answered : Payload
answered = field "ttl" (number "5") (field "name" (str "n") end)

abbrev swapped : Payload
swapped = field "ttl" (int (pos 5)) (field "name" (str "n") end)

map_equal-lookup_example :
    (size desired ≡ size swapped)
    × ((w : Value) × (lookup "name" swapped ≡ some w) × (deep_equal (str "n") w ≡ true))
unfolding map_equal deep_equal
map_equal-lookup_example = map_equal-lookup "name" desired swapped refl refl

map_equal_native_example : map_equal desired (some answered) ≡ false
map_equal_native_example = map_equal_native "ttl" desired answered refl refl (tt, (tt, tt))
