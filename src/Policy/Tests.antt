-- ===== src/Policy/Tests.antt =====
-- A policy without a type, and what Vault reports of it; a policy with placeholders.
use vault_config_operator.Common.{◌≡◌, refl, true, false, none, List, [], ◌∷◌}
use vault_config_operator.Common.Action.{ok, panic}
use vault_config_operator.Common.Text.{replace_from, trim, trim_left, trim_right}
use vault_config_operator.Payload.{Payload, end, field, str, obj}
use vault_config_operator.Endpoint.{Cell}
use vault_config_operator.Samples.Memory.{Store, secret_of, memory}
use vault_config_operator.Policy.{Policy}
use vault_config_operator.Policy.Accessors.{
  has_placeholder, set_policy, replace_accessors, prepare_internal_values,
}
use vault_config_operator.Policy.Template.{Piece, literal, slot, print, IsTemplate}
use vault_config_operator.Policy.Resolved.{resolved, prepare_internal_values-IsResolved}

abbrev reader : Policy
reader = record {
  metadata_name = "reader";
  spec = record {
    connection = none;
    policy = "path \"kv/*\" {}";
    kind = "";
    authentication = record {
      service_account = none;
      path = "kubernetes";
      role = "r";
      namespace = "";
    };
    name = "";
  };
  status = record { conditions = [] };
}

abbrev answered : Payload
answered = field "rules" (str "path \"kv/*\" {}") (field "name" (str "reader") end)

-- `path "x${auth/k/@accessor}${auth/l/@accessor}"`, in which only `k` is an engine.
abbrev template : List Piece
template = literal "x" ∷ slot "k" ∷ slot "l" ∷ []

abbrev listing : Payload
listing = field "k/" (obj (field "accessor" (str "acc_1") end)) end

abbrev templated : Cell Policy Store
templated = record { object = reader; world = ("sys/auth", listing) ∷ [] }

prepare_internal_values-IsResolved_example :
    ((prepare_internal_values memory (set_policy (print template) templated)).0 ≡ ok tt)
    × ((prepare_internal_values memory (set_policy (print template) templated)).1.object
        ≡ (set_policy (resolved (("k", "acc_1") ∷ []) template) templated).object)
unfolding IsTemplate trim
prepare_internal_values-IsResolved_example =
    prepare_internal_values-IsResolved memory template (("k", "acc_1") ∷ []) templated
      (secret_of listing) (refl, ((refl, refl), ((refl, refl), tt))) refl
      (refl, refl, (refl, refl), refl, tt)

resolved_runs : resolved (("k", "acc_1") ∷ []) template ≡ "xacc_1${auth/l/@accessor}"
unfolding resolved
resolved_runs = refl

prepare_internal_values_runs :
    (prepare_internal_values memory
      (set_policy "${auth/k/@accessor} ${auth//@accessor}" templated)).1.object.spec.policy
    ≡ "acc_1 ${auth//@accessor}"
unfolding prepare_internal_values replace_accessors replace_from trim trim_left trim_right
prepare_internal_values_runs = refl

has_placeholder_runs :
    (has_placeholder "a ${b} c" ≡ true)
    × (has_placeholder "a ${} c" ≡ false)
    × (has_placeholder "a {b} $c" ≡ false)
    × (has_placeholder "$${x${}" ≡ true)
has_placeholder_runs = (refl, refl, refl, refl)

-- An engine without an accessor ends in a panic, a listing that is missing in an error, and a read
-- that fails leaves the placeholders.
prepare_internal_values_errors :
    ((prepare_internal_values memory (record (set_policy (print template) templated) {
      world = ("sys/auth", field "k/" (obj end) end) ∷ [];
    })).0
      ≡ panic)
    × (prepare_internal_values memory
          (record (set_policy (print template) templated) { world = [] })
        ≡ (ok tt, record (set_policy (print template) templated) { world = [] }))
unfolding prepare_internal_values replace_accessors print
prepare_internal_values_errors = (refl, refl)
