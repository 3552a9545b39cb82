-- ===== src/AuthEngine/Webhook.antt =====
-- What an update of an AuthEngineMount that the webhook accepts may change.
use vault_config_operator.Common.{Bool, true, false, ◌≡◌, refl, none, arith, eq_iff}
use vault_config_operator.Payload.{bool_eq}
use vault_config_operator.AuthEngine.{AuthEngineMount, is_same_mount, validate_update, get_path}

bool_eq_sound : (a b : Bool) → bool_eq a b ≡ true → a ≡ b
bool_eq_sound true true h = refl
bool_eq_sound true false h = cc
bool_eq_sound false true h = cc
bool_eq_sound false false h = refl

-- An update that the webhook accepts changes neither the path nor, of the mount, anything but its
-- configuration, and where the names stay too, the mount keeps its place in Vault.
pub validate_update_keeps :
    (r old : AuthEngineMount)
    → validate_update r old ≡ none
    → (r.spec.path ≡ old.spec.path)
      × (record (r.spec.auth_mount) { config = old.spec.auth_mount.config } ≡ old.spec.auth_mount)
      × (r.spec.name ≡ old.spec.name
          → r.metadata_name ≡ old.metadata_name
          → get_path r ≡ get_path old)
unfolding validate_update get_path
validate_update_keeps r old h =
    let m = r.spec.auth_mount in
    let n = old.spec.auth_mount in
    let p : r.spec.path ≡ old.spec.path = ground (arith, eq_iff r.spec.path old.spec.path) in
    let same : is_same_mount n m ≡ true = ground arith in
    let d : m.description ≡ n.description = ground (arith, eq_iff n.description m.description) in
    let k : m.kind ≡ n.kind = ground (arith, eq_iff n.kind m.kind) in
    let l : m.is_local ≡ n.is_local = ground (arith, bool_eq_sound n.is_local m.is_local) in
    let w : m.seal_wrap ≡ n.seal_wrap = ground (arith, bool_eq_sound n.seal_wrap m.seal_wrap) in
    (
      p,
      (λ i. record n { description = d i; kind = k i; is_local = l i; seal_wrap = w i }),
      λ named called. rw (p, named, called) refl,
    )
