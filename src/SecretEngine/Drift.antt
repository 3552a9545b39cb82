-- ===== src/SecretEngine/Drift.antt =====
-- A mount never recognises its own configuration in what Vault answers.
use vault_config_operator.Common.{true, ◌≡◌, refl, false, some}
use vault_config_operator.Common.Action.{ok}
use vault_config_operator.Payload.{Payload, lookup, strs, erase}
use vault_config_operator.Payload.Decoded.{IsDecodedMap, map_equal_native}
use vault_config_operator.Vault.{Vault, read, write}
use vault_config_operator.Endpoint.{Cell, in_world}
use vault_config_operator.Engine.{create_or_update_tune_config, read_tune_config}
use vault_config_operator.SecretEngine.{
  SecretEngineMount, config_to_map, is_equivalent_to_desired_state, mounts, mount_engines,
  get_engine_tune_path, get_tune_payload,
}

keys_found :
    (d : SecretEngineMount)
    → lookup "audit_non_hmac_request_keys"
        (erase "description" (erase "options" (config_to_map d.spec.mount.config)))
      ≡ some (strs d.spec.mount.config.audit_non_hmac_request_keys)
unfolding config_to_map
keys_found d = refl

pub is_equivalent_to_desired_state_never :
    (d : SecretEngineMount) (m : Payload)
    → IsDecodedMap m
    → is_equivalent_to_desired_state d (some m) ≡ false
unfolding is_equivalent_to_desired_state
is_equivalent_to_desired_state_never d m decoded =
    map_equal_native "audit_non_hmac_request_keys" _ m (keys_found d) refl decoded

-- If Vault answers the read of the tuning of a mount with any map that JSON decodes to, the step is
-- the write of the tune payload: it is never skipped.
pub create_or_update_tune_config_again :
    {W : Type 0} (v : Vault W) (c : Cell SecretEngineMount W) (m : Payload)
    → (read v (get_engine_tune_path c.object) c.world).0 ≡ ok (some m, true)
    → IsDecodedMap m
    → create_or_update_tune_config v mounts mount_engines c
      ≡ in_world
          (write v (get_engine_tune_path c.object) (get_tune_payload c.object))
          (record c { world = (read v (get_engine_tune_path c.object) c.world).1 })
unfolding create_or_update_tune_config read_tune_config
create_or_update_tune_config_again v c m found decoded =
    rw (found, is_equivalent_to_desired_state_never c.object m decoded) refl
