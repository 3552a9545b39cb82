-- ===== src/Paths.antt =====
-- `CleansePath` of api/v1alpha1/utils/commons.go.
pub mod Laws
mod Tests
use vault_config_operator.Common.{String}
use vault_config_operator.Common.Text.{replace_from, trim}

unfoldable pub cleanse_path : String → String
unfolding replace_from trim
cleanse_path path = trim (replace_from "//" "/" 1 0 path)
