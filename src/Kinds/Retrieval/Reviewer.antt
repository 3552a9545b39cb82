-- ===== src/Kinds/Retrieval/Reviewer.antt =====
-- The token by which KubernetesAuthEngineConfig has Vault review others:
-- api/v1alpha1/kubernetesauthengineconfig_types.go.
use vault_config_operator.Common.{ℕ, String, none, some}
use vault_config_operator.Common.Action.{Action, pure, get, modify, ◌>>=◌}
use vault_config_operator.Endpoint.{Cell, in_world}
use vault_config_operator.Kinds.KubernetesAuthEngineConfig.{KubernetesAuthEngineConfig}

abbrev pub set_token_reviewer_jwt : String → KubernetesAuthEngineConfig → KubernetesAuthEngineConfig
set_token_reviewer_jwt jwt d = record d {
  spec = record (d.spec) {
    kaec_config = record (d.spec.kaec_config) { retrieved_token_reviewer_jwt = jwt };
  };
}

-- `create_token` is `GetJWTTokenWithDuration` of a service account, a namespace and seconds.
module _ {W : Type 0} (create_token : String → String → ℕ → Action W String)
    (get_namespace : KubernetesAuthEngineConfig → String) where
  -- A token for a year.
  unfoldable pub get_jwt_token : String → Action (Cell KubernetesAuthEngineConfig W) String
  get_jwt_token account = do
    c ← get
    in_world (create_token account (get_namespace c.object) 31536000)

  unfoldable pub prepare_internal_values : Action (Cell KubernetesAuthEngineConfig W) (Unit {0})
  prepare_internal_values = do
    c ← get
    elim c.object.spec.token_reviewer_service_account [
      | none ↦ pure tt
      | some account ↦ do
        jwt ← get_jwt_token account
        modify (λ c. record c { object = set_token_reviewer_jwt jwt c.object })
    ]
