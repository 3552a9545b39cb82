-- ===== src/RabbitMq/Retrieved.antt =====
-- The retrieval of the credentials of a RabbitMQ engine takes whatever Vault answers.
use vault_config_operator.Common.{
  String, ◌≢◌, refl, Option, none, some, Bool, true, false, if◌then◌else◌, str_eq,
}
use vault_config_operator.Common.Action.{
  Error, Result, ok, err, panic, Action, of_result, try_result, bind_result, ◌>>=◌,
}
use vault_config_operator.Payload.{Payload, Value, str, obj, lookup}
use vault_config_operator.Vault.{Vault, Secret, read_secret, secret_answer, has_status, is_404}
use vault_config_operator.Endpoint.{Cell, in_world}
use vault_config_operator.Credentials.{RootCredentialConfig, VaultSecretReference}
use vault_config_operator.Database.Retrieval.{Lookups, contents_of}
use vault_config_operator.RandomSecret
use vault_config_operator.RabbitMq.{RabbitMqSecretEngineConfig}
use vault_config_operator.RabbitMq.Retrieval.{
  data_or, text_or, secret_data, data_at, from_random_secret, from_secret, from_vault_secret,
  from_credentials, set_internal_credentials,
}

-- A call that never panics.
abbrev pub IsCalm {ℓ} : {S : Type 0} {A : Type ℓ} → Action S A → Type ℓ
IsCalm {S} m = (s : S) → (m s).0 ≢ panic

bind_result-IsCalm {ℓ κ} :
    {S : Type 0} {A : Type ℓ} {B : Type κ} (f : A → Action S B) (r : Result A) (s : S)
    → r ≢ panic
    → ((a : A) → IsCalm (f a))
    → (bind_result f r s).0 ≢ panic
bind_result-IsCalm f (ok a) s h g = g a s
bind_result-IsCalm f (err e) s h g = λ p. cc
bind_result-IsCalm f panic s h g = λ p. h refl

bind-IsCalm {ℓ κ} :
    {S : Type 0} {A : Type ℓ} {B : Type κ} (m : Action S A) (f : A → Action S B)
    → IsCalm m
    → ((a : A) → IsCalm (f a))
    → IsCalm (m >>= f)
bind-IsCalm m f h g = λ s. bind_result-IsCalm f (m s).0 (m s).1 (h s) g

ok-IsCalm {ℓ} : {A : Type ℓ} (a : A) → ok a ≢ panic
ok-IsCalm a p = cc

err-IsCalm {ℓ} : {A : Type ℓ} (e : Error) → Path (Result A) (err e) panic → ⊥
err-IsCalm e p = cc

if-IsCalm {ℓ} :
    {A : Type ℓ} (b : Bool) (r s : Result A) → r ≢ panic → s ≢ panic → (if b then r else s) ≢ panic
if-IsCalm true r s h k = h
if-IsCalm false r s h k = k

secret_answer-IsCalm : (r : Result (Option Secret)) → r ≢ panic → secret_answer r ≢ panic
secret_answer-IsCalm (ok s) h = ok-IsCalm _
secret_answer-IsCalm (err e) h = if-IsCalm (has_status is_404 e) _ _ (ok-IsCalm none) (err-IsCalm e)
secret_answer-IsCalm panic h = h

caught-IsCalm :
    {W : Type 0} (r : Result (Option Secret)) (w : W)
    → r ≢ panic
    → (bind_result (λ answer. of_result (secret_answer answer)) (try_result r) w).0 ≢ panic
caught-IsCalm (ok s) w h = secret_answer-IsCalm (ok s) h
caught-IsCalm (err e) w h = secret_answer-IsCalm (err e) h
caught-IsCalm panic w h = λ p. h refl

contents_of-IsCalm : (o : Option Secret) → contents_of o ≢ panic
contents_of-IsCalm none = err-IsCalm _
contents_of-IsCalm (some s) = ok-IsCalm _

data_or-IsCalm : (m : Payload) (o : Option Value) → data_or m o ≢ panic
data_or-IsCalm m none = ok-IsCalm m
data_or-IsCalm m (some (obj n)) = ok-IsCalm n
data_or-IsCalm m (some _) = err-IsCalm _

text_or-IsCalm : (message : String) (o : Option Value) → text_or message o ≢ panic
text_or-IsCalm message (some (str s)) = ok-IsCalm s
text_or-IsCalm message _ = err-IsCalm _

module _ {W : Type 0} (v : Vault W) (k : Lookups W)
    (reads : (path : String) → IsCalm (v.logical_read path))
    (random_secrets : (name : String) → IsCalm (k.get_random_secret name))
    (secrets : (name : String) → IsCalm (k.get_secret name)) where
  read_secret-IsCalm : (path : String) → IsCalm (read_secret v path)
  unfolding read_secret
  read_secret-IsCalm path w =
      caught-IsCalm (v.logical_read path w).0 (v.logical_read path w).1 (reads path w)

  data_at-IsCalm : (path : String) → IsCalm (data_at v k path)
  unfolding data_at secret_data
  data_at-IsCalm path =
      bind-IsCalm (in_world (read_secret v path)) _ (λ c. read_secret-IsCalm path c.world)
        λ answer.
          bind-IsCalm (of_result (contents_of answer)) _ (λ c. contents_of-IsCalm answer)
            λ contents c. data_or-IsCalm contents (lookup "data" contents)

  from_random_secret-IsCalm : (name : String) → IsCalm (from_random_secret v k name)
  unfolding from_random_secret
  from_random_secret-IsCalm name c =
      bind-IsCalm (in_world (k.get_random_secret name)) _ (λ c. random_secrets name c.world)
        (λ random_secret.
          bind-IsCalm (data_at v k (RandomSecret.get_path random_secret)) _
            (data_at-IsCalm (RandomSecret.get_path random_secret))
            λ found.
              bind-IsCalm
                (of_result (
                  text_or "secret key not found or not a string in vault secret"
                    (lookup random_secret.spec.secret_key found)))
                _ (λ c. text_or-IsCalm _ _) λ password c. ok-IsCalm tt)
        c

  from_secret-IsCalm :
      (credentials : RootCredentialConfig) (name : String)
      → IsCalm (from_secret v k credentials name)
  unfolding from_secret
  from_secret-IsCalm credentials name c =
      bind-IsCalm (in_world (k.get_secret name)) _ (λ c. secrets name c.world)
        (λ contents c. ok-IsCalm tt) c

  from_vault_secret-IsCalm :
      (credentials : RootCredentialConfig) (reference : VaultSecretReference)
      → IsCalm (from_vault_secret v k credentials reference)
  unfolding from_vault_secret
  from_vault_secret-IsCalm credentials reference c =
      bind-IsCalm (data_at v k reference.path) _ (data_at-IsCalm reference.path)
        (λ found.
          bind-IsCalm
            (of_result (
              if str_eq c.object.spec.rmqse_config.username ""
              then text_or "username key not found or not a string in vault secret"
                  (lookup credentials.username_key found)
              else ok c.object.spec.rmqse_config.username))
            _
            (λ _.
              if-IsCalm (str_eq c.object.spec.rmqse_config.username "") _ _ (text_or-IsCalm _ _)
                (ok-IsCalm _))
            λ username.
              bind-IsCalm
                (of_result (
                  text_or "password key not found or not a string in vault secret"
                    (lookup credentials.password_key found)))
                _ (λ _. text_or-IsCalm _ _) λ password c. ok-IsCalm tt)
        c

  from_credentials-IsCalm :
      (credentials : RootCredentialConfig) (random_secret secret : Option String)
      (vault_secret : Option VaultSecretReference)
      → IsCalm (from_credentials v k credentials random_secret secret vault_secret)
  from_credentials-IsCalm credentials (some name) secret vault_secret =
      from_random_secret-IsCalm name
  from_credentials-IsCalm credentials none (some name) vault_secret =
      from_secret-IsCalm credentials name
  from_credentials-IsCalm credentials none none (some reference) =
      from_vault_secret-IsCalm credentials reference
  from_credentials-IsCalm credentials none none none = λ c. err-IsCalm _

  -- Where neither the reads of Vault nor those of the cluster panic, retrieving the credentials of a
  -- RabbitMQ engine does not panic either, whatever the secrets hold.
  pub set_internal_credentials-IsCalm :
      (c : Cell RabbitMqSecretEngineConfig W) → (set_internal_credentials v k c).0 ≢ panic
  unfolding set_internal_credentials
  set_internal_credentials-IsCalm c =
      from_credentials-IsCalm c.object.spec.root_credentials
        c.object.spec.root_credentials.random_secret c.object.spec.root_credentials.secret
        c.object.spec.root_credentials.vault_secret c
