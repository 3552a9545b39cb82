-- ===== src/VaultSecret/Ownership.antt =====
-- Whose Kubernetes secret a VaultSecret writes and deletes.
use vault_config_operator.Common.{String, ◌≡◌, refl, ◌∙◌, Option, false, none, some}
use vault_config_operator.Common.Int.{pos}
use vault_config_operator.Common.Action.{ok, err}
use vault_config_operator.Endpoint.{Cell}
use vault_config_operator.Outcome.{ends_well, manage_outcome}
use vault_config_operator.Outcome.Api.{IsApi}
use vault_config_operator.Outcome.Recorded.{manage_outcome-at, manage_outcome-ends_well}
use vault_config_operator.KubeAuth.{Session}
use vault_config_operator.Resource.Applied.{IsServer, delete_resource_if_exists-Holds}
use vault_config_operator.VaultSecret.{VaultSecret, K8sSecret, k8s_secrets}
use vault_config_operator.VaultSecret.Controller.{
  Environment, is_mine, not_owned, should_sync, sync_if_needed, reconcile_living,
  reconcile_vault_secret, manage_clean_up_logic,
}

-- The place of the secret that a VaultSecret writes.
abbrev pub place : VaultSecret → String × String
place d = (d.namespace, d.spec.templatized_k8s_secret.name)

-- The state in which the output's place has been looked up.
abbrev pub looked :
    {W C Config : Type 0}
    → Environment W C Config
    → Cell VaultSecret (Session W C)
    → Cell VaultSecret (Session W C)
looked e c = record c { world = (e.secrets.get (place c.object).0 (place c.object).1 c.world).1 }

module _ {W C Config : Type 0} (e : Environment W C Config)
    (held : Session W C → String → String → Option K8sSecret) (stored : K8sSecret → K8sSecret)
    (Apart : String × String → String × String → Type 0)
    (server : IsServer k8s_secrets e.secrets held stored Apart) where
  abbrev pub held_at : Session W C → String × String → Option K8sSecret
  held_at w p = held w p.0 p.1

  sync_if_needed_not_mine :
      (c : Cell VaultSecret (Session W C)) (secret : K8sSecret)
      → (e.secrets.get (place c.object).0 (place c.object).1 c.world).0 ≡ ok secret
      → is_mine e c.object secret ≡ false
      → sync_if_needed e c ≡ (err (not_owned e c.object), looked e c)
  unfolding sync_if_needed should_sync
  sync_if_needed_not_mine c secret found foreign = rw (found, foreign) refl

  reconcile_not_mine :
      (c : Cell VaultSecret (Session W C)) (secret : K8sSecret)
      → e.objects.is_deleting c.object ≡ false
      → (e.secrets.get (place c.object).0 (place c.object).1 c.world).0 ≡ ok secret
      → is_mine e c.object secret ≡ false
      → reconcile_vault_secret e c
        ≡ manage_outcome e.objects e.kube (some (not_owned e c.object)) (looked e c)
  unfolding reconcile_vault_secret reconcile_living
  reconcile_not_mine c secret living found foreign =
      rw (living, sync_if_needed_not_mine c secret found foreign) refl

  -- If a Kubernetes secret of the output's name exists that the VaultSecret does not own, a cycle
  -- that is no deletion ends in an error and leaves that secret and every other one as it was.
  pub reconcile_vault_secret-leaves_alone :
      (api : IsApi e.objects e.kube held_at) (c : Cell VaultSecret (Session W C))
      (secret : K8sSecret)
      → e.objects.is_deleting c.object ≡ false
      → (e.secrets.get (place c.object).0 (place c.object).1 c.world).0 ≡ ok secret
      → is_mine e c.object secret ≡ false
      → (ends_well (reconcile_vault_secret e c).0 ≡ false)
        × ((n m : String) → held (reconcile_vault_secret e c).1.world n m ≡ held c.world n m)
  unfolding manage_outcome
  reconcile_vault_secret-leaves_alone api c secret living found foreign =
      rw (reconcile_not_mine c secret living found foreign) (
        (manage_outcome-ends_well e.objects e.kube held_at api (not_owned e c.object) (pos 0)
            (looked e c) "").0,
        λ n m.
            manage_outcome-at e.objects e.kube held_at api (some (not_owned e c.object)) (pos 0)
              (looked e c) (n, m)
            ∙ server.get_keeps (place c.object).0 (place c.object).1 c.world n m,
      )

  -- A clean-up without an error leaves no secret at the place of the VaultSecret's output, whoever
  -- owned the one that was there, and no secret at another place has changed.
  pub manage_clean_up_logic-removes :
      (c : Cell VaultSecret (Session W C))
      → (manage_clean_up_logic e c).0 ≡ ok tt
      → (held_at (manage_clean_up_logic e c).1.world (place c.object) ≡ none)
        × ((n m : String)
            → Apart (place c.object) (n, m)
            → held (manage_clean_up_logic e c).1.world n m ≡ held c.world n m)
  unfolding manage_clean_up_logic
  manage_clean_up_logic-removes c h =
      delete_resource_if_exists-Holds k8s_secrets e.secrets held stored Apart server _ c.world h
