-- ===== src/RandomSecret/Lifecycle.antt =====
-- What the RandomSecret controller does to Vault: when it writes, when it does not, and what it
-- leaves behind.
use vault_config_operator.Common.{
  String, ◌≡◌, refl, ap, sym, ◌∙◌, Bool, true, false, Option, none, some, if◌then◌else◌, str_eq,
}
use vault_config_operator.Common.Int.{ℤ, ltb_ℤ, ◌+ℤ◌}
use vault_config_operator.Common.Action.{ok, Action, pure, modify, ◌>>=◌, ◌>>◌}
use vault_config_operator.Common.Text.{replace_first}
use vault_config_operator.Payload.{Payload}
use vault_config_operator.Vault.{Vault, read}
use vault_config_operator.Vault.Store.{IsStore}
use vault_config_operator.Vault.Calls.{read-keeps, write-stores}
use vault_config_operator.Endpoint.{Cell, exists, create, delete_if_exists, delete_kvv2_if_exists}
use vault_config_operator.Endpoint.Delete.{
  IsGone, delete_if_exists-IsGone, delete_kvv2_if_exists-IsGone,
}
use vault_config_operator.Outcome.{KubeObject, Kube}
use vault_config_operator.RandomSecret.{
  RandomSecret, Runtime, get_path, get_payload, get_v1_payload, retain_kv_secret_retain_policy,
}
use vault_config_operator.RandomSecret.Password.{ByteSets, random_secrets, generate_new_password}
use vault_config_operator.RandomSecret.Password.Generated.{
  IsGenerated, generate_new_password-IsGenerated,
}
use vault_config_operator.Common.Bind.{bind-ok, bind-at}
use vault_config_operator.RandomSecret.Controller.{
  manage_clean_up_logic, is_taken, write_new_secret, manage_reconcile_logic, time_now, set_updated,
}

module _ {S W : Type 0} (x : KubeObject RandomSecret) (k : Kube RandomSecret W) (v : Vault W)
    (b : ByteSets S) (e : Runtime W) (at : W → String → Option Payload)
    (stored : String → Payload → Payload) (apart : String → String → Type 0)
    (store : IsStore v at stored apart) where
  -- Where the clean-up deletes: the metadata of a KV version 2 secret, so that all versions go.
  abbrev pub place : RandomSecret → String
  place d =
      if d.spec.is_kv_secrets_engine_v2
      then replace_first "/data/" "/metadata/" (get_path d)
      else get_path d

  abbrev pub IsForgotten : Cell RandomSecret W → Cell RandomSecret W → Type 0
  IsForgotten c c' =
      if str_eq c.object.spec.kv_secret_retain_policy retain_kv_secret_retain_policy
      then c' ≡ c
      else IsGone v at stored apart store (place c.object) c c'

  abbrev clean_up : Bool → Bool → Action (Cell RandomSecret W) (Unit {0})
  clean_up retain v2 =
      if retain
      then pure tt
      else if v2
      then delete_kvv2_if_exists v (random_secrets b e v)
      else delete_if_exists v (random_secrets b e v)

  forgotten :
      (c : Cell RandomSecret W) (retain v2 : Bool)
      → (clean_up retain v2 c).0 ≡ ok tt
      → (if retain
          then (clean_up retain v2 c).1 ≡ c
          else IsGone v at stored apart store
              (if v2
                then replace_first "/data/" "/metadata/" (get_path c.object)
                else get_path c.object)
              c
              (clean_up retain v2 c).1)
  forgotten c true v2 h = refl
  forgotten c false true h =
      delete_kvv2_if_exists-IsGone v at stored apart store (random_secrets b e v) c h
  forgotten c false false h =
      delete_if_exists-IsGone v at stored apart store (random_secrets b e v) c h

  -- A clean-up that succeeds changes nothing under the policy Retain, and otherwise leaves nothing
  -- at the secret's place (the metadata of a KV version 2 secret), changing no place apart from it
  -- and not the object.
  pub manage_clean_up_logic-IsForgotten :
      (c : Cell RandomSecret W)
      → (manage_clean_up_logic x k v b e c).0 ≡ ok tt
      → IsForgotten c (manage_clean_up_logic x k v b e c).1
  unfolding manage_clean_up_logic
  manage_clean_up_logic-IsForgotten c h =
      forgotten c (str_eq c.object.spec.kv_secret_retain_policy retain_kv_secret_retain_policy)
        c.object.spec.is_kv_secrets_engine_v2 h

  manage_reconcile_logic_found :
      (c : Cell RandomSecret W) (d : Option Payload)
      → c.object.status.last_vault_secret_update ≡ none
      → c.object.spec.refresh_period ≡ none
      → (read v (get_path c.object) c.world).0 ≡ ok (d, true)
      → manage_reconcile_logic x k v b e c
        ≡ (ok tt, record c { world = (read v (get_path c.object) c.world).1 })
  unfolding manage_reconcile_logic is_taken exists read get_path
  manage_reconcile_logic_found c d new one_off found = rw (new, one_off, found) refl

  -- A RandomSecret without a refresh period that was never written does not touch a secret that
  -- it finds in Vault: the step succeeds, nothing in Vault changes, and neither does the object.
  pub manage_reconcile_logic_taken :
      (c : Cell RandomSecret W) (d : Option Payload)
      → c.object.status.last_vault_secret_update ≡ none
      → c.object.spec.refresh_period ≡ none
      → (read v (get_path c.object) c.world).0 ≡ ok (d, true)
      → ((manage_reconcile_logic x k v b e c).0 ≡ ok tt)
        × ((q : String) → at (manage_reconcile_logic x k v b e c).1.world q ≡ at c.world q)
        × ((manage_reconcile_logic x k v b e c).1.object ≡ c.object)
  manage_reconcile_logic_taken c d new one_off found =
      rw (manage_reconcile_logic_found c d new one_off found)
        (refl, λ q. read-keeps v at stored apart store (get_path c.object) q c.world, refl)

  -- What a step that wrote has done: a new password was generated, which makes `c₁`, drawn for the
  -- inline policy or answered by Vault for the named one; the payload
  -- with that password is at the object's path; and the object is that of `c₁`, with the time at
  -- which the write had ended.
  abbrev pub IsWritten : Cell RandomSecret W → Cell RandomSecret W → Type 0
  IsWritten c c' =
      (c₁ : Cell RandomSecret W) × (generate_new_password b e v c ≡ (ok tt, c₁))
      × IsGenerated b e v c c₁
      × (at c'.world (get_path c₁.object)
          ≡ some (stored (get_path c₁.object) (get_payload e c₁.object)))
      × (c'.object ≡ record (c₁.object) {
        status = record (c₁.object.status) {
          last_vault_secret_update = some (k.now (create v (random_secrets b e v) c₁).1.world).0;
        };
      })

  abbrev stamp : Action (Cell RandomSecret W) (Unit {0})
  stamp = time_now x k v b e >>= λ now. modify (set_updated x k v b e now)

  create_and_stamp :
      ((q : String) (w : W) → at (k.now w).1 q ≡ at w q)
      → (c c₁ : Cell RandomSecret W) → generate_new_password b e v c ≡ (ok tt, c₁)
      → IsGenerated b e v c c₁
      → ((create v (random_secrets b e v) >> stamp) c₁).0 ≡ ok tt
      → IsWritten c ((create v (random_secrets b e v) >> stamp) c₁).1
  unfolding create get_path get_payload get_v1_payload
  create_and_stamp clock c c₁ made generated h =
      let o = random_secrets b e v in
      let (_, written, _) = bind-ok (create v o) (λ _. stamp) c₁ tt h in
      rw (bind-at (create v o) (λ _. stamp) c₁ tt written) (
        c₁,
        made,
        generated,
        clock (get_path c₁.object) (create v o c₁).1.world
            ∙ write-stores v at stored apart store (get_path c₁.object) (get_payload e c₁.object)
                c₁.world written,
        refl,
      )

  write_new_secret-IsWritten :
      (clock : (q : String) (w : W) → at (k.now w).1 q ≡ at w q) (c : Cell RandomSecret W)
      → (write_new_secret x k v b e c).0 ≡ ok tt
      → IsWritten c (write_new_secret x k v b e c).1
  unfolding write_new_secret
  write_new_secret-IsWritten clock c h =
      let prepare = generate_new_password b e v in
      let rest = λ (u : Unit {0}). create v (random_secrets b e v) >> stamp in
      let (_, made, h1) = bind-ok prepare rest c tt h in
      rw (bind-at prepare rest c tt made) (
        create_and_stamp clock c (prepare c).1 (λ i. (made i, (prepare c).1))
          (generate_new_password-IsGenerated b e v c made) h1)

  manage_reconcile_logic_due :
      (c : Cell RandomSecret W) (last period : ℤ)
      → c.object.status.last_vault_secret_update ≡ some last
      → c.object.spec.refresh_period ≡ some period
      → ltb_ℤ (last +ℤ period) (k.now c.world).0 ≡ true
      → manage_reconcile_logic x k v b e c
        ≡ write_new_secret x k v b e (record c { world = (k.now c.world).1 })
  unfolding manage_reconcile_logic is_taken
  manage_reconcile_logic_due c last period updated refresh due = rw (updated, refresh, due) refl

  -- If the clock does not write to Vault and the refresh period has passed since the last update,
  -- a step that succeeds has generated a new password, the first one drawn for the inline policy,
  -- which obeys it, or, where there is none, the one that Vault answers for the named policy. It
  -- leaves the payload with the password at the object's path, and changes of the object that was
  -- generated only the time of the update, which is the clock's when the write has ended.
  pub manage_reconcile_logic-IsWritten :
      (clock : (q : String) (w : W) → at (k.now w).1 q ≡ at w q) (c : Cell RandomSecret W)
      (last period : ℤ)
      → c.object.status.last_vault_secret_update ≡ some last
      → c.object.spec.refresh_period ≡ some period
      → ltb_ℤ (last +ℤ period) (k.now c.world).0 ≡ true
      → (manage_reconcile_logic x k v b e c).0 ≡ ok tt
      → IsWritten (record c { world = (k.now c.world).1 }) (manage_reconcile_logic x k v b e c).1
  manage_reconcile_logic-IsWritten clock c last period updated refresh due h =
      let run = manage_reconcile_logic_due c last period updated refresh due in
      rw run (
        write_new_secret-IsWritten clock (record c { world = (k.now c.world).1 })
          (ap (λ r. r.0) (sym run) ∙ h))
