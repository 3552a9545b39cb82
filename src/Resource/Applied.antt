-- ===== src/Resource/Applied.antt =====
-- What the resource helpers leave in the API server.
use vault_config_operator.Common.{
  String, ◌≡◌, refl, sym, ◌∙◌, ap, Bool, true, false, Bool-cases, inl, inr, Option, none, some,
  str_eq, if◌then◌else◌,
}
use vault_config_operator.Common.Action.{
  Error, Result, ok, err, panic, fail, try_result, bind_result, of_result,
}
use vault_config_operator.Resource.{
  Resource, Client, is_not_found, owned, desired, apply, create_or_update_resource,
  delete_resource_if_exists, deleted,
}

-- What is relied on of the API server, for the objects of one kind: `held` is what it holds, by
-- namespace and name, `stored` what it makes of an object it is sent (it sets the version itself),
-- and `apart` says of two places that they are different.
pub record IsServer {R W : Type 0} (a : Resource R) (c : Client R W)
    (held : W → String → String → Option R) (stored : R → R)
    (Apart : String × String → String × String → Type 0) : Type 0 where
  pub get_keeps :
      (n m : String) (w : W) (n' m' : String) → held (c.get n m w).1 n' m' ≡ held w n' m'
  pub get_found : (n m : String) (w : W) (o : R) → (c.get n m w).0 ≡ ok o → held w n m ≡ some o
  pub get_missing :
      (n m : String) (w : W) (e : Error)
      → (c.get n m w).0 ≡ err e
      → is_not_found e ≡ true
      → held w n m ≡ none
  pub create_stores :
      (o : R) (w : W)
      → (c.create o w).0 ≡ ok tt
      → held (c.create o w).1 (a.get_namespace o) (a.get_name o) ≡ some (stored o)
  pub update_stores :
      (o : R) (w : W)
      → (c.update o w).0 ≡ ok tt
      → held (c.update o w).1 (a.get_namespace o) (a.get_name o) ≡ some (stored o)
  pub create_keeps :
      (o : R) (w : W) (n m : String)
      → Apart (a.get_namespace o, a.get_name o) (n, m)
      → held (c.create o w).1 n m ≡ held w n m
  pub update_keeps :
      (o : R) (w : W) (n m : String)
      → Apart (a.get_namespace o, a.get_name o) (n, m)
      → held (c.update o w).1 n m ≡ held w n m
  pub delete_removes :
      (o : R) (w : W)
      → (c.delete o w).0 ≡ ok tt
      → held (c.delete o w).1 (a.get_namespace o) (a.get_name o) ≡ none
  pub delete_missing :
      (o : R) (w : W) (e : Error)
      → (c.delete o w).0 ≡ err e
      → is_not_found e ≡ true
      → held (c.delete o w).1 (a.get_namespace o) (a.get_name o) ≡ none
  pub delete_keeps :
      (o : R) (w : W) (n m : String)
      → Apart (a.get_namespace o, a.get_name o) (n, m)
      → held (c.delete o w).1 n m ≡ held w n m
  pub version_name : (s : String) (o : R) → a.get_name (a.set_resource_version s o) ≡ a.get_name o
  pub version_namespace :
      (s : String) (o : R) → a.get_namespace (a.set_resource_version s o) ≡ a.get_namespace o
  pub version_stored : (s : String) (o : R) → stored (a.set_resource_version s o) ≡ stored o

not_found :
    (r : Result (Unit {0})) (e : Error) (b : Bool)
    → is_not_found e ≡ b
    → r ≡ (if b then ok tt else err e)
    → r ≡ ok tt
    → is_not_found e ≡ true
not_found r e true p q h = p
not_found r e false p q h = cc

module _ {R W : Type 0} (a : Resource R) (c : Client R W) (held : W → String → String → Option R)
    (stored : R → R) (Apart : String × String → String × String → Type 0)
    (server : IsServer a c held stored Apart) where
  -- The server holds `o` at its place, and elsewhere what it held before.
  abbrev pub Holds : R → Option R → W → W → Type 0
  Holds o what w w' =
      (held w' (a.get_namespace o) (a.get_name o) ≡ what)
      × ((n m : String) → Apart (a.get_namespace o, a.get_name o) (n, m) → held w' n m ≡ held w n m)

  missing-Holds :
      (o : R) (e : Error) (w0 w : W)
      → ((n m : String) → held w n m ≡ held w0 n m)
      → (b : Bool) → ((if b then c.create o else fail e) w).0 ≡ ok tt
      → Holds o (some (stored o)) w0 ((if b then c.create o else fail e) w).1
  missing-Holds o e w0 w same true h =
      (server.create_stores o w h, λ n m away. server.create_keeps o w n m away ∙ same n m)
  missing-Holds o e w0 w same false h = cc

  apply-Holds :
      (o : R) (r : Result R) (w0 w : W)
      → ((n m : String) → held w n m ≡ held w0 n m)
      → (apply a c o r w).0 ≡ ok tt
      → Holds o (some (stored o)) w0 (apply a c o r w).1
  apply-Holds o (ok o2) w0 w same h =
      let o' = a.set_resource_version (a.get_resource_version o2) o in
      let name = server.version_name (a.get_resource_version o2) o in
      let namespace = server.version_namespace (a.get_resource_version o2) o in
      (
        ap (λ n. held (c.update o' w).1 n (a.get_name o)) (sym namespace)
            ∙ ap (λ n. held (c.update o' w).1 (a.get_namespace o') n) (sym name)
            ∙ server.update_stores o' w h
            ∙ ap some (server.version_stored (a.get_resource_version o2) o),
        λ n m away. server.update_keeps o' w n m (rw (name, namespace) away) ∙ same n m,
      )
  apply-Holds o (err e) w0 w same h = missing-Holds o e w0 w same (is_not_found e) h
  apply-Holds o panic w0 w same h = cc

  found-Holds :
      (o : R) (r : Result R) (w0 w : W)
      → ((n m : String) → held w n m ≡ held w0 n m)
      → (bind_result (apply a c o) (try_result r) w).0 ≡ ok tt
      → Holds o (some (stored o)) w0 (bind_result (apply a c o) (try_result r) w).1
  found-Holds o (ok o2) w0 w same h = apply-Holds o (ok o2) w0 w same h
  found-Holds o (err e) w0 w same h = apply-Holds o (err e) w0 w same h
  found-Holds o panic w0 w same h = cc

  -- What `create_or_update_resource` sends is what the server then holds at the place of what it
  -- sends, and no other place has changed.
  pub create_or_update_resource-Holds :
      (owner : Option (R → R)) (namespace : String) (obj : R) (w : W)
      → (create_or_update_resource a c owner namespace obj w).0 ≡ ok tt
      → Holds
          (desired a c owner namespace obj)
          (some (stored (desired a c owner namespace obj)))
          w
          (create_or_update_resource a c owner namespace obj w).1
  unfolding create_or_update_resource
  create_or_update_resource-Holds owner namespace obj w h =
      let o = desired a c owner namespace obj in
      let found = c.get (a.get_namespace o) (a.get_name o) w in
      found-Holds o found.0 w found.1 (server.get_keeps (a.get_namespace o) (a.get_name o) w) h

  removed-Holds :
      (o : R) (w0 w : W) (r : Result (Unit {0}))
      → (r ≡ ok tt → Holds o none w0 w)
      → ((e : Error) → r ≡ err e → is_not_found e ≡ true → Holds o none w0 w)
      → (bind_result (λ answer. of_result (deleted answer)) (try_result r) w).0 ≡ ok tt
      → Holds o none w0 (bind_result (λ answer. of_result (deleted answer)) (try_result r) w).1
  removed-Holds o w0 w (ok _) done gone h = done refl
  removed-Holds o w0 w (err e) done gone h =
      gone e refl (not_found (deleted (err e)) e (is_not_found e) refl refl h)
  removed-Holds o w0 w panic done gone h = cc

  -- A deletion without an error leaves nothing at the resource's place, whether or not something
  -- was there, and no other place has changed.
  pub delete_resource_if_exists-Holds :
      (obj : R) (w : W)
      → (delete_resource_if_exists a c obj w).0 ≡ ok tt
      → Holds obj none w (delete_resource_if_exists a c obj w).1
  unfolding delete_resource_if_exists
  delete_resource_if_exists-Holds obj w h =
      removed-Holds obj w (c.delete obj w).1 (c.delete obj w).0
        (λ e. (server.delete_removes obj w e, server.delete_keeps obj w))
        (λ e p q. (server.delete_missing obj w e p q, server.delete_keeps obj w)) h

-- What is relied on of the metadata of a resource: the namespace that was set is there, and neither
-- it nor the owner changes the name; `view` is what one sees of a resource beside the namespace and
-- the version, such as its owner references and its data, and what the server keeps.
pub record IsMetadata {R V : Type 0} (a : Resource R) (view : R → V) (stored : R → R)
    (owner : Option (R → R)) : Type 0 where
  pub namespace_set : (n : String) (o : R) → a.get_namespace (a.set_namespace n o) ≡ n
  pub name_set : (n : String) (o : R) → a.get_name (a.set_namespace n o) ≡ a.get_name o
  pub view_set : (n : String) (o : R) → view (a.set_namespace n o) ≡ view o
  pub view_stored : (o : R) → view (stored o) ≡ view o
  pub owner_name : (f : R → R) (o : R) → owner ≡ some f → a.get_name (f o) ≡ a.get_name o
  pub owner_namespace :
      (f : R → R) (o : R) → owner ≡ some f → a.get_namespace (f o) ≡ a.get_namespace o

module _ {R V W : Type 0} (a : Resource R) (c : Client R W) (held : W → String → String → Option R)
    (stored : R → R) (Apart : String × String → String × String → Type 0)
    (server : IsServer a c held stored Apart) (view : R → V) where
  -- The namespace that is asked for, or the resource's own where that is empty.
  abbrev pub namespace_of : String → R → String
  namespace_of namespace obj = if str_eq namespace "" then a.get_namespace obj else namespace

  -- What one is to see of the resource: what the owner, if one is given, makes of it.
  abbrev pub view_of : Option (R → R) → R → V
  view_of none obj = view obj
  view_of (some set_controller_reference) obj = view (set_controller_reference obj)

  -- The server holds a resource at the place that is asked for, which looks as it is to look, and
  -- elsewhere what it held before.
  abbrev pub IsApplied : Option (R → R) → String → R → W → W → Type 0
  IsApplied owner namespace obj w w' =
      ((o : R) × (held w' (namespace_of namespace obj) (a.get_name obj) ≡ some o)
        × (view o ≡ view_of owner obj))
      × ((n m : String)
          → Apart (namespace_of namespace obj, a.get_name obj) (n, m)
          → held w' n m ≡ held w n m)

  owned_lem :
      (owner : Option (R → R)) (obj : R)
      → IsMetadata a view stored owner
      → (a.get_name (owned a c owner obj) ≡ a.get_name obj)
        × (a.get_namespace (owned a c owner obj) ≡ a.get_namespace obj)
        × (view (owned a c owner obj) ≡ view_of owner obj)
  owned_lem none obj meta = (refl, refl, refl)
  owned_lem (some f) obj meta = (meta.owner_name f obj refl, meta.owner_namespace f obj refl, refl)

  desired_lem :
      (owner : Option (R → R)) (namespace : String) (obj : R)
      → IsMetadata a view stored owner
      → (a.get_name (desired a c owner namespace obj) ≡ a.get_name obj)
        × (a.get_namespace (desired a c owner namespace obj) ≡ namespace_of namespace obj)
        × (view (desired a c owner namespace obj) ≡ view_of owner obj)
  desired_lem owner namespace obj meta =
      let (name, own_namespace, seen) = owned_lem owner obj meta in
      let o = owned a c owner obj in
      elim (Bool-cases (str_eq namespace "")) [
        | inl unasked ↦ rw unasked (name, own_namespace, seen)
        | inr asked ↦ rw asked (
          meta.name_set namespace o ∙ name,
          meta.namespace_set namespace o,
          meta.view_set namespace o ∙ seen,
        )
      ]

  -- A resource that is applied without an error is then at the place that is asked for, under its
  -- name, in the given namespace or its own where none is given; it looks as the owner makes it look,
  -- if there is one, in all that neither the namespace nor the server changes; and no other place
  -- has changed.
  pub create_or_update_resource-IsApplied :
      (owner : Option (R → R)) (namespace : String) (obj : R) (w : W)
      → IsMetadata a view stored owner
      → (create_or_update_resource a c owner namespace obj w).0 ≡ ok tt
      → IsApplied owner namespace obj w (create_or_update_resource a c owner namespace obj w).1
  create_or_update_resource-IsApplied owner namespace obj w meta h =
      let o = desired a c owner namespace obj in
      let (name, there, seen) = desired_lem owner namespace obj meta in
      let (holds, others) =
        create_or_update_resource-Holds a c held stored Apart server owner namespace obj w h in
      let w' = (create_or_update_resource a c owner namespace obj w).1 in
      (
        (
          stored o,
          ap (λ n. held w' n (a.get_name obj)) (sym there)
              ∙ ap (λ n. held w' (a.get_namespace o) n) (sym name)
              ∙ holds,
          meta.view_stored o ∙ seen,
        ),
        λ n m away. others n m (rw (name, there) away),
      )
