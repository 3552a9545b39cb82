-- ===== src/Watch/Roles.antt =====
-- The roles that are reconciled for a namespace are those that are bound to it.
use mathlib.Core.List.{Memᴰ}
use mathlib.Core.List.Memᴰ
use mathlib.Core.Option.{some-injective}
use vault_config_operator.Common.{
  String, ◌≡◌, refl, sym, ap, ◌∙◌, ◌≢◌, ◌↔◌, ◌⊎◌, inl, inr, subst, Bool, true, false, List, [], ◌∷◌,
  Option, none, some, map,
}
use vault_config_operator.Common.Action.{of_result, Result, ok, err, panic}
use vault_config_operator.Common.Bind.{ok-inj, bind-at, bind-ok}
use vault_config_operator.Endpoint.{Cell, in_world}
use vault_config_operator.Kinds.KubernetesAuthEngineRole.{KubernetesAuthEngineRole}
use vault_config_operator.Kinds.Namespaces.{
  Namespace, Selectors, find_selected_namespace_names, or_no_namespace, bind_to,
  prepare_internal_values,
}
use vault_config_operator.Watch.KubernetesAuth.{Role, keep_if, step, visit, find_applicable_roles}

-- What is relied on of a listing by a selector: it has the namespaces of the cluster that match.
pub record IsSelecting {S W : Type 0} (n : Selectors S W) (cluster : W → List Namespace)
    : Type 0 where
  pub listed_iff :
      (s : S) (w : W) (items : List Namespace) (x : Namespace)
      → (n.list_namespaces s w).0 ≡ ok items
      → Memᴰ x items ↔ (Memᴰ x (cluster w) × (n.is_match s x.labels ≡ true))

module _ {S W : Type 0} (n : Selectors S W) (ns : Namespace) where
  -- A selector that is given, and matches the namespace.
  abbrev pub Selects : Option String → Type 0
  Selects o =
      (text : String) × (s : S) × (o ≡ some text)
      × (n.label_selector_as_selector text ≡ ok s)
      × (n.is_match s ns.labels ≡ true)

  abbrev selector_of : Role → Option String
  selector_of vr = vr.object.spec.target_namespaces.target_namespace_selector

  -- The two ways in which the loop takes a role.
  abbrev Taken : Role → Option String → List Role → List Role → Type 0
  Taken vr o rest found = ((found ≡ rest) × (Selects o → ⊥)) ⊎ ((found ≡ vr ∷ rest) × Selects o)

  keep-Taken :
      (vr : Role) (text : String) (s : S) (rest found : List Role) (b : Bool)
      → n.label_selector_as_selector text ≡ ok s
      → n.is_match s ns.labels ≡ b
      → keep_if b vr (ok rest) ≡ ok found
      → Taken vr (some text) rest found
  keep-Taken vr text s rest found true q e h = inr (sym (ok-inj h), (text, s, refl, q, e))
  keep-Taken vr text s rest found false q e h = inl (sym (ok-inj h), λ (text', s', p, q', e'). cc)

  step-Taken :
      (vr : Role) (text : String) (res : Result S) (rest : Result (List Role)) (found : List Role)
      → n.label_selector_as_selector text ≡ res
      → step n ns vr res rest ≡ ok found
      → (rest' : List Role) × (rest ≡ ok rest') × Taken vr (some text) rest' found
  step-Taken vr text (ok s) (ok rest) found q h =
      (rest, refl, keep-Taken vr text s rest found (n.is_match s ns.labels) q refl h)
  step-Taken vr text (ok s) (err issue) found q h = cc
  step-Taken vr text (ok s) panic found q h = cc
  step-Taken vr text (err issue) rest found q h = cc
  step-Taken vr text panic rest found q h = cc

  visit-Taken :
      (vr : Role) (o : Option String) (rest : Result (List Role)) (found : List Role)
      → visit n ns vr o rest ≡ ok found
      → (rest' : List Role) × (rest ≡ ok rest') × Taken vr o rest' found
  visit-Taken vr none rest found h = (found, h, inl (refl, λ (text, s, p, q, e). cc))
  visit-Taken vr (some text) rest found h =
      step-Taken vr text (n.label_selector_as_selector text) rest found refl h

  -- A role is found if it is there and its selector matches.
  pub find_applicable_roles-Selects :
      (vr : Role) (roles found : List Role)
      → find_applicable_roles n ns roles ≡ ok found
      → Memᴰ vr found ↔ (Memᴰ vr roles × Selects (selector_of vr))
  unfolding find_applicable_roles
  find_applicable_roles-Selects vr [] found h =
      let none_left = ok-inj h in
      ((λ m. elim (subst (λ l. Memᴰ vr l) (sym none_left) m) [ ]), λ (m, t). elim m [ ])
  find_applicable_roles-Selects vr (r ∷ roles) found h =
      let (rest, e, taken) =
        visit-Taken r (selector_of r) (find_applicable_roles n ns roles) found h in
      let ih = find_applicable_roles-Selects vr roles rest e in
      elim taken [
        | inl (same, out) ↦ (
          (λ m. let (k, t) = ih.0 (subst (λ l. Memᴰ vr l) same m) in (Memᴰ.tail k, t)),
          λ (m, t). elim (Memᴰ.cases_cons m) [
            | inl p ↦ absurd (out (subst (λ z. Selects (selector_of z)) p t))
            | inr k ↦ subst (λ l. Memᴰ vr l) (sym same) (ih.1 (k, t))
          ],
        )
        | inr (same, t) ↦ (
          (λ m. elim (Memᴰ.cases_cons (subst (λ l. Memᴰ vr l) same m)) [
            | inl p ↦ (Memᴰ.head p, subst (λ z. Selects (selector_of z)) (sym p) t)
            | inr k ↦ let (k', u) = ih.0 k in (Memᴰ.tail k', u)
          ]),
          λ (m, u).
              subst (λ l. Memᴰ vr l) (sym same)
                (elim (Memᴰ.cases_cons m) [
                  | inl p ↦ Memᴰ.head p
                  | inr k ↦ Memᴰ.tail (ih.1 (k, u))
                ]),
        )
      ]

module _ {S W : Type 0} (n : Selectors S W) (cluster : W → List Namespace)
    (law : IsSelecting n cluster) where
  selected :
      (text : String) (names : List String) (w : W)
      → (find_selected_namespace_names n text w).0 ≡ ok names
      → (s : S) × (items : List Namespace) × (n.label_selector_as_selector text ≡ ok s)
        × ((n.list_namespaces s w).0 ≡ ok items)
        × (names ≡ map (λ namespace. namespace.name) items)
  unfolding find_selected_namespace_names
  selected text names w h =
      let (s, p, h') = bind-ok (of_result (n.label_selector_as_selector text)) _ w names h in
      let (items, q, h'') = bind-ok (n.list_namespaces s) _ w names h' in
      (s, items, p, q, sym (ok-inj h''))

  bound :
      (text : String) (t : Option (List String)) (c : Cell KubernetesAuthEngineRole W)
      → (bind_to n (some text) t c).0 ≡ ok tt
      → (s : S) × (items : List Namespace) × (n.label_selector_as_selector text ≡ ok s)
        × ((n.list_namespaces s c.world).0 ≡ ok items)
        × ((bind_to n (some text) t c).1.object.spec.v_role.namespaces
            ≡ some (or_no_namespace (map (λ namespace. namespace.name) items)))
  bound text t c h =
      let (names, p, _) = bind-ok (in_world (find_selected_namespace_names n text)) _ c tt h in
      let (s, items, q, r, same) = selected text names c.world p in
      (
        s,
        items,
        q,
        r,
        ap (λ r. r.1.object.spec.v_role.namespaces)
              (bind-at (in_world (find_selected_namespace_names n text)) _ c names p)
            ∙ ap (λ names. some (or_no_namespace names)) same,
      )

  or_no_namespace-Memᴰ :
      (x : String) (l : List String)
      → x ≢ "__no_namespace__"
      → Memᴰ x (or_no_namespace l) ↔ Memᴰ x l
  or_no_namespace-Memᴰ x [] named = (λ m. absurd (named (Memᴰ.eq_of_singleton m)), λ m. elim m [ ])
  or_no_namespace-Memᴰ x (y ∷ l) named = ((λ m. m), λ m. m)

  listed_name :
      (ns : Namespace) (w : W) (s : S) (items : List Namespace)
      → (n.list_namespaces s w).0 ≡ ok items
      → Memᴰ ns (cluster w)
      → ((other : Namespace) → Memᴰ other (cluster w) → other.name ≡ ns.name → other ≡ ns)
      → ns.name ≢ "__no_namespace__"
      → Memᴰ ns.name (or_no_namespace (map (λ namespace. namespace.name) items))
        ↔ (n.is_match s ns.labels ≡ true)
  listed_name ns w s items h there unique named =
      let names = map (λ (x : Namespace). x.name) items in
      let bound_iff = or_no_namespace-Memᴰ ns.name names named in
      (
        (λ m.
            let (other, k, p) = Memᴰ.of_map (λ (x : Namespace). x.name) items (bound_iff.0 m) in
            let (here, e) = (law.listed_iff s w items other h).0 k in
            subst (λ (x : Namespace). n.is_match s x.labels ≡ true) (unique other here p) e),
        λ e.
            bound_iff.1
              (Memᴰ.map (λ (x : Namespace). x.name) ((law.listed_iff s w items ns h).1 (there, e))),
      )

  -- A role with a selector is reconciled for a namespace of the cluster just if preparing the role
  -- binds it to the namespace, where no other namespace has the name.
  pub find_applicable_roles-IsBound :
      (ns : Namespace) (roles found : List Role) (vr : Role) (w : W) (text : String)
      → find_applicable_roles n ns roles ≡ ok found
      → Memᴰ vr roles
      → Memᴰ ns (cluster w)
      → ((other : Namespace) → Memᴰ other (cluster w) → other.name ≡ ns.name → other ≡ ns)
      → ns.name ≢ "__no_namespace__"
      → vr.object.spec.target_namespaces.target_namespace_selector ≡ some text
      → (prepare_internal_values n (record { object = vr.object; world = w })).0 ≡ ok tt
      → Memᴰ vr found ↔ (
          (names : List String) × ((prepare_internal_values n
              (record { object = vr.object; world = w })).1.object.spec.v_role.namespaces
            ≡ some names)
          × Memᴰ ns.name names)
  unfolding prepare_internal_values
  find_applicable_roles-IsBound ns roles found vr w text h m there unique named given done =
      let c : Cell KubernetesAuthEngineRole W = record { object = vr.object; world = w } in
      let t = vr.object.spec.target_namespaces.target_namespaces in
      let (s, items, q, r, kept) =
        bound text t c (subst (λ o. (bind_to n o t c).0 ≡ ok tt) given done) in
      let names = or_no_namespace (map (λ (x : Namespace). x.name) items) in
      let kept' = ap (λ o. (bind_to n o t c).1.object.spec.v_role.namespaces) given ∙ kept in
      let name_iff = listed_name ns w s items r there unique named in
      let role_iff = find_applicable_roles-Selects n ns vr roles found h in
      (
        (λ k.
            let (m', (text', s', p, q', e)) = role_iff.0 k in
            (names, kept', name_iff.1 (let match : n.is_match s ns.labels ≡ true = cc in match))),
        λ (names', same, k). role_iff.1 (
          m,
          (
            text,
            s,
            given,
            q,
            name_iff.0
                (subst (λ l. Memᴰ ns.name l) (some-injective names' names (sym same ∙ kept')) k),
          ),
        ),
      )
