-- ===== src/Watch/Requests.antt =====
-- Which objects a watch comes back to.
use mathlib.Core.List.{Memᴰ}
use mathlib.Core.List.Memᴰ
use mathlib.Core.Option.{some-injective}
use vault_config_operator.Common.{
  String, ◌≡◌, ap, ◌∙◌, sym, ◌↔◌, true, false, Bool-cases, inl, inr, eq_iff, List, [], ◌∷◌, Option,
  none, some, map, subst,
}
use vault_config_operator.Common.Action.{ok, Action, try, try_result}
use vault_config_operator.Common.Bind.{bind-at, ok-inj}
use vault_config_operator.Watch.{Listed, Request, names_it, request_of, find_applicable, enqueue}

-- What is relied on of the listing of a namespace: it has the objects of the namespace, of those
-- that there are in the cluster.
pub record IsListing {O W : Type 0} (list : String → Action W (List (Listed O)))
    (cluster : W → List (Listed O)) : Type 0 where
  pub is_there :
      (ns : String) (w : W) (items : List (Listed O)) (x : Listed O)
      → (list ns w).0 ≡ ok items
      → Memᴰ x items
      → Memᴰ x (cluster w) × (x.namespace ≡ ns)
  pub is_listed :
      (ns : String) (w : W) (items : List (Listed O)) (x : Listed O)
      → (list ns w).0 ≡ ok items
      → Memᴰ x (cluster w)
      → x.namespace ≡ ns
      → Memᴰ x items

names_it_iff : (name : String) (o : Option String) → (names_it name o ≡ true) ↔ (o ≡ some name)
names_it_iff name none = (λ h. cc, λ h. cc)
names_it_iff name (some other) = (
  λ h. ap (λ s. some s) ((eq_iff other name).0 h),
  λ h. (eq_iff other name).1 (some-injective other name h),
)

module _ {O : Type 0} (reference : O → Option String) (name : String) where
  abbrev Refers : Listed O → Type 0
  Refers x = reference x.object ≡ some name

  Refers-iff : (x : Listed O) → (names_it name (reference x.object) ≡ true) ↔ Refers x
  Refers-iff x = names_it_iff name (reference x.object)

  not-Refers : (x y : Listed O) → names_it name (reference y.object) ≡ false → x ≡ y → Refers x → ⊥
  not-Refers x y e p r =
      let found = (Refers-iff x).1 r in
      let same = ap (λ (z : Listed O). names_it name (reference z.object)) p in cc

  -- The objects that are found are those that refer to the name.
  pub find_applicable-Memᴰ :
      (x : Listed O) (items : List (Listed O))
      → Memᴰ x (find_applicable reference name items) ↔ (Memᴰ x items × Refers x)
  unfolding find_applicable
  find_applicable-Memᴰ x [] = (λ m. elim m [ ], λ (m, r). elim m [ ])
  find_applicable-Memᴰ x (y ∷ items) =
      let ih = find_applicable-Memᴰ x items in
      elim (Bool-cases (names_it name (reference y.object))) [
        | inl e ↦ rw e (
          (λ m. elim (Memᴰ.cases_cons m) [
            | inl p ↦ (Memᴰ.head p, subst (λ z. Refers z) (sym p) ((Refers-iff y).0 e))
            | inr n ↦ let (n', r) = ih.0 n in (Memᴰ.tail n', r)
          ]),
          λ (m, r). elim (Memᴰ.cases_cons m) [
            | inl p ↦ Memᴰ.head p
            | inr n ↦ Memᴰ.tail (ih.1 (n, r))
          ],
        )
        | inr e ↦ rw e (
          (λ m. let (n, r) = ih.0 m in (Memᴰ.tail n, r)),
          λ (m, r). elim (Memᴰ.cases_cons m) [
            | inl p ↦ absurd (not-Refers x y e p r)
            | inr n ↦ ih.1 (n, r)
          ],
        )
      ]

module _ {O W : Type 0} (list : String → Action W (List (Listed O))) (cluster : W → List (Listed O))
    (law : IsListing list cluster) (reference : O → Option String) where
  enqueued :
      (ns name : String) (w : W) (items : List (Listed O)) (requests : List Request)
      → (list ns w).0 ≡ ok items
      → (enqueue list reference ns name w).0 ≡ ok requests
      → map request_of (find_applicable reference name items) ≡ requests
  unfolding enqueue
  enqueued ns name w items requests h e =
      ok-inj (sym (ap (λ r. r.0) (bind-at (try (list ns)) _ w (ok items) (ap try_result h))) ∙ e)

  -- An object of the namespace that refers to the name, for which the request is.
  abbrev pub IsWanted : String → String → W → Request → Type 0
  IsWanted ns name w q =
      (x : Listed O) × Memᴰ x (cluster w)
      × (x.namespace ≡ ns)
      × (reference x.object ≡ some name)
      × (request_of x ≡ q)

  -- If a namespace is listed, a watch makes a request just for the objects of the cluster that are
  -- in the namespace and refer to the Secret.
  pub enqueue-IsWanted :
      (ns name : String) (w : W) (items : List (Listed O)) (requests : List Request) (q : Request)
      → (list ns w).0 ≡ ok items
      → (enqueue list reference ns name w).0 ≡ ok requests
      → Memᴰ q requests ↔ IsWanted ns name w q
  enqueue-IsWanted ns name w items requests q h e =
      let same = enqueued ns name w items requests h e in
      (
        (λ m.
            let (x, n, p) =
              Memᴰ.of_map request_of (find_applicable reference name items)
                (subst (λ qs. Memᴰ q qs) (sym same) m) in
            let (n', r) = (find_applicable-Memᴰ reference name x items).0 n in
            let (there, here) = law.is_there ns w items x h n' in (x, there, here, r, p)),
        λ (x, there, here, r, p). Memᴰ.cast (sym p) (
            subst (λ qs. Memᴰ (request_of x) qs) same
              (Memᴰ.map request_of (
                (find_applicable-Memᴰ reference name x items).1
                  (law.is_listed ns w items x h there here, r)))),
      )
