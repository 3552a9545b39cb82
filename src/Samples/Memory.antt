-- ===== src/Samples/Memory.antt =====
-- A Vault server that stores what is written, path by path, and answers 404 to what it lacks.
use vault_config_operator.Common.{
  String, ◌≡◌, refl, ◌≢◌, false, Option, none, some, List, [], ◌∷◌, arith, if◌then◌else◌, str_eq,
  eq_iff,
}
use vault_config_operator.Common.Action.{Error, response, Result, ok, err}
use vault_config_operator.Payload.{Payload, end}
use vault_config_operator.Vault.{Vault, Secret}
use vault_config_operator.Vault.Store.{IsStore}

abbrev pub Store : Type 0
Store = List (String × Payload)

abbrev pub find_at : String → Store → Option Payload
find_at p [] = none
find_at p ((q, d) ∷ w) = if str_eq q p then some d else find_at p w

abbrev pub put_at : String → Payload → Store → Store
put_at p d w = (p, d) ∷ w

abbrev pub remove_at : String → Store → Store
remove_at p [] = []
remove_at p ((q, d) ∷ w) = if str_eq q p then remove_at p w else (q, d) ∷ remove_at p w

abbrev pub secret_of : Payload → Secret
secret_of d = record {
  contents = some d;
  lease_id = "";
  lease_duration = 0;
  renewable = false;
  client_token = "";
}

abbrev pub missing : Error
missing = response 404 "not found"

abbrev pub answer_of : Option Payload → Result (Option Secret)
answer_of none = err missing
answer_of (some d) = ok (some (secret_of d))

-- A write of nil stores the empty map.
abbrev pub payload_of : Option Payload → Payload
payload_of none = end
payload_of (some d) = d

abbrev pub memory : Vault Store
memory = record {
  logical_read = λ p w. (answer_of (find_at p w), w);
  logical_write = λ p d w. (ok none, put_at p (payload_of d) w);
  logical_delete = λ p w. (ok none, remove_at p w);
}

abbrev pub stored_at : Store → String → Option Payload
stored_at w p = find_at p w

abbrev pub as_is : String → Payload → Payload
as_is p d = d

-- Two places of this server show the same only if they are one.
abbrev pub Differ : String → String → Type 0
Differ p q = p ≢ q

find_at-remove :
    (p q : String) (w : Store)
    → find_at q (remove_at p w) ≡ (if str_eq p q then none else find_at q w)
find_at-remove p q [] = ground arith
find_at-remove p q ((i, d) ∷ w) =
    ground (arith, eq_iff p q, eq_iff i p, eq_iff i q, find_at-remove p q w)

found-secret : (o : Option Payload) (s : Secret) → answer_of o ≡ ok (some s) → o ≡ s.contents
found-secret none s h = cc
found-secret (some d) s h = ground arith

never-nil : (o : Option Payload) → answer_of o ≡ ok none → o ≡ none
never-nil none h = refl
never-nil (some d) h = ground arith

missing-nothing : (o : Option Payload) (e : Error) → answer_of o ≡ err e → o ≡ none
missing-nothing none e h = refl
missing-nothing (some d) e h = cc

find_at-put_self : (p : String) (d : Payload) (w : Store) → find_at p (put_at p d w) ≡ some d
find_at-put_self p d w = ground (arith, eq_iff p p)

find_at-put_ne :
    (p q : String) (d : Payload) (w : Store) → p ≢ q → find_at q (put_at p d w) ≡ find_at q w
find_at-put_ne p q d w h = ground (arith, eq_iff p q)

find_at-remove_self : (p : String) (w : Store) → find_at p (remove_at p w) ≡ none
find_at-remove_self p w = ground (arith, eq_iff p p, find_at-remove p p w)

find_at-remove_ne : (p q : String) (w : Store) → p ≢ q → find_at q (remove_at p w) ≡ find_at q w
find_at-remove_ne p q w h = ground (arith, eq_iff p q, find_at-remove p q w)

pub memory-IsStore : IsStore memory stored_at as_is Differ
memory-IsStore = record {
  read_keeps = λ p q w. refl;
  read_found = λ p w s h. found-secret (find_at p w) s h;
  read_nothing = λ p w h. never-nil (find_at p w) h;
  read_missing = λ p w e h _. missing-nothing (find_at p w) e h;
  write_stores = λ p d w s h. find_at-put_self p d w;
  write_keeps = λ p q d w h. find_at-put_ne p q d w h;
  delete_removes = λ p w s h. find_at-remove_self p w;
  delete_missing = λ p w e h _. find_at-remove_self p w;
  delete_keeps = λ p q w h. find_at-remove_ne p q w h;
}
