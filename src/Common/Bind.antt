-- ===== src/Common/Bind.antt =====
-- Sequences of calls, by the results of their parts.
use vault_config_operator.Common.{◌≡◌, refl, ap}
use vault_config_operator.Common.Action.{Result, ok, err, panic, Action, bind_result, ◌>>=◌}

bind-ok_result {ℓ κ} :
    {S : Type 0} {A : Type ℓ} {B : Type κ} (f : A → Action S B) (s : S) (b : B) (r r' : Result A)
    → r ≡ r'
    → (bind_result f r' s).0 ≡ ok b
    → (a : A) × (r ≡ ok a) × ((f a s).0 ≡ ok b)
bind-ok_result f s b r (ok a) q h = (a, q, h)
bind-ok_result f s b r (err e) q h = cc
bind-ok_result f s b r panic q h = cc

-- A call whose continuation succeeded succeeded itself.
pub bind-ok {ℓ κ} :
    {S : Type 0} {A : Type ℓ} {B : Type κ} (m : Action S A) (f : A → Action S B) (s : S) (b : B)
    → ((m >>= f) s).0 ≡ ok b
    → (a : A) × ((m s).0 ≡ ok a) × ((f a (m s).1).0 ≡ ok b)
bind-ok m f s b h = bind-ok_result f (m s).1 b (m s).0 (m s).0 refl h

pub bind-at {ℓ κ} :
    {S : Type 0} {A : Type ℓ} {B : Type κ} (m : Action S A) (f : A → Action S B) (s : S) (a : A)
    → (m s).0 ≡ ok a
    → (m >>= f) s ≡ f a (m s).1
bind-at m f s a h = ap (λ r. bind_result f r (m s).1) h

unfoldable from_ok {ℓ} : {A : Type ℓ} → A → Result A → A
from_ok d (ok a) = a
from_ok d _ = d

pub ok-inj {ℓ} : {A : Type ℓ} {a b : A} → ok a ≡ ok b → a ≡ b
unfolding from_ok
ok-inj {a} h = ap (from_ok a) h
