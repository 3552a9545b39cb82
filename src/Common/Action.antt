-- ===== src/Common/Action.antt =====
-- Go functions that return `(A, error)` and change a state: a state monad in which the state that
-- was reached is kept on an error and on a panic too. `Error` stands for Go's `error` values.
use vault_config_operator.Common.{ℕ, String, Bool}

-- `response` is `*vault.ResponseError` with its status code, `api` an error of the Kubernetes
-- API with whether it is a not-found error, `plain` any other error, with its message.
pub data Error : Type 0 where
  response : ℕ → String → Error
  api : Bool → String → Error
  plain : String → Error

-- `panic` is a run-time panic: a failed type assertion, a nil pointer, an index out of range. No
-- function of the program recovers from one.
pub data Result {ℓ} (A : Type ℓ) : Type ℓ where
  ok : A → Result A
  err : Error → Result A
  panic : Result A

abbrev pub Action {ℓ} : Type 0 → Type ℓ → Type ℓ
Action S A = S → Result A × S

module _ {ℓ} {S : Type 0} {A : Type ℓ} where
  abbrev pub pure : A → Action S A
  pure a s = (ok a, s)

  abbrev pub fail : Error → Action S A
  fail e s = (err e, s)

  abbrev pub of_result : Result A → Action S A
  of_result r s = (r, s)

module _ {S : Type 0} where
  abbrev pub get : Action S S
  get s = (ok s, s)

  abbrev pub modify : (S → S) → Action S (Unit {0})
  modify f s = (ok tt, f s)

abbrev pub bind_result {ℓ κ} :
    {S : Type 0} {A : Type ℓ} {B : Type κ} → (A → Action S B) → Result A → Action S B
bind_result f (ok a) s = f a s
bind_result f (err e) s = (err e, s)
bind_result f panic s = (panic, s)

infixl 5 ◌>>=◌ ◌>>◌
abbrev pub ◌>>=◌ {ℓ κ} :
    {S : Type 0} {A : Type ℓ} {B : Type κ} → Action S A → (A → Action S B) → Action S B
◌>>=◌ m f s = let (r, s') = m s in bind_result f r s'

abbrev pub ◌>>◌ {ℓ κ} :
    {S : Type 0} {A : Type ℓ} {B : Type κ} → Action S A → Action S B → Action S B
m >> k = m >>= λ _. k

abbrev pub try_result {ℓ} : {A : Type ℓ} → Result A → Result (Result A)
try_result (ok a) = ok (ok a)
try_result (err e) = ok (err e)
try_result panic = panic

-- A call whose error the caller inspects itself, as in `x, err := f()`.
abbrev pub try {ℓ} : {S : Type 0} {A : Type ℓ} → Action S A → Action S (Result A)
try m s = let (r, s') = m s in (try_result r, s')
