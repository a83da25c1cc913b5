-- ===== src/Prelude/Results.antt =====
-- What a fallible call gives: a value, an I/O error, or a panic of the thread.
use Prim.Native.Nat.{ℕ}
use mathlib.Core.Path.{◌≡◌, refl}
use mathlib.Core.Option.{Option, none, some}

-- The errors that the sessions build or pass on. `transport` is an error of the stream itself and
-- `writing` one that a writer wraps in its own message.
pub data IoError : Type 0 where
  connection_closed : IoError
  chunk_over_limit : IoError
  invalid_chunk : IoError
  premature_body : IoError
  write_zero : IoError
  head_too_large : IoError
  invalid_head : IoError
  connect_error : IoError
  transport : ℕ → IoError
  writing : IoError → IoError

pub data Outcome {ℓ} (A : Type ℓ) : Type ℓ where
  ok : A → Outcome A
  err : IoError → Outcome A
  panic : Outcome A

-- `Option::unwrap`.
abbrev pub unwrap {ℓ} : {A : Type ℓ} → Option A → Outcome A
unwrap (some v) = ok v
unwrap none = panic

-- The operator `?`.
infixl 5 ◌>>=◌
abbrev pub ◌>>=◌ {ℓ κ} : {V : Type ℓ} {W : Type κ} → Outcome V → (V → Outcome W) → Outcome W
panic >>= k = panic
err e >>= k = err e
ok v >>= k = k v

-- A chain that gives a value, by its first part.
pub >>=_inv {ℓ κ} :
    {V : Type ℓ} {W : Type κ} (o : Outcome V) (k : V → Outcome W) (w : W)
    → (o >>= k) ≡ ok w
    → (v : V) × ((o ≡ ok v) × (k v ≡ ok w))
>>=_inv (ok v) k w e = (v, (refl, e))
>>=_inv (err x) k w e = absurd cc
>>=_inv panic k w e = absurd cc

pub >>=_assoc {ℓ κ ν} :
    {U : Type ℓ} {V : Type κ} {W : Type ν} (o : Outcome U) (k : U → Outcome V) (l : V → Outcome W)
    → ((o >>= k) >>= l) ≡ (o >>= (λ u. k u >>= l))
>>=_assoc (ok u) k l = refl
>>=_assoc (err e) k l = refl
>>=_assoc panic k l = refl

-- The operator `?` in a method: it goes on with the state and the value.
abbrev pub then_ok {ℓ} : {S A B : Type ℓ} → S × Outcome A → (S → A → S × Outcome B) → S × Outcome B
then_ok (s, ok v) k = k s v
then_ok (s, err e) k = (s, err e)
then_ok (s, panic) k = (s, panic)

-- The same where a loop may run out of fuel.
abbrev pub then_run {ℓ} :
    {S A B : Type ℓ}
    → Option (S × Outcome A)
    → (S → A → Option (S × Outcome B))
    → Option (S × Outcome B)
then_run none k = none
then_run (some (s, ok v)) k = k s v
then_run (some (s, err e)) k = some (s, err e)
then_run (some (s, panic)) k = some (s, panic)
