-- ===== src/Prelude/Results.antt =====
-- The result of a call that returns a value, returns an error, or panics. A call that has no error
-- of its own returns an option, in which `none` stands for a panic.
use mathlib.Core.Option.{Option, none, some}

pub data Outcome {ℓ κ} (E : Type ℓ) (A : Type κ) : Type (ℓ ⊔ κ) where
  ok : A → Outcome E A
  err : E → Outcome E A
  panic : Outcome E A

infixl 5 ◌>>=◌ ◌>>◌
abbrev pub ◌>>=◌ {ℓ κ μ} :
    {E : Type ℓ} {A : Type κ} {B : Type μ} → Outcome E A → (A → Outcome E B) → Outcome E B
ok a >>= f = f a
err e >>= f = err e
panic >>= f = panic

abbrev pub ◌>>◌ {ℓ κ} : {E : Type ℓ} {B : Type κ} → Outcome E (Unit {0}) → Outcome E B → Outcome E B
m >> k = m >>= λ _. k

abbrev pub or_panic {ℓ κ} : {E : Type ℓ} {A : Type κ} → Option A → Outcome E A
or_panic none = panic
or_panic (some a) = ok a

-- `Result::expect`: an error is a panic too.
abbrev pub expect {ℓ κ μ} : {D : Type ℓ} {E : Type κ} {A : Type μ} → Outcome D A → Outcome E A
expect (ok a) = ok a
expect (err e) = panic
expect panic = panic
