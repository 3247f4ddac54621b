-- ===== src/Error.antt =====
-- src/fs_error.rs: the error type, and how a call can end.
use fixed_str.Common.{ℕ}

-- `FixedStrError`.
pub data FixedStrError : Type 0 where
  overflow : (available found : ℕ) → FixedStrError
  invalid_utf8 : FixedStrError

-- How a call ends: with a value, with an error value of a `Result`, or by a panic. A call that
-- returns no `Result` has no `err`.
pub data Outcome {ℓ} (A : Type ℓ) : Type ℓ where
  ok : A → Outcome A
  err : FixedStrError → Outcome A
  panic : Outcome A

-- The `?` operator, and the order of statements.
infixl 5 ◌>>=◌ ◌>>◌
abbrev pub ◌>>=◌ {ℓ κ} : {A : Type ℓ} {B : Type κ} → Outcome A → (A → Outcome B) → Outcome B
ok a >>= f = f a
err e >>= f = err e
panic >>= f = panic

abbrev pub ◌>>◌ {ℓ} : {B : Type ℓ} → Outcome (Unit {0}) → Outcome B → Outcome B
m >> k = m >>= λ _. k

-- `Result::unwrap`
abbrev pub unwrap {ℓ} : {A : Type ℓ} → Outcome A → Outcome A
unwrap (ok a) = ok a
unwrap (err e) = panic
unwrap panic = panic
