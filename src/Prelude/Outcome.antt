-- ===== src/Prelude/Outcome.antt =====
-- How a call ends. The source panics on an index out of range, a failed `assert!` and `unwrap`, and
-- has undefined behaviour where `unwrap_unchecked` meets `None`; `stuck` is no end of the source
-- but a loop of the model that ran out of fuel.
use mathlib.Core.Option.{Option, none, some}

pub data Outcome {ℓ} (A : Type ℓ) : Type ℓ where
  done : A → Outcome A
  panic : Outcome A
  undefined : Outcome A
  stuck : Outcome A

infixl 5 ◌>>=◌
abbrev pub ◌>>=◌ {ℓ κ} : {A : Type ℓ} {B : Type κ} → Outcome A → (A → Outcome B) → Outcome B
done a >>= f = f a
panic >>= f = panic
undefined >>= f = undefined
stuck >>= f = stuck

-- `unwrap` and indexing.
abbrev pub or_panic {ℓ} : {A : Type ℓ} → Option A → Outcome A
or_panic (some a) = done a
or_panic none = panic

-- `unwrap_unchecked`.
abbrev pub or_undefined {ℓ} : {A : Type ℓ} → Option A → Outcome A
or_undefined (some a) = done a
or_undefined none = undefined
