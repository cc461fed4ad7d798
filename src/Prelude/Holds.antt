-- ===== src/Prelude/Holds.antt =====
-- Partial correctness of an `Outcome`: a predicate on what a call returns, with a rule for each way
-- to build the call.
use mathlib.Core.Path.{◌≡◌, refl}
use mathlib.Core.Bool.{Bool, true, false}
use psychic_fiesta.Prelude.Tests.{if◌then◌else◌}
use psychic_fiesta.Prelude.Outcome.{Outcome, done, panic, undefined, stuck, ◌>>=◌}

-- What the call returns, if it does, is as `P` says.
abbrev pub Holds {ℓ} : {A : Type ℓ} → (A → Type 0) → Outcome A → Type 0
Holds P (done a) = P a
Holds P panic = Unit
Holds P undefined = Unit
Holds P stuck = Unit

pub Holds-bind {ℓ κ} :
    {A : Type ℓ} {B : Type κ} (Q : B → Type 0) (r : Outcome A) (f : A → Outcome B)
    → ((a : A) → r ≡ done a → Holds Q (f a))
    → Holds Q (r >>= f)
Holds-bind Q (done a) f k = k a refl
Holds-bind Q panic f k = tt
Holds-bind Q undefined f k = tt
Holds-bind Q stuck f k = tt

pub Holds-bind₂ {ℓ κ μ} :
    {A : Type ℓ} {B : Type κ} {C : Type μ} (Q : C → Type 0) (r : Outcome A) (g : A → Outcome B)
    (f : B → Outcome C)
    → ((a : A) → r ≡ done a → Holds Q (g a >>= f))
    → Holds Q ((r >>= g) >>= f)
Holds-bind₂ Q (done a) g f k = k a refl
Holds-bind₂ Q panic g f k = tt
Holds-bind₂ Q undefined g f k = tt
Holds-bind₂ Q stuck g f k = tt

pub Holds-map {ℓ} :
    {A : Type ℓ} (P Q : A → Type 0) (r : Outcome A) → ((a : A) → P a → Q a) → Holds P r → Holds Q r
Holds-map P Q (done a) k h = k a h
Holds-map P Q panic k h = tt
Holds-map P Q undefined k h = tt
Holds-map P Q stuck k h = tt

pub Holds-if {ℓ} :
    {A : Type ℓ} (P : A → Type 0) (b : Bool) (x y : Outcome A)
    → (b ≡ true → Holds P x)
    → (b ≡ false → Holds P y)
    → Holds P (if b then x else y)
Holds-if P true x y h k = h refl
Holds-if P false x y h k = k refl

pub Holds-done {ℓ} :
    {A : Type ℓ} (P : A → Type 0) (r : Outcome A) (a : A) → Holds P r → r ≡ done a → P a
Holds-done P r a h e = rw e at h
