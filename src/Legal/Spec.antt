-- ===== src/Legal/Spec.antt =====
-- What a move found on a board may claim, in terms of the board alone: the vocabulary of the
-- theorems on `check_move`.
use psychic_fiesta.Prelude.{
  ℕ, ◌<◌, Bool, if◌then◌else◌, true, false, none, some, List, [], ◌∷◌, ◌++◌,
}
use psychic_fiesta.Prelude.{◌≡◌, ◌≢◌, ◌⊎◌, inl, inr, refl, All, get_elem?, length, get_elem?-lt}
use psychic_fiesta.Prelude.Outcome.{Outcome, done, panic, undefined, stuck, ◌>>=◌}
use psychic_fiesta.Game.{PieceData, Move}
use psychic_fiesta.Legal.{Pieces, Found, Mover}

abbrev pub IsEmpty : Pieces → ℕ → Type 0
IsEmpty ps c = (t : PieceData) × (get_elem? ps c ≡ some t) × (t.is_active ≡ false)

abbrev pub IsEnemy : Mover → Pieces → ℕ → Type 0
IsEnemy m ps c =
    (t : PieceData) × (get_elem? ps c ≡ some t) × (t.is_active ≡ true) × (t.color ≡ m.enemy_color)

abbrev pub Among : ℕ → List ℕ → Type 0
Among x [] = ⊥
Among x (y ∷ ys) = (x ≡ y) ⊎ Among x ys

abbrev pub Distinct : List ℕ → Type 0
Distinct [] = Unit
Distinct (x ∷ xs) = All (λ y. y ≢ x) xs × Distinct xs

-- A capturing move of `m` on the board `ps`: it starts at the mover's square; what it takes are
-- enemy pieces of the board, none twice and one at least; it ends on a square of the board that is
-- empty, or on one that it has emptied.
pub record IsCapture (m : Mover) (ps : Pieces) (mov : Move) : Type 0 where
  pub squares : List ℕ
  pub taken : mov.captured ≡ some squares
  pub some_taken : squares ≢ []
  pub enemies : All (IsEnemy m ps) squares
  pub distinct : Distinct squares
  pub from : mov.index ≡ m.start
  pub lands : IsEmpty ps mov.end ⊎ Among mov.end squares

-- A move that takes nothing.
pub record IsQuiet (m : Mover) (ps : Pieces) (mov : Move) : Type 0 where
  pub taken : mov.captured ≡ none
  pub from : mov.index ≡ m.start
  pub lands : IsEmpty ps mov.end

-- All moves found satisfy `P` or all satisfy `Q`, as the flag says; and something was found.
abbrev pub Labelled : (Move → Type 0) → (Move → Type 0) → Found → Type 0
Labelled P Q none = Unit
Labelled P Q (some (moves, true)) = All P moves × (moves ≢ [])
Labelled P Q (some (moves, false)) = All Q moves × (moves ≢ [])

-- All moves found capture, or none does.
abbrev pub Describes : Mover → Pieces → Found → Type 0
Describes m ps found = Labelled (IsCapture m ps) (IsQuiet m ps) found

-- The call has no undefined behaviour, and what it returns, if it does, is as `P` says.
abbrev pub Safe {ℓ} : {A : Type ℓ} → (A → Type 0) → Outcome A → Type 0
Safe P (done a) = P a
Safe P panic = Unit
Safe P undefined = ⊥
Safe P stuck = Unit

pub Distinct-concat :
    (xs : List ℕ) (i : ℕ) → Distinct xs → All (λ y. y ≢ i) xs → Distinct (xs ++ (i ∷ []))
Distinct-concat [] i d n = (tt, tt)
Distinct-concat (x ∷ xs) i d n = (All-ne-concat xs d.0, Distinct-concat xs i d.1 n.1)
  where
    All-ne-concat : (ys : List ℕ) → All (λ y. y ≢ x) ys → All (λ y. y ≢ x) (ys ++ (i ∷ []))
    All-ne-concat [] h = (λ e. n.0 (cc), tt)
    All-ne-concat (y ∷ ys) h = (h.0, All-ne-concat ys h.1)

pub Among-append : (x : ℕ) (xs ys : List ℕ) → Among x xs → Among x (xs ++ ys)
Among-append x [] ys h = absurd h
Among-append x (y ∷ xs) ys (inl e) = inl e
Among-append x (y ∷ xs) ys (inr h) = inr (Among-append x xs ys h)

pub Among-concat : (x : ℕ) (xs : List ℕ) → Among x (xs ++ (x ∷ []))
Among-concat x [] = inl refl
Among-concat x (y ∷ xs) = inr (Among-concat x xs)

-- From a found capture, the fact that `unwrap_unchecked` relies on.
pub IsEnemy-lt : (m : Mover) (ps : Pieces) (c : ℕ) → IsEnemy m ps c → c < length ps
IsEnemy-lt m ps c (t, e, _, _) = get_elem?-lt ps c e

pub Safe-bind {ℓ κ} :
    {A : Type ℓ} {B : Type κ} (P : A → Type 0) (Q : B → Type 0) (r : Outcome A) (f : A → Outcome B)
    → Safe P r
    → ((a : A) → P a → Safe Q (f a))
    → Safe Q (r >>= f)
Safe-bind P Q (done a) f h k = k a h
Safe-bind P Q panic f h k = tt
Safe-bind P Q undefined f h k = absurd h
Safe-bind P Q stuck f h k = tt

pub Safe-if {ℓ} :
    {A : Type ℓ} (P : A → Type 0) (b : Bool) (x y : Outcome A)
    → (b ≡ true → Safe P x)
    → (b ≡ false → Safe P y)
    → Safe P (if b then x else y)
Safe-if P true x y h k = h refl
Safe-if P false x y h k = k refl

pub Safe-map {ℓ} :
    {A : Type ℓ} (P Q : A → Type 0) (r : Outcome A) → ((a : A) → P a → Q a) → Safe P r → Safe Q r
Safe-map P Q (done a) k h = k a h
Safe-map P Q panic k h = tt
Safe-map P Q undefined k h = absurd h
Safe-map P Q stuck k h = tt
