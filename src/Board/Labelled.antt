-- ===== src/Board/Labelled.antt =====
-- Gathered moves inherit what holds of the moves of each direction or piece, for any predicate `P`
-- of capturing and `Q` of quiet moves.
use psychic_fiesta.Prelude.{ℕ, Bool, true, false, Option, none, some}
use psychic_fiesta.Prelude.{List, [], ◌∷◌, ◌++◌, ◌≡◌, ◌≢◌, inl, inr, refl}
use psychic_fiesta.Prelude.{All, All-append}
use psychic_fiesta.Prelude.{Bool-cases}
use psychic_fiesta.Prelude.Outcome.{Outcome}
use psychic_fiesta.Game.{Move, Direction}
use psychic_fiesta.Legal.{Found, only_captures}
use psychic_fiesta.Legal.Spec.{Labelled, Safe, Safe-bind, Safe-map}
use psychic_fiesta.Board.Moves.{gather_found, gather_directions}
use psychic_fiesta.Board.Gather.{any_capture, any_found, collect, mandatory, fold_found, Uniform}

module _ (P Q : Move → Type 0) where
  module _ (hp : (mov : Move) → P mov → (l : List ℕ) × (mov.captured ≡ some l))
      (hq : (mov : Move) → Q mov → mov.captured ≡ none) where
    only_captures-All : (moves : List Move) → All P moves → only_captures moves ≡ moves
    unfolding only_captures
    only_captures-All [] h = refl
    only_captures-All (mov ∷ moves) h = simp ((hp mov h.0).1, only_captures-All moves h.1)

    only_captures-none : (moves : List Move) → All Q moves → only_captures moves ≡ []
    unfolding only_captures
    only_captures-none [] h = refl
    only_captures-none (mov ∷ moves) h = simp (hq mov h.0, only_captures-none moves h.1)

    pub Labelled-Uniform : (fs : List Found) → All (Labelled P Q) fs → All Uniform fs
    Labelled-Uniform [] h = tt
    Labelled-Uniform (none ∷ fs) h = (tt, Labelled-Uniform fs h.1)
    Labelled-Uniform (some (moves, true) ∷ fs) h =
        (only_captures-All moves h.0.0, Labelled-Uniform fs h.1)
    Labelled-Uniform (some (moves, false) ∷ fs) h =
        (only_captures-none moves h.0.0, Labelled-Uniform fs h.1)

  collect-true : (fs : List Found) → All (Labelled P Q) fs → All P (collect true fs)
  collect-true [] h = tt
  collect-true (none ∷ fs) h = collect-true fs h.1
  collect-true (some (moves, true) ∷ fs) h =
      All-append P moves (collect true fs) h.0.0 (collect-true fs h.1)
  collect-true (some (moves, false) ∷ fs) h = collect-true fs h.1

  collect-false : (fs : List Found) → All (Labelled P Q) fs → All Q (collect false fs)
  collect-false [] h = tt
  collect-false (none ∷ fs) h = collect-false fs h.1
  collect-false (some (moves, true) ∷ fs) h = collect-false fs h.1
  collect-false (some (moves, false) ∷ fs) h =
      All-append Q moves (collect false fs) h.0.0 (collect-false fs h.1)

  append-ne-nil : (xs ys : List Move) → xs ≢ [] → xs ++ ys ≢ []
  append-ne-nil [] ys h = absurd (h refl)
  append-ne-nil (x ∷ xs) ys h = λ e. cc

  collect-true-ne-nil :
      (fs : List Found) → All (Labelled P Q) fs → any_capture fs ≡ true → collect true fs ≢ []
  collect-true-ne-nil [] h e = cc
  collect-true-ne-nil (none ∷ fs) h e = collect-true-ne-nil fs h.1 e
  collect-true-ne-nil (some (moves, true) ∷ fs) h e = append-ne-nil moves (collect true fs) h.0.1
  collect-true-ne-nil (some (moves, false) ∷ fs) h e = collect-true-ne-nil fs h.1 e

  collect-false-ne-nil :
      (fs : List Found)
      → All (Labelled P Q) fs
      → any_found fs ≡ true
      → any_capture fs ≡ false
      → collect false fs ≢ []
  collect-false-ne-nil [] h f e = cc
  collect-false-ne-nil (none ∷ fs) h f e = collect-false-ne-nil fs h.1 f e
  collect-false-ne-nil (some (moves, true) ∷ fs) h f e = cc
  collect-false-ne-nil (some (moves, false) ∷ fs) h f e =
      append-ne-nil moves (collect false fs) h.0.1

  pub Labelled-mandatory : (fs : List Found) → All (Labelled P Q) fs → Labelled P Q (mandatory fs)
  Labelled-mandatory fs h = elim (Bool-cases (any_found fs)) [
    | inr nothing ↦ rw nothing tt
    | inl found ↦ elim (Bool-cases (any_capture fs)) [
      | inl e ↦ rw (found, e) (collect-true fs h, collect-true-ne-nil fs h e)
      | inr e ↦ rw (found, e) (collect-false fs h, collect-false-ne-nil fs h found e)
    ]
  ]

  -- The loop over the directions, for calls that are safe.
  pub gather_directions-Safe :
      (call : Direction → Outcome Found)
      → ((d : Direction) → Safe (Labelled P Q) (call d))
      → (ds : List Direction) (acc : Option (List Move) × Bool)
      → Safe
          (λ out. (fs : List Found) × All (Labelled P Q) fs × (out ≡ fold_found fs acc))
          (gather_directions call ds acc)
  unfolding gather_directions
  gather_directions-Safe call h [] acc = ([], tt, refl)
  gather_directions-Safe call h (d ∷ ds) acc =
      Safe-bind (Labelled P Q) _ (call d) _ (h d) (λ found l.
        Safe-map _ _ (gather_directions call ds (gather_found found acc))
          (λ out (fs, hs, e). (found ∷ fs, (l, hs), e))
          (gather_directions-Safe call h ds (gather_found found acc)))
