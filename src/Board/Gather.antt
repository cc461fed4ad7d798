-- ===== src/Board/Gather.antt =====
-- The one-pass gathering of both functions against a two-pass description: first see whether
-- anything captures, then put together what agrees with that.
use psychic_fiesta.Prelude.{Bool, true, false, ◌||◌, Option, none, some, List, [], ◌∷◌, ◌++◌, map}
use psychic_fiesta.Prelude.{◌≡◌, refl, ◌∙◌, All, if◌then◌else◌, inl, inr, Option-cases}
use psychic_fiesta.Prelude.{not}
use psychic_fiesta.Prelude.Outcome.{Outcome, done}
use psychic_fiesta.Game.{Move, Direction}
use psychic_fiesta.Legal.{Found, only_captures}
use psychic_fiesta.Board.Moves.{bool_eq, gather_found, finish_found, gather_directions}
use mathlib.Core.List.{append-nil, append_assoc}

abbrev pub any_capture : List Found → Bool
any_capture [] = false
any_capture (none ∷ fs) = any_capture fs
any_capture (some (moves, capturing) ∷ fs) = capturing || any_capture fs

abbrev pub any_found : List Found → Bool
any_found [] = false
any_found (none ∷ fs) = any_found fs
any_found (some _ ∷ fs) = true

-- The moves of all that capture, or of all that do not.
abbrev pub collect : Bool → List Found → List Move
collect c [] = []
collect c (none ∷ fs) = collect c fs
collect c (some (moves, capturing) ∷ fs) =
    if bool_eq capturing c then moves ++ collect c fs else collect c fs

-- Captures alone if there is one, else all moves; nothing if nothing was found.
abbrev pub mandatory : List Found → Found
mandatory fs = if any_found fs then some (collect (any_capture fs) fs, any_capture fs) else none

abbrev pub fold_found : List Found → Option (List Move) × Bool → Option (List Move) × Bool
fold_found [] acc = acc
fold_found (f ∷ fs) acc = fold_found fs (gather_found f acc)

-- The flag says whether the moves capture.
abbrev pub Uniform : Found → Type 0
Uniform none = Unit
Uniform (some (moves, true)) = only_captures moves ≡ moves
Uniform (some (moves, false)) = only_captures moves ≡ []

pub only_captures-append :
    (xs ys : List Move) → only_captures (xs ++ ys) ≡ only_captures xs ++ only_captures ys
unfolding only_captures
only_captures-append [] ys = refl
only_captures-append (x ∷ xs) ys = elim (Option-cases x.captured) [
  | inl e ↦ simp (e, only_captures-append xs ys)
  | inr (l, e) ↦ simp (e, only_captures-append xs ys)
]

abbrev pub moves_or_nil : Option (List Move) → List Move
moves_or_nil none = []
moves_or_nil (some moves) = moves

abbrev rest_found : Option (List Move) → Bool → List Found → Found
rest_found none t fs = mandatory fs
rest_found (some moves) true fs = some (only_captures moves ++ collect true fs, true)
rest_found (some moves) false fs = some (
  (if any_capture fs then only_captures moves else moves) ++ collect (any_capture fs) fs,
  any_capture fs,
)

-- What the accumulator knows: without a capture so far it holds none.
abbrev Acc : Option (List Move) → Bool → Type 0
Acc none t = t ≡ false
Acc (some moves) true = Unit
Acc (some moves) false = only_captures moves ≡ []

-- Quiet moves stand in the result only where nothing captures.
drop_quiet :
    (c : Bool) (moves next rest : List Move)
    → only_captures next ≡ []
    → ◌≡◌ {A = Found}
        (some ((if c then only_captures (moves ++ next) else moves ++ next) ++ rest, c))
        (some
          ((if c then only_captures moves else moves) ++ (if not c then next ++ rest else rest), c))
drop_quiet true moves next rest h = simp (only_captures-append, h, append-nil)
drop_quiet false moves next rest h = simp append_assoc

drop_quiet_alone :
    (c : Bool) (next rest : List Move)
    → only_captures next ≡ []
    → ◌≡◌ {A = Found}
        (some ((if c then only_captures next else next) ++ rest, c))
        (some ((if not c then next ++ rest else rest), c))
drop_quiet_alone true next rest h = simp h
drop_quiet_alone false next rest h = refl

fold_found-rest :
    (fs : List Found) (acc : Option (List Move)) (t : Bool)
    → All Uniform fs
    → Acc acc t
    → finish_found (fold_found fs (acc, t)) ≡ rest_found acc t fs
fold_found-rest [] none t u a = refl
fold_found-rest [] (some moves) true u a = rw append-nil
fold_found-rest [] (some moves) false u a = rw append-nil
fold_found-rest (none ∷ fs) none t u a = fold_found-rest fs none t u.1 a
fold_found-rest (none ∷ fs) (some moves) true u a = fold_found-rest fs (some moves) true u.1 a
fold_found-rest (none ∷ fs) (some moves) false u a = fold_found-rest fs (some moves) false u.1 a
fold_found-rest (some (next, capturing) ∷ fs) none true u a = cc
fold_found-rest (some (next, true) ∷ fs) none false u a =
    fold_found-rest fs (some next) true u.1 tt ∙ simp u.0
fold_found-rest (some (next, false) ∷ fs) none false u a =
    fold_found-rest fs (some next) false u.1 u.0
    ∙ drop_quiet_alone (any_capture fs) next (collect (any_capture fs) fs) u.0
fold_found-rest (some (next, true) ∷ fs) (some moves) true u a =
    fold_found-rest fs (some (moves ++ next)) true u.1 tt
    ∙ simp (only_captures-append, u.0, append_assoc)
fold_found-rest (some (next, false) ∷ fs) (some moves) true u a =
    fold_found-rest fs (some moves) true u.1 tt
fold_found-rest (some (next, true) ∷ fs) (some moves) false u a =
    fold_found-rest fs (some (moves ++ next)) true u.1 tt
    ∙ simp (only_captures-append, u.0, append_assoc)
fold_found-rest (some (next, false) ∷ fs) (some moves) false u a =
    fold_found-rest fs (some (moves ++ next)) false u.1 (simp (only_captures-append, a, u.0))
    ∙ drop_quiet (any_capture fs) moves next (collect (any_capture fs) fs) u.0

-- Where the flag of each result says whether its moves capture, gathering the results one by one gives
-- the two-pass description: the captures alone if there is one, else all moves, and nothing if
-- nothing was found.
pub fold_found-mandatory :
    (fs : List Found) → All Uniform fs → finish_found (fold_found fs (none, false)) ≡ mandatory fs
fold_found-mandatory fs u = fold_found-rest fs none false u refl

-- Where no call of the loop fails, the loop is the fold over what the calls return.
pub gather_directions-fold :
    (call : Direction → Outcome Found) (f : Direction → Found)
    → ((d : Direction) → call d ≡ done (f d))
    → (ds : List Direction) (acc : Option (List Move) × Bool)
    → gather_directions call ds acc ≡ done (fold_found (map f ds) acc)
unfolding gather_directions
gather_directions-fold call f h [] acc = refl
gather_directions-fold call f h (d ∷ ds) acc =
    rw (h d) (gather_directions-fold call f h ds (gather_found (f d) acc))
