-- ===== src/Play/Mirrored.antt =====
-- The two players' boards: each is the other one turned around.
use psychic_fiesta.Prelude.{ℕ, ◌<◌, ◌||◌, Option, none, some, List, [], ◌∷◌}
use psychic_fiesta.Prelude.{◌≡◌, refl, sym, ap, ◌∙◌, arith, ◌==◌, map, All}
use psychic_fiesta.Prelude.{length, length-set, get_elem?}
use psychic_fiesta.Game.{PieceData, const_default, Move, white, black}
use psychic_fiesta.Game.Reverse.{IsOnBoard, IsOnBoardList, mirrored, mirrored_move, mirrored-inside}
use psychic_fiesta.Game.Reverse.{list-inside}
use psychic_fiesta.Legal.{Pieces}
use psychic_fiesta.Board.{default_setup}
use psychic_fiesta.Prelude.{zero, suc, Bool-cases, inl, inr}
use psychic_fiesta.Board.Perform.{among, captured_list, taken_squares, promote, moved}
use psychic_fiesta.Board.Perform.{length-cleared, get_elem?-moved}
use mathlib.Core.Option
use mathlib.Core.Path.{ap₂}

-- Both have 32 squares, and what stands on square `i` of one stands on `31 - i` of the other.
abbrev pub Mirrored : Pieces → Pieces → Type 0
Mirrored xs ys =
    (length xs ≡ 32)
    × (length ys ≡ 32)
    × ((i : ℕ) → i < 32 → get_elem? ys (mirrored i) ≡ get_elem? xs i)

eq-mirrored : (x c : ℕ) → x < 32 → c < 32 → (mirrored x == mirrored c) ≡ (x == c)
eq-mirrored x c hx hc = ground arith

among-mirrored :
    (xs : List ℕ) (c : ℕ)
    → All (λ x. x < 32) xs
    → c < 32
    → among (mirrored c) (map mirrored xs) ≡ among c xs
among-mirrored [] c h hc = refl
among-mirrored (x ∷ xs) c (hx, hs) hc =
    ap₂ (λ a b. a || b) (eq-mirrored x c hx hc) (among-mirrored xs c hs hc)

captured_list-mirrored :
    (o : Option (List ℕ))
    → captured_list (Option.map (map mirrored) o) ≡ map mirrored (captured_list o)
captured_list-mirrored none = refl
captured_list-mirrored (some xs) = refl

pub captured-inside : (o : Option (List ℕ)) → IsOnBoardList o → All (λ x. x < 32) (captured_list o)
captured-inside none h = tt
captured-inside (some xs) h = h

length-moved : (mov : Move) (p : PieceData) (ps : Pieces) → length (moved mov p ps) ≡ length ps
length-moved mov p ps =
    length-cleared (taken_squares mov) _
    ∙ length-set _ mov.index const_default
    ∙ length-set ps mov.end (promote mov p)

-- A move and its reversal keep two boards mirrored.
pub moved-Mirrored :
    (mov : Move) (p : PieceData) (xs ys : Pieces)
    → IsOnBoard mov
    → Mirrored xs ys
    → Mirrored (moved mov p xs) (moved (mirrored_move mov) p ys)
moved-Mirrored mov p xs ys (hi, he, hc) (size, size', same) =
    let inside = captured-inside mov.captured hc in
    (
      length-moved mov p xs ∙ size,
      length-moved (mirrored_move mov) p ys ∙ size',
      λ i h.
          get_elem?-moved (mirrored_move mov) p ys (mirrored i) (rw size' (mirrored-inside i))
          ∙ rw
              (
                captured_list-mirrored mov.captured,
                among-mirrored (captured_list mov.captured) i inside h,
                eq-mirrored mov.index i hi h,
                eq-mirrored mov.end i he h,
                same i h,
              )
              refl
          ∙ sym (get_elem?-moved mov p xs i (rw size h)),
    )

pub captured_mirrored-inside :
    (o : Option (List ℕ)) → All (λ x. x < 32) (captured_list (Option.map (map mirrored) o))
captured_mirrored-inside none = tt
captured_mirrored-inside (some xs) = list-inside xs

pub Mirrored-swap : (xs ys : Pieces) → Mirrored xs ys → Mirrored ys xs
Mirrored-swap xs ys (size, size', same) = (
  size',
  size,
  λ i h.
      let back : mirrored (mirrored i) ≡ i = omega arith in
      sym (same (mirrored i) (mirrored-inside i)) ∙ ap (get_elem? ys) back,
)

-- The first `n` squares of a board, and the last, from the middle outwards.
abbrev first_squares : Pieces → ℕ → List (Option PieceData)
first_squares xs zero = []
first_squares xs (suc n) = get_elem? xs n ∷ first_squares xs n

abbrev last_squares : Pieces → ℕ → List (Option PieceData)
last_squares ys zero = []
last_squares ys (suc n) = get_elem? ys (mirrored n) ∷ last_squares ys n

last_squares-mirrored :
    (xs ys : Pieces) (n i : ℕ)
    → last_squares ys n ≡ first_squares xs n
    → i < n
    → get_elem? ys (mirrored i) ≡ get_elem? xs i
last_squares-mirrored xs ys zero i e h = absurd (omega arith)
last_squares-mirrored xs ys (suc n) i e h = elim (Bool-cases (i == n)) [
  | inl same ↦ let q : i ≡ n = ground arith in rw q (cc e)
  | inr other ↦ last_squares-mirrored xs ys n i (cc e) (ground arith)
]

-- The two players start on mirrored boards.
pub default_setup-Mirrored : Mirrored (default_setup white) (default_setup black)
unfolding default_setup
default_setup-Mirrored = (
  refl,
  refl,
  λ i h. last_squares-mirrored (default_setup white) (default_setup black) 32 i refl h,
)
