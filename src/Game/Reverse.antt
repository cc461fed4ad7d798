-- ===== src/Game/Reverse.antt =====
-- src/game/mod.rs, `Move::reverse`: a move seen from the other side of the board.
use psychic_fiesta.Prelude.{ℕ, ◌<◌, ◌-◌, Bool, Option, none, some, List, [], ◌∷◌, All, ◌≡◌, arith}
use psychic_fiesta.Prelude.{map, refl, ap, ◌∙◌}
use psychic_fiesta.Prelude.Outcome.{done}
use psychic_fiesta.Game.{Move, usize_sub, reverse_squares, reverse_captured, reverse}
use mathlib.Core.Option
use mathlib.Core.Path.{ap₂}

abbrev pub IsOnBoardList : Option (List ℕ) → Type 0
IsOnBoardList none = Unit
IsOnBoardList (some captured) = All (λ x. x < 32) captured

-- All squares that the move names are on the board.
abbrev pub IsOnBoard : Move → Type 0
IsOnBoard m = (m.index < 32) × (m.end < 32) × IsOnBoardList m.captured

abbrev pub mirrored : ℕ → ℕ
mirrored i = 31 - i

-- The move with every square `i` replaced by `31 - i`.
abbrev pub mirrored_move : Move → Move
mirrored_move m = record m {
  index = mirrored m.index;
  end = mirrored m.end;
  captured = Option.map (map mirrored) m.captured;
}

usize_sub-mirrored : (checks : Bool) (i : ℕ) → i < 32 → usize_sub checks 31 i ≡ done (mirrored i)
usize_sub-mirrored checks i h = ground arith

reverse_squares-mirrored :
    (checks : Bool) (xs : List ℕ)
    → All (λ x. x < 32) xs
    → reverse_squares checks xs ≡ done (map mirrored xs)
unfolding reverse_squares
reverse_squares-mirrored checks [] h = refl
reverse_squares-mirrored checks (x ∷ xs) (hx, hs) =
    rw (usize_sub-mirrored checks x hx, reverse_squares-mirrored checks xs hs) refl

reverse_captured-mirrored :
    (checks : Bool) (o : Option (List ℕ))
    → IsOnBoardList o
    → reverse_captured checks o ≡ done (Option.map (map mirrored) o)
unfolding reverse_captured
reverse_captured-mirrored checks none h = refl
reverse_captured-mirrored checks (some xs) h = rw (reverse_squares-mirrored checks xs h) refl

-- A move on the board is reversed square by square, with and without overflow checks.
pub reverse-mirrored :
    (checks : Bool) (m : Move) → IsOnBoard m → reverse checks m ≡ done (mirrored_move m)
unfolding reverse
reverse-mirrored checks m (hi, he, hc) =
    rw
      (
        reverse_captured-mirrored checks m.captured hc,
        usize_sub-mirrored checks m.index hi,
        usize_sub-mirrored checks m.end he,
      )
      refl

pub mirrored-inside : (i : ℕ) → mirrored i < 32
mirrored-inside i = omega arith

pub list-inside : (xs : List ℕ) → All (λ x. x < 32) (map mirrored xs)
list-inside [] = tt
list-inside (x ∷ xs) = (mirrored-inside x, list-inside xs)

option-inside : (o : Option (List ℕ)) → IsOnBoardList (Option.map (map mirrored) o)
option-inside none = tt
option-inside (some xs) = list-inside xs

list-twice : (xs : List ℕ) → All (λ x. x < 32) xs → map mirrored (map mirrored xs) ≡ xs
list-twice [] h = refl
list-twice (x ∷ xs) (hx, hs) = ap₂ (λ y ys. y ∷ ys) (omega arith) (list-twice xs hs)

option-twice :
    (o : Option (List ℕ))
    → IsOnBoardList o
    → Option.map (map mirrored) (Option.map (map mirrored) o) ≡ o
option-twice none h = refl
option-twice (some xs) h = ap some (list-twice xs h)

twice : (m : Move) → IsOnBoard m → mirrored_move (mirrored_move m) ≡ m
twice m (hi, he, hc) =
    ap
      (λ o. record m {
        index = mirrored (mirrored m.index);
        end = mirrored (mirrored m.end);
        captured = o;
      })
      (option-twice m.captured hc)
    ∙ ap₂ (λ i e. record m { index = i; end = e }) (omega arith) (omega arith)

-- A move that stays on the board is reversed without a panic, whether the build checks for overflow
-- (`there`, `back`) or not, and reversing the result gives the move again.
pub reverse-reverse :
    (there back : Bool) (m : Move)
    → IsOnBoard m
    → (m' : Move) × (reverse there m ≡ done m') × (reverse back m' ≡ done m)
reverse-reverse there back m h = (
  mirrored_move m,
  reverse-mirrored there m h,
  reverse-mirrored back (mirrored_move m)
        (mirrored-inside m.index, mirrored-inside m.end, option-inside m.captured)
      ∙ ap done (twice m h),
)
