-- ===== src/Game.antt =====
-- src/game/mod.rs, and the types of ui/piece.slint and ui/board.slint that it includes: colours,
-- pieces, moves, actions and directions. A `usize` is a number.
mod Tests
pub mod Reverse
use psychic_fiesta.Prelude.{ℕ, ◌+◌, ◌-◌, ◌/◌, ◌%◌, ◌^◌, Bool, true, false, Option, none, some}
use psychic_fiesta.Prelude.{List, [], ◌∷◌, leb, if◌then◌else◌}
use psychic_fiesta.Prelude.Outcome.{Outcome, done, panic, ◌>>=◌}
use psychic_fiesta.Prelude.Int.{ℤ, pos, negsuc, ◌+ℤ◌}

pub data PieceColor : Type 0 where
  white black : PieceColor

abbrev pub color_eq : PieceColor → PieceColor → Bool
color_eq white white = true
color_eq black black = true
color_eq _ _ = false

abbrev pub get_opposite : PieceColor → PieceColor
get_opposite white = black
get_opposite black = white

pub record PieceData : Type 0 where
  pub is_active : Bool
  pub is_king : Bool
  pub color : PieceColor

abbrev pub const_default : PieceData
const_default = record { is_active = false; is_king = false; color = white }

pub record Move : Type 0 where
  pub index : ℕ
  pub end : ℕ
  pub promoted : Bool
  pub captured : Option (List ℕ)

-- `a - b` on `usize`: with `checks`, as in a debug build, an underflow panics; without it wraps.
abbrev pub usize_sub : Bool → ℕ → ℕ → Outcome ℕ
usize_sub checks a b =
    if leb b a then done (a - b) else if checks then panic else done (a + 2 ^ 64 - b)

unfoldable pub reverse_squares : Bool → List ℕ → Outcome (List ℕ)
reverse_squares checks [] = done []
reverse_squares checks (piece ∷ rest) = do
  piece' ← usize_sub checks 31 piece
  rest' ← reverse_squares checks rest
  done (piece' ∷ rest')

unfoldable pub reverse_captured : Bool → Option (List ℕ) → Outcome (Option (List ℕ))
unfolding reverse_squares
reverse_captured checks none = done none
reverse_captured checks (some captured) = do
  captured' ← reverse_squares checks captured
  done (some captured')

unfoldable pub reverse : Bool → Move → Outcome Move
unfolding reverse_captured
reverse checks m = do
  captured ← reverse_captured checks m.captured
  index ← usize_sub checks 31 m.index
  end ← usize_sub checks 31 m.end
  done (record { index = index; end = end; promoted = m.promoted; captured = captured })

pub data GameAction : Type 0 where
  move_piece : Move → GameAction
  stalemate : GameAction
  surrender : GameAction

pub data Direction : Type 0 where
  up_left up_right down_left down_right : Direction

abbrev pub values : List Direction
values = up_right ∷ up_left ∷ down_left ∷ down_right ∷ []

-- `*self as i32`.
abbrev pub discriminant : Direction → ℤ
discriminant up_left = negsuc 4
discriminant up_right = negsuc 3
discriminant down_left = pos 3
discriminant down_right = pos 4

abbrev pub get_value : Direction → ℕ → ℤ
get_value d index = discriminant d +ℤ pos (index % 8 / 4)

abbrev pub is_left : Direction → Bool
is_left up_left = true
is_left down_left = true
is_left _ = false

abbrev pub is_right : Direction → Bool
is_right up_right = true
is_right down_right = true
is_right _ = false

abbrev pub is_down : Direction → Bool
is_down down_right = true
is_down down_left = true
is_down _ = false

abbrev pub is_up : Direction → Bool
is_up up_right = true
is_up up_left = true
is_up _ = false
