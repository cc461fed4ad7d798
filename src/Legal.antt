-- ===== src/Legal.antt =====
-- src/game/board.rs, `check_move` and the two functions that gather legal moves from it.
mod Tests
pub mod Spec
pub mod Geometry
pub mod Taken
pub mod Sound
pub mod Ends
pub mod Panics
pub mod Listing
pub mod Tours
pub mod Further
pub mod Ahead
pub mod Taking
pub mod Tile
pub mod Exact
pub mod Total
pub mod Rules
use psychic_fiesta.Prelude.{ℕ, zero, suc, ◌+◌, ◌-◌, ◌*◌, ◌/◌, ◌%◌, ◌≤◌, ◌<◌}
use psychic_fiesta.Prelude.{Bool, true, false, not, ◌&&◌, ◌||◌, Option, none, some}
use psychic_fiesta.Prelude.{List, [], ◌∷◌, ◌++◌, ltb, ◌==◌, if◌then◌else◌, length, get_elem?, set}
use psychic_fiesta.Prelude.Int.{ℤ, pos, pos_part, ◌+ℤ◌, ltb_ℤ}
use psychic_fiesta.Prelude.Outcome.{
  Outcome, done, panic, undefined, stuck, ◌>>=◌, or_panic, or_undefined,
}
use psychic_fiesta.Game.{PieceColor, color_eq, PieceData, const_default, Move, Direction, values}
use psychic_fiesta.Game.{get_value, is_left, is_right, is_down, is_up}
use mathlib.Core.Option

-- `[PieceData; 32]`.
abbrev pub Pieces : Type 0
Pieces = List PieceData

-- `pieces[index] = v`.
abbrev pub write : Pieces → ℕ → PieceData → Outcome Pieces
write ps index v = if ltb index (length ps) then done (set ps index v) else panic

-- `Option<(Vec<Move>, bool)>`: the moves found, and whether they capture.
abbrev pub Found : Type 0
Found = Option (List Move × Bool)

-- The arguments that no recursive call of `check_move` changes.
pub record Mover : Type 0 where
  pub start : ℕ
  pub local_player_color : PieceColor
  pub enemy_color : PieceColor

abbrev pub is_local_player : Mover → Bool
is_local_player m = not (color_eq m.local_player_color m.enemy_color)

abbrev pub row_left_shifted : ℕ → Bool
row_left_shifted index = ltb (index % 8) 4

abbrev pub at_edge : Direction → ℕ → Bool
at_edge d index =
    (row_left_shifted index && is_left d && (index % 4 == 0))
    || (not (row_left_shifted index) && is_right d && (index % 4 == 3))

abbrev pub backwards : Mover → Bool → Direction → Bool
backwards m is_king d =
    not is_king && ((is_down d && is_local_player m) || (is_up d && not (is_local_player m)))

abbrev pub next_index : Direction → ℕ → ℤ
next_index d index = pos index +ℤ get_value d index

abbrev pub is_promoting : Mover → ℕ → Bool
is_promoting m next =
    (is_local_player m && ltb next 4) || (not (is_local_player m) && ltb (32 - 4) next)

-- `filter_map(|mov| mov.captured.as_ref().map(|_| mov.clone()))`.
unfoldable pub only_captures : List Move → List Move
only_captures [] = []
only_captures (mov ∷ moves) = elim mov.captured [
  | none ↦ only_captures moves
  | some _ ↦ mov ∷ only_captures moves
]

-- The loop that appends the piece just taken to each further capture.
unfoldable pub push_captured : ℕ → Bool → List Move → Outcome (List Move)
push_captured index promoting [] = done []
push_captured index promoting (mov ∷ moves) = do
  captured ← or_undefined mov.captured
  rest ← push_captured index promoting moves
  done (
      record mov {
        captured = some (captured ++ (index ∷ []));
        promoted = mov.promoted || promoting;
      }
      ∷ rest)

-- `further_moves.get_or_insert(vec![]).append(..)`.
abbrev pub append_moves : Option (List Move) → List Move → Option (List Move)
append_moves none moves = some moves
append_moves (some acc) moves = some (acc ++ moves)

-- What one further direction found is kept if it captures.
unfoldable pub keep_further : ℕ → Bool → Option (List Move) → Found → Outcome (Option (List Move))
unfolding push_captured
keep_further index promoting acc none = done acc
keep_further index promoting acc (some (moves, false)) = done acc
keep_further index promoting acc (some (moves, true)) = do
  pushed ← push_captured index promoting moves
  done (append_moves acc pushed)

-- The loop over the directions after a capture; `call` is the recursive call.
unfoldable pub further_moves :
    (Direction → Outcome Found)
    → ℕ
    → Bool
    → List Direction
    → Option (List Move)
    → Outcome (Option (List Move))
unfolding keep_further
further_moves call index promoting [] acc = done acc
further_moves call index promoting (d ∷ ds) acc = do
  found ← call d
  acc' ← keep_further index promoting acc found
  further_moves call index promoting ds acc'

abbrev pub Rec : Type 0
Rec = Pieces → ℕ → Bool → Direction → Bool → Outcome Found

abbrev pub over_enemy : Found → Found
over_enemy none = none
over_enemy (some (moves, false)) = some (moves, false)
over_enemy (some (moves, true)) = some (only_captures moves, true)

-- The further captures, or where there is none the one capture that ends behind the piece taken.
abbrev pub or_single : Mover → ℕ → ℕ → Option (List Move) → Found
or_single m index next none = some (
  record {
    index = m.start;
    end = next;
    captured = some (index ∷ []);
    promoted = is_promoting m next;
  }
      ∷ [],
  true,
)
or_single m index next (some moves) = some (moves, true)

-- The next tile is empty and the piece at `index` is taken.
unfoldable pub take_piece : Rec → Mover → Pieces → ℕ → Bool → ℕ → Outcome Found
unfolding further_moves
take_piece call m ps index is_king next = do
  ps' ← write ps index const_default
  let promoting = is_promoting m next
  further ←
      further_moves (λ d. call ps' next (is_king || promoting) d false) index promoting values none
  done (or_single m index next further)

-- The moves beyond an empty tile, and the move to it unless those capture.
abbrev pub with_step : Mover → ℕ → List Move → Bool → Found
with_step m next moves capturing = some (
  (if capturing
      then moves
      else moves
        ++ (record { index = m.start; end = next; captured = none; promoted = is_promoting m next }
            ∷ [])),
  capturing,
)

-- The next tile is empty and nothing is being taken.
unfoldable pub step_to : Rec → Mover → Pieces → Bool → Direction → ℕ → Outcome Found
step_to call m ps is_king d next =
    if is_king
    then (call ps next is_king d false >>= λ found. elim found [
      | none ↦ done (with_step m next [] false)
      | some (moves, capturing) ↦ done (with_step m next moves capturing)
    ])
    else done (with_step m next [] false)

unfoldable pub at_tile :
    Rec → Mover → Pieces → ℕ → Bool → Direction → Bool → ℕ → PieceData → Outcome Found
at_tile call m ps index is_king d is_taking next tile =
    if tile.is_active
    then (if not (color_eq tile.color m.enemy_color) || is_taking
        then done none
        else (call ps next is_king d true >>= λ found. done (over_enemy found)))
    else if is_taking
    then take_piece call m ps index is_king next
    else step_to call m ps is_king d next

-- The body of `check_move`, over the recursive call.
unfoldable pub check_body : Rec → Mover → Rec
check_body call m ps index is_king d is_taking =
    if at_edge d index || backwards m is_king d
    then done none
    else let next = next_index d index in
      if ltb_ℤ next (pos 0) || ltb_ℤ (pos (length ps)) next
      then done none
      else (or_panic (get_elem? ps (pos_part next)) >>= λ tile.
          at_tile call m ps index is_king d is_taking (pos_part next) tile)

unfoldable pub check_move : ℕ → Mover → Rec
check_move zero m ps index is_king d is_taking = stuck
check_move (suc fuel) m ps index is_king d is_taking =
    check_body (check_move fuel m) m ps index is_king d is_taking
