-- ===== src/Board/Moves.antt =====
-- src/game/board.rs, `get_legal_moves_piece` and `get_legal_moves`: the moves of one piece in all
-- directions, and those of all pieces of the player.
use psychic_fiesta.Prelude.{ℕ, zero, suc, ◌+◌, Bool, true, false, not, ◌||◌}
use psychic_fiesta.Prelude.{Option, none, some, List, [], ◌∷◌, ltb, if◌then◌else◌}
use psychic_fiesta.Prelude.Outcome.{Outcome, done, panic, ◌>>=◌}
use psychic_fiesta.Game.{color_eq, get_opposite, PieceData, Move, Direction, values}
use psychic_fiesta.Legal.{Pieces, Found, Mover, only_captures, append_moves, check_move}
use psychic_fiesta.Rows.{VecModel}
use mathlib.Core.Option
use psychic_fiesta.Board.{Board, BoardSquare}

abbrev pub bool_eq : Bool → Bool → Bool
bool_eq true b = b
bool_eq false b = not b

-- `is_taking |= next.1; if next.1 == is_taking { moves.get_or_insert(vec![]).append(..) }`.
abbrev pub gather_found : Found → Option (List Move) × Bool → Option (List Move) × Bool
gather_found none (moves, is_taking) = (moves, is_taking)
gather_found (some (next, capturing)) (moves, is_taking) = (
  (if bool_eq capturing (is_taking || capturing) then append_moves moves next else moves),
  is_taking || capturing,
)

-- `moves.map(..)` at the end of both functions: without the moves that do not capture, if one does.
abbrev pub finish_found : Option (List Move) × Bool → Found
finish_found (none, is_taking) = none
finish_found (some moves, is_taking) =
    some ((if is_taking then only_captures moves else moves), is_taking)

abbrev pub moves_of : Found → Option (List Move)
moves_of none = none
moves_of (some (moves, _)) = some moves

unfoldable pub gather_directions :
    (Direction → Outcome Found)
    → List Direction
    → Option (List Move) × Bool
    → Outcome (Option (List Move) × Bool)
gather_directions call [] acc = done acc
gather_directions call (d ∷ ds) acc = do
  found ← call d
  gather_directions call ds (gather_found found acc)

-- Enough for every call of `check_move` on 32 squares.
abbrev pub check_fuel : ℕ
check_fuel = 272

module _ (pv : VecModel PieceData) (sv : VecModel BoardSquare) where
  -- The loop that copies the rows into an array; `none` is the `?` on a missing row.
  unfoldable pub snapshot_loop : Board pv sv → ℕ → ℕ → Option Pieces
  snapshot_loop b zero i = some []
  snapshot_loop b (suc n) i = elim (pv.row_data b.pieces i) [
    | none ↦ none
    | some piece ↦ Option.map (λ pieces. piece ∷ pieces) (snapshot_loop b n (i + 1))
  ]

  abbrev pub mover : Board pv sv → ℕ → PieceData → Mover
  mover b index piece = record {
    start = index;
    local_player_color = b.player_color;
    enemy_color = get_opposite piece.color;
  }

  unfoldable pub legal_from : Board pv sv → ℕ → PieceData → Pieces → Outcome Found
  unfolding gather_directions
  legal_from b index piece pieces = do
    gathered ←
        gather_directions
          (λ d. check_move check_fuel (mover b index piece) pieces index piece.is_king d false)
          values (none, false)
    done (finish_found gathered)

  unfoldable pub get_legal_moves_piece : Board pv sv → ℕ → Outcome Found
  unfolding legal_from snapshot_loop
  get_legal_moves_piece b index =
      if ltb index (pv.row_count b.pieces)
      then (elim (pv.row_data b.pieces index) [
        | none ↦ done none
        | some piece ↦ if not piece.is_active then done none else (elim (snapshot_loop b 32 0) [
          | none ↦ done none
          | some pieces ↦ legal_from b index piece pieces
        ])
      ])
      else panic

  -- One round of the loop of `get_legal_moves`, at a row that is there.
  unfoldable pub legal_turn :
      Board pv sv → ℕ → PieceData → Option (List Move) × Bool → Outcome (Option (List Move) × Bool)
  legal_turn b index piece acc =
      if not (color_eq piece.color b.player_color)
      then done acc
      else (get_legal_moves_piece b index >>= λ found. done (gather_found found acc))

  -- The loop over all rows, with the rounds left; a missing row ends the function with `None`.
  unfoldable pub legal_loop : Board pv sv → ℕ → ℕ → Option (List Move) × Bool → Outcome Found
  unfolding legal_turn get_legal_moves_piece
  legal_loop b zero index acc = done (finish_found acc)
  legal_loop b (suc n) index acc = elim (pv.row_data b.pieces index) [
    | none ↦ done none
    | some piece ↦ legal_turn b index piece acc >>= λ acc'. legal_loop b n (index + 1) acc'
  ]

  unfoldable pub get_legal_moves : Board pv sv → Outcome (Option (List Move))
  unfolding legal_loop
  get_legal_moves b = do
    found ← legal_loop b (pv.row_count b.pieces) 0 (none, false)
    done (moves_of found)
