-- ===== src/Board.antt =====
-- src/game/board.rs: the `Board` and its operations, over the two `VecModel`s of its rows. The
-- static `BOARD_MOVE` is a state of its own, read and written under its lock.
pub mod Tests
mod Runs
pub mod Moves
pub mod Gather
pub mod Labelled
pub mod OnePiece
pub mod AllPieces
pub mod Corner
pub mod Counts
pub mod Setup
pub mod Perform
pub mod Conserve
pub mod Returns
pub mod Complete
pub mod Lawful
pub mod AllLawful
pub mod Inside
use psychic_fiesta.Prelude.{ℕ, zero, suc, ◌+◌, ◌-◌, ◌^◌, Bool, true, false, not, ◌&&◌, ◌||◌}
use psychic_fiesta.Prelude.{Option, none, some, List, [], ◌∷◌, ◌++◌, ltb, if◌then◌else◌}
use psychic_fiesta.Prelude.{replicate}
use psychic_fiesta.Prelude.Int.{ℤ, pos, negsuc}
use psychic_fiesta.Prelude.Outcome.{Outcome, done, panic, ◌>>=◌, or_panic}
use psychic_fiesta.Game.{PieceColor, white, color_eq, get_opposite, PieceData, const_default, Move}
use psychic_fiesta.Game.{Direction, values}
use psychic_fiesta.Legal.{Pieces, Found, Mover, only_captures, append_moves, check_move}
use psychic_fiesta.Rows.{VecModel}

-- `BoardSquare` of ui/board.slint.
pub record BoardSquare : Type 0 where
  pub marked : Bool

-- `BOARD_MOVE`.
pub record Globals : Type 0 where
  pub board_move : Move

abbrev pub initial_globals : Globals
initial_globals = record {
  board_move = record { index = 0; end = 0; promoted = false; captured = none };
}

abbrev pub set_board_move : Move → Globals → Globals
set_board_move mov g = record g { board_move = mov }

abbrev pub get_board_move : Globals → Move
get_board_move g = g.board_move

-- Whether the `Weak<GameWindow>` of the board can still be upgraded.
pub data Weak : Type 0 where
  alive dropped : Weak

-- `default_setup`: the loop `for i in 12..32`, with the rounds left.
unfoldable pub setup_loop : PieceColor → ℕ → ℕ → List PieceData → List PieceData
setup_loop player_color zero i tiles = tiles
setup_loop player_color (suc n) i tiles = setup_loop player_color n (i + 1) (
    if ltb i 20
    then tiles ++ (const_default ∷ [])
    else tiles ++ (record { is_active = true; is_king = false; color = player_color } ∷ []))

unfoldable pub default_setup : PieceColor → List PieceData
unfolding setup_loop
default_setup player_color =
    setup_loop player_color 20 12 (
      replicate 12
        (record { is_active = true; is_king = false; color = get_opposite player_color }))

module _ (pv : VecModel PieceData) (sv : VecModel BoardSquare) where
  pub record Board : Type 0 where
    pub game : Weak
    pub pieces : pv.Rows
    pub player_color : PieceColor
    pub squares : sv.Rows
    pub selected_square : ℤ
    -- The window's properties `pieces` and `squares` are the very `Rc`s of this board.
    pub pieces_shown : Bool
    pub squares_shown : Bool

  unfoldable pub new : Board
  new = record {
    game = alive;
    pieces = pv.from_vec [];
    player_color = white;
    squares = sv.from_vec (replicate 32 (record { marked = false }));
    selected_square = pos 0;
    pieces_shown = false;
    squares_shown = true;
  }

  unfoldable pub mark_loop : List ℕ → sv.Rows → Outcome sv.Rows
  mark_loop [] squares = done squares
  mark_loop (index ∷ indices) squares = do
    squares' ← sv.set_row_data squares index (record { marked = true })
    mark_loop indices squares'

  unfoldable pub mark_squares : List ℕ → Board → Outcome Board
  unfolding mark_loop
  mark_squares indices b = do
    squares ← mark_loop indices b.squares
    done (record b { squares = squares })

  -- `for index in 0..32`, with the rounds left.
  unfoldable pub reset_loop : ℕ → ℕ → sv.Rows → Outcome sv.Rows
  reset_loop zero index squares = done squares
  reset_loop (suc n) index squares = do
    squares' ← sv.set_row_data squares index (record { marked = false })
    reset_loop n (index + 1) squares'

  unfoldable pub reset_squares : Board → Outcome Board
  unfolding reset_loop
  reset_squares b = do squares ← reset_loop 32 0 b.squares; done (record b { squares = squares })

  -- `Weak::unwrap`.
  abbrev pub upgrade : Weak → Outcome (Unit {0})
  upgrade alive = done tt
  upgrade dropped = panic

  unfoldable pub start_new_game : PieceColor → Board → Outcome Board
  unfolding reset_squares
  start_new_game color b = do
    _ ← upgrade b.game
    reset_squares (record b {
      player_color = color;
      pieces = pv.from_vec (default_setup color);
      pieces_shown = true;
    })

  unfoldable pub clear_captured : List ℕ → pv.Rows → Outcome pv.Rows
  clear_captured [] pieces = done pieces
  clear_captured (piece ∷ captured) pieces = do
    pieces' ← pv.set_row_data pieces piece const_default
    clear_captured captured pieces'

  -- `if let Some(captured) = &mov.captured`.
  unfoldable pub clear_taken : Option (List ℕ) → pv.Rows → Outcome pv.Rows
  unfolding clear_captured
  clear_taken none pieces = done pieces
  clear_taken (some captured) pieces = clear_captured captured pieces

  unfoldable pub move_piece : Globals → Board → Outcome Board
  unfolding clear_taken
  move_piece g b = do
    let mov = get_board_move g
    start_data ← or_panic (pv.row_data b.pieces mov.index)
    let moved = record start_data { is_king = start_data.is_king || mov.promoted }
    p₁ ← pv.set_row_data b.pieces mov.end moved
    p₂ ← pv.set_row_data p₁ mov.index const_default
    p₃ ← clear_taken mov.captured p₂
    done (record b { pieces = p₃ })

  -- `assert!(index < row_count)`, and the row.
  abbrev pub asserted_row : Board → ℕ → Outcome PieceData
  asserted_row b index =
      if ltb index (pv.row_count b.pieces) then or_panic (pv.row_data b.pieces index) else panic

  unfoldable pub piece_is_empty : Board → ℕ → Outcome Bool
  piece_is_empty b index = do piece ← asserted_row b index; done (not piece.is_active)

  unfoldable pub piece_is_player : Board → ℕ → Outcome Bool
  piece_is_player b index = do
    piece ← asserted_row b index
    done (color_eq piece.color b.player_color && piece.is_active)

  unfoldable pub piece_is_enemy : Board → ℕ → Outcome Bool
  piece_is_enemy b index = do
    piece ← asserted_row b index
    done (not (color_eq piece.color b.player_color) && piece.is_active)

  -- `for i in 0..32 { count += test(i) as u8 }`, with the rounds left; at most 32 fits a u8.
  unfoldable pub count_loop : (ℕ → Outcome Bool) → ℕ → ℕ → ℕ → Outcome ℕ
  count_loop test zero i count = done count
  count_loop test (suc n) i count = do
    b ← test i
    count_loop test n (i + 1) (if b then count + 1 else count)

  unfoldable pub get_player_piece_count : Board → Outcome ℕ
  unfolding count_loop piece_is_player
  get_player_piece_count b = count_loop (piece_is_player b) 32 0 0

  unfoldable pub get_enemy_piece_count : Board → Outcome ℕ
  unfolding count_loop piece_is_enemy
  get_enemy_piece_count b = count_loop (piece_is_enemy b) 32 0 0

  unfoldable pub get_empty_piece_count : Board → Outcome ℕ
  unfolding count_loop piece_is_empty
  get_empty_piece_count b = count_loop (piece_is_empty b) 32 0 0
