-- ===== src/Play.antt =====
-- src/game/data.rs: what a click and the opponent's action do to the game's data. The
-- window's callback `move-piece` is `on_move_piece`, as src/bin/game.rs connects it. `sent` logs the
-- actions given to the network, and `waiting` counts the tasks that wait for the opponent; such a
-- task sets the move and the window performs it, in one step here. The field `window` is left out,
-- and `is_host`, which nothing reads.
pub mod Clicks
pub mod Opponent
pub mod Mirrored
pub mod Match
pub mod Turns
pub mod Reached
pub mod Colors
pub mod Rules
pub mod Positions
pub mod Refines
pub mod Sending
pub mod Plays
mod Tests
mod MatchTests
use psychic_fiesta.Prelude.{ℕ, ◌+◌, ◌-◌, ◌^◌, Bool, true, false, not, ◌&&◌, Option, none, some}
use psychic_fiesta.Prelude.{List, [], ◌∷◌, ◌++◌, map, if◌then◌else◌, ◌==◌}
use psychic_fiesta.Prelude.Int.{ℤ, pos, negsuc}
use psychic_fiesta.Prelude.Outcome.{Outcome, done, ◌>>=◌}
use psychic_fiesta.Game.{PieceData, Move, reverse, GameAction, move_piece, stalemate, surrender}
use psychic_fiesta.Rows.{VecModel}
use psychic_fiesta.Board
use psychic_fiesta.Board.{Board, BoardSquare, Globals, set_board_move, piece_is_player}
use psychic_fiesta.Board.{reset_squares, mark_squares}
use psychic_fiesta.Board.Moves.{get_legal_moves, get_legal_moves_piece}

-- `as usize` on an `i32`.
abbrev pub as_usize : ℤ → ℕ
as_usize (pos n) = n
as_usize (negsuc n) = 2 ^ 64 - 1 - n

module _ (pv : VecModel PieceData) (sv : VecModel BoardSquare) where
  pub record GameData : Type 0 where
    pub board : Board pv sv
    pub is_player_turn : Bool
    pub globals : Globals
    pub sent : List GameAction
    pub waiting : ℕ

  unfoldable pub on_move_piece : GameData → Outcome GameData
  on_move_piece s = do
    board ← Board.move_piece pv sv s.globals s.board
    done (record s { board = board; is_player_turn = true })

  abbrev pub wait_for_opponent : GameData → GameData
  wait_for_opponent s = record s { is_player_turn = false; waiting = s.waiting + 1 }

  abbrev pub select : ℤ → GameData → GameData
  select index s = record s { board = record s.board { selected_square = index } }

  -- The move chosen is performed, sent, and the opponent waited for.
  unfoldable pub play_move : Move → GameData → Outcome GameData
  unfolding on_move_piece
  play_move mov s = do
    s' ← on_move_piece (record s { globals = set_board_move mov s.globals })
    done (wait_for_opponent (record s' { sent = s'.sent ++ (move_piece mov ∷ []) }))

  -- The loop over the legal moves, up to the first from the selected square to the clicked one.
  unfoldable pub play_loop : ℤ → ℕ → List Move → GameData → Outcome GameData
  unfolding play_move
  play_loop index selected_piece [] s = done s
  play_loop index selected_piece (mov ∷ moves) s =
      let rest = play_loop index selected_piece moves (select index s) in
      if mov.end == as_usize index && mov.index == selected_piece
      then play_move mov (select index s)
      else rest

  abbrev pub play_from : ℤ → ℕ → Option (List Move) → GameData → Outcome GameData
  play_from index selected_piece none s = done s
  play_from index selected_piece (some moves) s = play_loop index selected_piece moves s

  -- The marks are those of the moves of the piece on the clicked square.
  unfoldable pub mark_moves : ℤ → GameData → Outcome GameData
  mark_moves index s = do
    clean ← reset_squares pv sv s.board
    found ← get_legal_moves_piece pv sv clean (as_usize index)
    board ← elim found [
      | none ↦ done clean
      | some (moves, _) ↦ mark_squares pv sv (map (λ mov. mov.end) moves) clean
    ]
    done (record s { board = record board { selected_square = index } })

  abbrev pub play_if : Bool → ℤ → ℕ → GameData → Outcome GameData
  play_if false index selected_piece s = done s
  play_if true index selected_piece s =
      get_legal_moves pv sv s.board >>= λ legal. play_from index selected_piece legal s

  unfoldable pub on_board_clicked : ℤ → GameData → Outcome GameData
  unfolding play_loop mark_moves
  on_board_clicked index s =
      let selected_piece = as_usize s.board.selected_square in
      if not s.is_player_turn
      then done s
      else (piece_is_player pv sv s.board selected_piece >>= λ own.
          play_if own index selected_piece s >>= λ s'. mark_moves index s')

  -- The waiting task receives an action; one that is no move ends it.
  unfoldable pub opponent_acts : Bool → GameAction → GameData → Outcome GameData
  unfolding on_move_piece
  opponent_acts checks (move_piece mov) s = do
    reversed ← reverse checks mov
    on_move_piece
        (record s { globals = set_board_move reversed s.globals; waiting = s.waiting - 1 })
  opponent_acts checks stalemate s = done (record s { waiting = s.waiting - 1 })
  opponent_acts checks surrender s = done (record s { waiting = s.waiting - 1 })
