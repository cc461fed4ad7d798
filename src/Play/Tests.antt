-- ===== src/Play/Tests.antt =====
-- Clicks on a small board.
use psychic_fiesta.Prelude.{ℕ, true, false, none, some, inl, inr, [], ◌∷◌, ◌≡◌, refl, length}
use psychic_fiesta.Prelude.Int.{pos}
use psychic_fiesta.Prelude.Outcome.{Outcome, done, ◌>>=◌}
use psychic_fiesta.Game.{move_piece, Move, white}
use psychic_fiesta.Legal.Rules.{Legal}
use psychic_fiesta.Legal.{check_move, check_body, at_tile, take_piece, step_to, only_captures}
use psychic_fiesta.Board
use psychic_fiesta.Board.{default_setup, initial_globals, piece_is_player}
use psychic_fiesta.Board.Moves.{get_legal_moves}
use psychic_fiesta.Board.Tests.{pv, sv, jumping, jump, with_pieces, man}
use psychic_fiesta.Board.AllLawful.{get_legal_moves-Legal}
use psychic_fiesta.Prelude.Holds.{Holds, Holds-done}
use psychic_fiesta.Play.{GameData, on_board_clicked, play_loop, mark_moves}
use psychic_fiesta.Play.Plays.{PlaysLegal, on_board_clicked-plays}
use psychic_fiesta.Play.Clicks.{Clicked, on_board_clicked-Clicked}

-- The man on 22 is selected, and it is the player's turn.
abbrev selected : GameData pv sv
selected = record {
  board = record jumping { selected_square = pos 22 };
  is_player_turn = true;
  globals = initial_globals;
  sent = [];
  waiting = 0;
}

abbrev after_click : Outcome (GameData pv sv)
after_click = on_board_clicked pv sv (pos 13) selected

sent_jump : (after_click >>= λ s. done s.sent) ≡ done (move_piece jump ∷ [])
unfolding on_board_clicked piece_is_player get_legal_moves check_move check_body at_tile take_piece
    step_to only_captures play_loop Board.move_piece mark_moves Board.reset_squares
    Board.mark_squares
sent_jump = refl

on_board_clicked-Clicked_example :
    Holds (Clicked pv sv (pos 13) selected) (on_board_clicked pv sv (pos 13) selected)
on_board_clicked-Clicked_example = on_board_clicked-Clicked pv sv (pos 13) selected

-- In the opening the man on 20 is selected.
abbrev opened : GameData pv sv
opened = record selected {
  board = record (with_pieces (default_setup white)) { selected_square = pos 20 };
}

abbrev quiet : ℕ → ℕ → Move
quiet i n = record { index = i; end = n; promoted = false; captured = none }

opened_moves :
    get_legal_moves pv sv opened.board
    ≡ done (
        some (
          quiet 20 17
          ∷ quiet 20 16
          ∷ quiet 21 18
          ∷ quiet 21 17
          ∷ quiet 22 19
          ∷ quiet 22 18
          ∷ quiet 23 19
          ∷ []))
unfolding get_legal_moves check_move check_body at_tile take_piece step_to only_captures
    default_setup
opened_moves = refl

opened_size : length (pv.contents opened.board.pieces) ≡ 32
unfolding default_setup
opened_size = refl

advance-Legal : Legal white (default_setup white) (quiet 20 16)
advance-Legal =
    (Holds-done _ _ _ (get_legal_moves-Legal pv sv opened.board opened_size) opened_moves
        (quiet 20 16)).0
      (inr (inl refl))

on_board_clicked-plays_example : PlaysLegal pv sv opened (pos 16)
unfolding default_setup
on_board_clicked-plays_example =
    on_board_clicked-plays pv sv opened (pos 16) (man white) (quiet 20 16) opened_size refl refl
      refl refl refl advance-Legal refl refl
