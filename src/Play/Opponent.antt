-- ===== src/Play/Opponent.antt =====
-- What the opponent's move does.
use psychic_fiesta.Prelude.{◌-◌, Bool, true, ◌≡◌, refl}
use psychic_fiesta.Prelude.Outcome.{done, ◌>>=◌}
use psychic_fiesta.Game.{PieceData, Move, move_piece}
use psychic_fiesta.Game.Reverse.{IsOnBoard, mirrored_move, reverse-mirrored}
use psychic_fiesta.Rows.{VecModel}
use psychic_fiesta.Board
use psychic_fiesta.Board.{BoardSquare}
use psychic_fiesta.Play.{GameData, on_move_piece, opponent_acts}

-- A move of the opponent that stays on the board is performed with every square `i` replaced by
-- `31 - i`, with and without overflow checks; the turn is then the player's.
pub opponent_acts-mirrored :
    (pv : VecModel PieceData) (sv : VecModel BoardSquare) (checks : Bool) (mov : Move)
    (s : GameData pv sv)
    → IsOnBoard mov
    → opponent_acts pv sv checks (move_piece mov) s ≡ (
        Board.move_piece pv sv (record { board_move = mirrored_move mov }) s.board >>= λ b.
        done (record s {
          board = b;
          is_player_turn = true;
          globals = record { board_move = mirrored_move mov };
          waiting = s.waiting - 1;
        }))
unfolding opponent_acts on_move_piece
opponent_acts-mirrored pv sv checks mov s h = rw (reverse-mirrored checks mov h) refl
