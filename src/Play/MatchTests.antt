-- ===== src/Play/MatchTests.antt =====
-- The opening of a match: the host's white man steps from 20 to 16.
use psychic_fiesta.Prelude.{true, false, none, [], ◌∷◌, ◌≡◌, refl, set}
use psychic_fiesta.Prelude.Int.{pos}
use psychic_fiesta.Prelude.Outcome.{done}
use psychic_fiesta.Game.{Move, move_piece, white, black, const_default}
use psychic_fiesta.Legal.{check_move, check_body, at_tile, take_piece, step_to, only_captures}
use psychic_fiesta.Board
use psychic_fiesta.Board.{Board, initial_globals, piece_is_player, default_setup, start_new_game}
use psychic_fiesta.Board.Moves.{get_legal_moves}
use psychic_fiesta.Board.Tests.{pv, sv, with_pieces, man, no_marks}
use psychic_fiesta.Board.Setup.{marked}
use psychic_fiesta.Play.{GameData, on_board_clicked, play_loop, mark_moves}
use psychic_fiesta.Play.Mirrored.{Mirrored}
use psychic_fiesta.Play.Reached.{Match, host_clicks, MatchReach, starts, later, MatchInTurn}
use psychic_fiesta.Play.Refines.{InGame, MatchReach-InGame}
use psychic_fiesta.Play.Reached.{MatchReach-InTurn}

abbrev step : Move
step = record { index = 20; end = 16; promoted = false; captured = none }

-- The host has selected its man, and the client waits.
abbrev host : GameData pv sv
host = record {
  board = record (with_pieces (default_setup white)) { selected_square = pos 20 };
  is_player_turn = true;
  globals = initial_globals;
  sent = [];
  waiting = 0;
}

abbrev client : GameData pv sv
client = record {
  board = record (with_pieces (default_setup black)) { player_color = black };
  is_player_turn = false;
  globals = initial_globals;
  sent = [];
  waiting = 1;
}

abbrev opening : Match pv sv
opening = record { host = host; client = client; to_client = []; to_host = [] }

-- The host after its click on 16.
abbrev played : GameData pv sv
played = record host {
  board = record host.board {
    pieces = set (set (default_setup white) 16 (man white)) 20 const_default;
    squares = set no_marks 12 marked;
    selected_square = pos 16;
  };
  is_player_turn = false;
  globals = record { board_move = step };
  sent = move_piece step ∷ [];
  waiting = 1;
}

abbrev on_its_way : Match pv sv
on_its_way = record opening { host = played; to_client = move_piece step ∷ [] }

click : on_board_clicked pv sv (pos 16) host ≡ done played
unfolding on_board_clicked piece_is_player get_legal_moves check_move check_body at_tile take_piece
    step_to only_captures play_loop Board.move_piece mark_moves Board.reset_squares
    Board.mark_squares default_setup
click = refl

opening-MatchReach : MatchReach pv sv true opening
unfolding start_new_game Board.reset_squares default_setup
opening-MatchReach =
    starts {m = opening} (record host.board { pieces = [] }) client.board refl refl refl refl refl
      refl refl refl

on_its_way-MatchReach : MatchReach pv sv true on_its_way
on_its_way-MatchReach =
    later opening-MatchReach (host_clicks (pos 16) played (move_piece step ∷ []) click refl refl)

MatchReach-InTurn_example : MatchInTurn pv sv on_its_way
MatchReach-InTurn_example = MatchReach-InTurn pv sv true {m = on_its_way} on_its_way-MatchReach

MatchReach-InGame_example : InGame pv sv on_its_way
MatchReach-InGame_example = MatchReach-InGame pv sv true on_its_way on_its_way-MatchReach
