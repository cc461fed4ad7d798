-- ===== src/Board/Tests.antt =====
-- Boards over lists, and runs of the theorems on them.
use psychic_fiesta.Prelude.{true, false, some, List, [], ◌∷◌, replicate, set}
use psychic_fiesta.Prelude.{◌≡◌, refl}
use psychic_fiesta.Prelude.Int.{pos}
use psychic_fiesta.Prelude.Outcome.{done}
use psychic_fiesta.Game.{PieceColor, white, black, PieceData, const_default, Move}
use psychic_fiesta.Legal.{
  Pieces, check_move, check_body, at_tile, take_piece, step_to, only_captures,
}
use psychic_fiesta.Legal.Spec.{Safe}
use psychic_fiesta.Legal.Ends.{Ends}
use psychic_fiesta.Rows.{VecModel, list_model}
use psychic_fiesta.Board.{Board, BoardSquare, alive}
use psychic_fiesta.Board.Moves.{get_legal_moves_piece, get_legal_moves}
use psychic_fiesta.Board.AllPieces.{Offered, get_legal_moves-Offered}
use psychic_fiesta.Board.Setup.{unmarked}

abbrev pub pv : VecModel PieceData
pv = list_model PieceData

abbrev pub sv : VecModel BoardSquare
sv = list_model BoardSquare

abbrev pub no_marks : List BoardSquare
no_marks = replicate 32 unmarked

-- A board of the white player with these pieces.
abbrev pub with_pieces : Pieces → Board pv sv
with_pieces ps = record {
  game = alive;
  pieces = ps;
  player_color = white;
  squares = no_marks;
  selected_square = pos 0;
  pieces_shown = true;
  squares_shown = true;
}

abbrev pub man : PieceColor → PieceData
man c = record { is_active = true; is_king = false; color = c }

abbrev pub king : PieceData
king = record { is_active = true; is_king = true; color = white }

-- A white man on 22 can take the black one on 18; another one on 31 can only step.
abbrev pub one_jump : Pieces
one_jump = set (set (set (replicate 32 const_default) 22 (man white)) 18 (man black)) 31 (man white)

abbrev pub jumping : Board pv sv
jumping = with_pieces one_jump

abbrev pub jump : Move
jump = record { index = 22; end = 13; promoted = false; captured = some (18 ∷ []) }

get_legal_moves_piece-jump : get_legal_moves_piece pv sv jumping 22 ≡ done (some (jump ∷ [], true))
unfolding get_legal_moves_piece check_move check_body at_tile take_piece step_to only_captures
get_legal_moves_piece-jump = refl

get_legal_moves-Offered_example :
    Safe (Offered pv sv jumping refl) (get_legal_moves pv sv jumping)
    × Ends (get_legal_moves pv sv jumping)
get_legal_moves-Offered_example = get_legal_moves-Offered pv sv jumping refl
