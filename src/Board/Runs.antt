-- ===== src/Board/Runs.antt =====
-- Moves, counts, new games and the corner, on boards over lists.
use psychic_fiesta.Prelude.{◌+◌, true, some, List, [], ◌∷◌, set}
use psychic_fiesta.Prelude.{◌≡◌, refl, arith, get_elem?, inl}
use psychic_fiesta.Prelude.Outcome.{done, panic}
use psychic_fiesta.Game.{white, black, const_default, Move}
use psychic_fiesta.Legal.Spec.{IsCapture}
use psychic_fiesta.Legal.Ends.{active_count}
use psychic_fiesta.Board.{Board, default_setup, start_new_game, move_piece}
use psychic_fiesta.Board.{get_player_piece_count, get_enemy_piece_count, get_empty_piece_count}
use psychic_fiesta.Board.Moves.{get_legal_moves}
use psychic_fiesta.Board.AllPieces.{Owned}
use psychic_fiesta.Board.Corner.{get_legal_moves-corner}
use psychic_fiesta.Board.Setup.{default_setup_counts, start_new_game_lem, unmarked}
use psychic_fiesta.Board.Perform.{moved}
use psychic_fiesta.Board.Conserve.{requested, move_piece-performs, move_piece-capture}
use psychic_fiesta.Legal.Rules.{Legal}
use psychic_fiesta.Board.Gather.{moves_or_nil}
use psychic_fiesta.Board.AllLawful.{get_legal_moves-lawful}
use psychic_fiesta.Legal.Listing.{Listed}
use psychic_fiesta.Prelude.{◌↔◌}
use psychic_fiesta.Prelude.{Option}
use psychic_fiesta.Board.Tests.{pv, sv, with_pieces, man, king, one_jump, jumping, jump}

abbrev own_jump : Owned pv sv jumping refl IsCapture jump
own_jump = (
  man white,
  refl,
  refl,
  refl,
  record {
    squares = 18 ∷ [];
    taken = refl;
    some_taken = λ e. cc;
    enemies = ((man black, refl, refl, refl), tt);
    distinct = (tt, tt);
    from = refl;
    lands = inl (const_default, refl, refl);
  },
)

move_piece-performs_example :
    (b' : Board pv sv) × (move_piece pv sv (requested jump) jumping ≡ done b')
    × (b'.pieces ≡ moved jump (man white) one_jump)
move_piece-performs_example = move_piece-performs pv sv jumping refl jump own_jump

move_piece-capture_example :
    (b' : Board pv sv) × (move_piece pv sv (requested jump) jumping ≡ done b')
    × (active_count b'.pieces + 1 ≡ 3)
move_piece-capture_example =
    move_piece-capture pv sv jumping refl jump own_jump (const_default, refl, refl)

abbrev cornered : Board pv sv
cornered = with_pieces (set one_jump 28 king)

get_legal_moves-corner_example : get_legal_moves pv sv cornered ≡ panic
get_legal_moves-corner_example = get_legal_moves-corner pv sv cornered refl king refl refl refl refl

start_new_game_lem_example :
    (b' : Board pv sv) × (start_new_game pv sv black jumping ≡ done b')
    × (b'.pieces ≡ default_setup black)
    × (b'.player_color ≡ black)
    × (b'.pieces_shown ≡ true)
    × (get_player_piece_count pv sv b' ≡ done 12)
    × (get_enemy_piece_count pv sv b' ≡ done 12)
    × (get_empty_piece_count pv sv b' ≡ done 8)
    × (get_elem? b'.squares 5 ≡ some unmarked)
start_new_game_lem_example = start_new_game_lem pv sv black jumping 5 refl refl (omega arith)

abbrev opening : Board pv sv
opening = with_pieces (default_setup white)

get_legal_moves-lawful_example :
    (moves : Option (List Move)) × (get_legal_moves pv sv opening ≡ done moves)
    × ((mov : Move) → Listed mov (moves_or_nil moves) ↔ Legal white (default_setup white) mov)
unfolding default_setup
get_legal_moves-lawful_example =
    get_legal_moves-lawful pv sv opening (default_setup_counts white).0 (man white) refl refl refl
      refl
