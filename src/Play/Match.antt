-- ===== src/Play/Match.antt =====
-- A game that receives the other player's move.
use psychic_fiesta.Prelude.{◌-◌, ◌<◌, Bool, true, some}
use psychic_fiesta.Prelude.{◌≡◌, refl, sym, ◌∙◌, All, get_elem?}
use psychic_fiesta.Prelude.Outcome.{done}
use psychic_fiesta.Game.{PieceData, Move, move_piece}
use psychic_fiesta.Game.Reverse.{IsOnBoard, mirrored, mirrored_move, mirrored-inside}
use psychic_fiesta.Legal.{Pieces}
use psychic_fiesta.Rows.{VecModel}
use psychic_fiesta.Board.{BoardSquare}
use psychic_fiesta.Board.Perform.{moved, taken_squares, move_piece_lem}
use psychic_fiesta.Play.{GameData, opponent_acts}
use psychic_fiesta.Play.Opponent.{opponent_acts-mirrored}
use psychic_fiesta.Play.Mirrored.{Mirrored, captured_mirrored-inside, moved-Mirrored}
use mathlib.Core.Path.{subst}

module _ (pv : VecModel PieceData) (sv : VecModel BoardSquare) where
  abbrev pub pieces_of : GameData pv sv → Pieces
  pieces_of s = pv.contents s.board.pieces

  -- A game receives the opponent's move, while its board mirrors the one `xs` on which the move was
  -- made: it is performed, with overflow checks or not, the boards are mirrored again, and the
  -- player has the turn, and one task less waits.
  pub opponent_acts-Mirrored :
      (checks : Bool) (mov : Move) (p : PieceData) (xs : Pieces) (t : GameData pv sv)
      → Mirrored xs (pieces_of t)
      → IsOnBoard mov
      → get_elem? xs mov.index ≡ some p
      → (t' : GameData pv sv) × (opponent_acts pv sv checks (move_piece mov) t ≡ done t')
        × Mirrored (moved mov p xs) (pieces_of t')
        × (t'.is_player_turn ≡ true)
        × (t'.waiting ≡ t.waiting - 1)
  opponent_acts-Mirrored checks mov p xs t (size, size', same) (hi, he, hc) at =
      let at' : get_elem? (pieces_of t) (mirrored mov.index) ≡ some p = same mov.index hi ∙ at in
      let (b, e, c) =
        move_piece_lem pv sv (record { board_move = mirrored_move mov }) t.board p at'
          (rw size' (mirrored-inside mov.end))
          (subst (λ n. All (λ x. x < n) (taken_squares (mirrored_move mov))) (sym size')
            (captured_mirrored-inside mov.captured)) in
      let kept = moved-Mirrored mov p xs (pieces_of t) (hi, he, hc) (size, size', same) in
      (
        record t {
          board = b;
          is_player_turn = true;
          globals = record { board_move = mirrored_move mov };
          waiting = t.waiting - 1;
        },
        opponent_acts-mirrored pv sv checks mov t (hi, he, hc) ∙ rw e refl,
        subst (Mirrored _) (sym c) kept,
        refl,
        refl,
      )
