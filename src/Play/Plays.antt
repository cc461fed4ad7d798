-- ===== src/Play/Plays.antt =====
-- A click plays: where the selected piece has a legal move to the clicked square, one is performed and
-- sent.
use psychic_fiesta.Prelude.{ℕ, true, false, Option, none, some}
use psychic_fiesta.Prelude.{List, [], ◌∷◌, ◌++◌, ◌≡◌, ◌↔◌, refl, ap, ◌∙◌}
use psychic_fiesta.Prelude.{All, length, get_elem?}
use psychic_fiesta.Prelude.Int.{ℤ}
use psychic_fiesta.Prelude.Outcome.{done, ◌>>=◌}
use psychic_fiesta.Prelude.Holds.{Holds, Holds-done}
use psychic_fiesta.Game.{color_eq, PieceData, Move, move_piece}
use psychic_fiesta.Legal.Listing.{Listed}
use psychic_fiesta.Legal.Rules.{Legal}
use psychic_fiesta.Rows.{VecModel}
use psychic_fiesta.Board.{BoardSquare, piece_is_player}
use psychic_fiesta.Board.Moves.{get_legal_moves}
use psychic_fiesta.Board.AllPieces.{Offered}
use psychic_fiesta.Board.Returns.{get_legal_moves-returns}
use psychic_fiesta.Board.AllLawful.{get_legal_moves-Legal}
use psychic_fiesta.Board.Gather.{moves_or_nil}
use psychic_fiesta.Play.{GameData, as_usize, play_loop}
use psychic_fiesta.Play.Turns.{Listed-All}
use psychic_fiesta.Play.Clicks.{Marked, mark_moves-Holds}
use mathlib.Core.Path.{subst}
use psychic_fiesta.Play.Sending.{
  Performs, OwnStart, IsPerformed, Sent, Offered-ready, play_loop-Sent, piece_is_player-own,
}
use psychic_fiesta.Play.{mark_moves, on_board_clicked}

module _ (pv : VecModel PieceData) (sv : VecModel BoardSquare) where
  performs-only :
      (P Q : Move → Type 0) (moves : List Move) → All (λ mov. P mov × Q mov) moves → All P moves
  performs-only P Q [] h = tt
  performs-only P Q (mov ∷ moves) h = (h.0.0, performs-only P Q moves h.1)

  module _ (s : GameData pv sv) (index : ℤ) where
    abbrev selected : ℕ
    selected = as_usize s.board.selected_square

    -- The loop over the moves offered, as the click reaches it.
    clicked-loop :
        (moves : List Move)
        → s.is_player_turn ≡ true
        → piece_is_player pv sv s.board selected ≡ done true
        → get_legal_moves pv sv s.board ≡ done (some moves)
        → on_board_clicked pv sv index s
          ≡ (play_loop pv sv index selected moves s >>= λ s'. mark_moves pv sv index s')
    unfolding on_board_clicked
    clicked-loop moves mine own legal = rw (mine, own, legal) refl

    Offered-plays :
        (moves : List Move) (mov : Move)
        → (size : length (pv.contents s.board.pieces) ≡ 32)
        → Offered pv sv s.board size (some moves)
        → get_legal_moves pv sv s.board ≡ done (some moves)
        → s.is_player_turn ≡ true
        → Listed mov moves
        → mov.end ≡ as_usize index
        → mov.index ≡ selected
        → (s' : GameData pv sv) × (on_board_clicked pv sv index s ≡ mark_moves pv sv index s')
          × Sent pv sv index selected moves s s'
    Offered-plays moves mov size offer legal mine l to from =
        let b = record s.board { selected_square = index } in
        let ready = Offered-ready pv sv b size moves offer in
        let (_, own) = Listed-All _ mov moves l ready in
        let (s', e, sent) =
          play_loop-Sent pv sv index selected moves s
            (performs-only (Performs pv sv b) (OwnStart pv sv b) moves ready) mov l to from in
        (
          s',
          clicked-loop moves mine
                (subst (λ i. piece_is_player pv sv s.board i ≡ done true) from
                  (piece_is_player-own pv sv s.board mov own))
                legal
              ∙ ap (λ r. r >>= λ t. mark_moves pv sv index t) e,
          sent,
        )

    -- The click gets as far as marking squares, which leaves the pieces, the turn and what was sent as
    -- they are; before that a legal move from the selected square to the clicked one was performed on
    -- the pieces and sent, and the turn given up.
    abbrev pub PlaysLegal : Type 0
    PlaysLegal =
        (s' : GameData pv sv) × (on_board_clicked pv sv index s ≡ mark_moves pv sv index s')
        × Holds (Marked pv sv s') (mark_moves pv sv index s')
        × (mov' : Move) × Legal s.board.player_color (pv.contents s.board.pieces) mov'
        × (mov'.index ≡ selected)
        × (mov'.end ≡ as_usize index)
        × IsPerformed pv sv mov' s s'
        × (s'.sent ≡ s.sent ++ (move_piece mov' ∷ []))
        × (s'.is_player_turn ≡ false)

    -- On the player's turn, on a board of 32 rows with an active man of the player on square 28, where
    -- the selected square and the clicked one are the start and the end of a legal move: the click
    -- does not panic before it marks squares; the pieces are then those after a legal move between these
    -- squares, that move is sent and the turn is the opponent's; the marking changes none of these.
    pub on_board_clicked-plays :
        (man : PieceData) (mov : Move)
        → length (pv.contents s.board.pieces) ≡ 32
        → get_elem? (pv.contents s.board.pieces) 28 ≡ some man
        → man.is_active ≡ true
        → man.is_king ≡ false
        → color_eq man.color s.board.player_color ≡ true
        → s.is_player_turn ≡ true
        → Legal s.board.player_color (pv.contents s.board.pieces) mov
        → mov.index ≡ selected
        → mov.end ≡ as_usize index
        → PlaysLegal
    on_board_clicked-plays man mov size at active low color mine lawful from to =
        let (found, e, offer) =
          get_legal_moves-returns pv sv s.board size man at active low color in
        let exact = Holds-done _ _ found (get_legal_moves-Legal pv sv s.board size) e in
        go found e offer exact
      where
        go :
            (found : Option (List Move))
            → get_legal_moves pv sv s.board ≡ done found
            → Offered pv sv s.board size found
            → ((m : Move)
                → Listed m (moves_or_nil found)
                  ↔ Legal s.board.player_color (pv.contents s.board.pieces) m)
            → PlaysLegal
        go none e offer exact = absurd ((exact mov).1 lawful)
        go (some moves) e offer exact =
            let (s', clicked, (m, l, to', from', performed, sent, over)) =
              Offered-plays moves mov size offer e mine ((exact mov).1 lawful) to from in
            (
              s',
              clicked,
              mark_moves-Holds pv sv index s',
              m,
              (exact m).0 l,
              from',
              to',
              performed,
              sent,
              over,
            )
