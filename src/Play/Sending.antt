-- ===== src/Play/Sending.antt =====
-- The moves that `get_legal_moves` offers can be performed, and the loop of a click performs and sends
-- the first one between the two squares.
use psychic_fiesta.Prelude.{ℕ, ◌+◌, true, false, ◌&&◌, some, ◌==◌, Bool-cases}
use psychic_fiesta.Prelude.{List, [], ◌∷◌, ◌++◌, ◌≡◌, inl, inr, refl, ap, ◌∙◌, arith}
use psychic_fiesta.Prelude.{All, length, get_elem?, get_elem?-lt, lt→ltb}
use psychic_fiesta.Prelude.Int.{ℤ}
use psychic_fiesta.Prelude.Outcome.{done}
use psychic_fiesta.Game.{PieceColor, white, black, color_eq, PieceData, Move, move_piece}
use psychic_fiesta.Legal.Spec.{IsCapture, IsQuiet}
use psychic_fiesta.Legal.Listing.{Listed}
use psychic_fiesta.Rows.{VecModel}
use psychic_fiesta.Board
use psychic_fiesta.Board.{Board, BoardSquare, piece_is_player}
use psychic_fiesta.Board.AllPieces.{Owned, Offered}
use psychic_fiesta.Board.Perform.{moved}
use psychic_fiesta.Board.Conserve.{requested, move_piece-performs, move_piece-quiet}
use psychic_fiesta.Play.{GameData, as_usize, select, on_move_piece, play_move, play_loop}

color_eq_refl : (a : PieceColor) → color_eq a a ≡ true
color_eq_refl white = refl
color_eq_refl black = refl

module _ (pv : VecModel PieceData) (sv : VecModel BoardSquare) where
  -- `move_piece` returns for the move, and the pieces are then those of `moved`.
  abbrev pub Performs : Board pv sv → Move → Type 0
  Performs b mov =
      (p : PieceData) × (get_elem? (pv.contents b.pieces) mov.index ≡ some p)
      × (b' : Board pv sv) × (Board.move_piece pv sv (requested mov) b ≡ done b')
      × (pv.contents b'.pieces ≡ moved mov p (pv.contents b.pieces))

  -- The move is one of an active piece of the player.
  abbrev pub OwnStart : Board pv sv → Move → Type 0
  OwnStart b mov =
      (p : PieceData) × (get_elem? (pv.contents b.pieces) mov.index ≡ some p)
      × (p.is_active ≡ true)
      × (p.color ≡ b.player_color)

  module _ (b : Board pv sv) (size : length (pv.contents b.pieces) ≡ 32) where
    captures-ready :
        (moves : List Move)
        → All (Owned pv sv b size IsCapture) moves
        → All (λ mov. Performs b mov × OwnStart b mov) moves
    captures-ready [] h = tt
    captures-ready (mov ∷ moves) (o, h) =
        let (b', e, k) = move_piece-performs pv sv b size mov o in
        (((o.0, o.1, b', e, k), (o.0, o.1, o.2, o.3)), captures-ready moves h)

    quiets-ready :
        (moves : List Move)
        → All (Owned pv sv b size IsQuiet) moves
        → All (λ mov. Performs b mov × OwnStart b mov) moves
    quiets-ready [] h = tt
    quiets-ready (mov ∷ moves) (o, h) =
        let (b', e, k, _) = move_piece-quiet pv sv b size mov o in
        (((o.0, o.1, b', e, k), (o.0, o.1, o.2, o.3)), quiets-ready moves h)

    pub Offered-ready :
        (moves : List Move)
        → Offered pv sv b size (some moves)
        → All (λ mov. Performs b mov × OwnStart b mov) moves
    Offered-ready moves (inl h, _) = captures-ready moves h
    Offered-ready moves (inr h, _) = quiets-ready moves h

  -- From the pieces of the first state to those of the second the move was performed: its piece, a king
  -- if it was one or is promoted, stands at the end, and the start and the taken squares are empty.
  abbrev pub IsPerformed : Move → GameData pv sv → GameData pv sv → Type 0
  IsPerformed mov s s' =
      (p : PieceData) × (get_elem? (pv.contents s.board.pieces) mov.index ≡ some p)
      × (pv.contents s'.board.pieces ≡ moved mov p (pv.contents s.board.pieces))

  -- A move of the list from the selected square to the clicked one was performed and sent, and the turn
  -- is over.
  abbrev pub Sent : ℤ → ℕ → List Move → GameData pv sv → GameData pv sv → Type 0
  Sent index selected moves s s' =
      (mov : Move) × Listed mov moves
      × (mov.end ≡ as_usize index)
      × (mov.index ≡ selected)
      × IsPerformed mov s s'
      × (s'.sent ≡ s.sent ++ (move_piece mov ∷ []))
      × (s'.is_player_turn ≡ false)

  play_move-Sent :
      (index : ℤ) (mov : Move) (s : GameData pv sv)
      → Performs (record s.board { selected_square = index }) mov
      → (s' : GameData pv sv) × (play_move pv sv mov (select pv sv index s) ≡ done s')
        × IsPerformed mov s s'
        × (s'.sent ≡ s.sent ++ (move_piece mov ∷ []))
        × (s'.is_player_turn ≡ false)
  unfolding play_move on_move_piece
  play_move-Sent index mov s (p, at, b, e, k) = (
    record s {
      board = b;
      is_player_turn = false;
      globals = requested mov;
      sent = s.sent ++ (move_piece mov ∷ []);
      waiting = s.waiting + 1;
    },
    rw e refl,
    (p, at, k),
    refl,
    refl,
  )

  pub play_loop-Sent :
      (index : ℤ) (selected : ℕ) (moves : List Move) (s : GameData pv sv)
      → All (λ mov. Performs (record s.board { selected_square = index }) mov) moves
      → (mov : Move) → Listed mov moves
      → mov.end ≡ as_usize index
      → mov.index ≡ selected
      → (s' : GameData pv sv) × (play_loop pv sv index selected moves s ≡ done s')
        × Sent index selected moves s s'
  unfolding play_loop
  play_loop-Sent index selected [] s ready mov l to from = absurd l
  play_loop-Sent index selected (x ∷ moves) s (now, ready) mov l to from =
      elim (Bool-cases (x.end == as_usize index && x.index == selected)) [
        | inl hit ↦
            let (s', e, performed, sent, over) = play_move-Sent index x s now in
            (s', rw hit e, (x, inl refl, ground arith, ground arith, performed, sent, over))
        | inr miss ↦ elim l [
          | inl same ↦ absurd (ground (arith, ap (λ y. y.end) same, ap (λ y. y.index) same))
          | inr later ↦
              let (s', e, (y, ly, to', from', performed, sent, over)) =
                play_loop-Sent index selected moves (select pv sv index s) ready mov later to
                  from in
              (s', rw miss e, (y, inr ly, to', from', performed, sent, over))
        ]
      ]

  pub piece_is_player-own :
      (b : Board pv sv) (mov : Move)
      → OwnStart b mov
      → piece_is_player pv sv b mov.index ≡ done true
  unfolding piece_is_player
  piece_is_player-own b mov (p, at, active, own) =
      rw
        (
          pv.row_count_lem b.pieces,
          lt→ltb mov.index (length (pv.contents b.pieces))
              (get_elem?-lt (pv.contents b.pieces) mov.index at),
          pv.row_data_lem b.pieces mov.index ∙ at,
          own,
          active,
          color_eq_refl b.player_color,
        )
        refl
