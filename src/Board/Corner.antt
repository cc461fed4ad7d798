-- ===== src/Board/Corner.antt =====
-- The panic of `check_move` at square 28, carried up to the functions that the window calls.
use psychic_fiesta.Prelude.{
  ℕ, zero, suc, ◌+◌, ◌≤◌, Bool, true, false, not, ◌&&◌, ◌||◌, Option, none, some,
}
use psychic_fiesta.Prelude.{List, [], ◌∷◌, ◌++◌, ◌≡◌, ◌⊎◌, inl, inr, ◌∙◌, arith, ap}
use psychic_fiesta.Prelude.{get_elem?, length, get_elem?-total, ◌==◌, Bool-cases}
use psychic_fiesta.Prelude.Outcome.{Outcome, done, panic, ◌>>=◌}
use psychic_fiesta.Game.{PieceColor, color_eq, get_opposite, PieceData, Move, Direction}
use psychic_fiesta.Game.{up_right, up_left, down_left, down_right}
use psychic_fiesta.Legal.{Pieces, Found, check_move}
use psychic_fiesta.Legal.Spec.{Describes}
use psychic_fiesta.Legal.Sound.{check_move-Safe}
use psychic_fiesta.Legal.Ends.{check_move-Ends, active_count-le-length, rows_left-le}
use psychic_fiesta.Legal.Panics.{check_move-panic}
use psychic_fiesta.Legal.Total.{done_or_panic}
use psychic_fiesta.Rows.{VecModel}
use psychic_fiesta.Board.{Board, BoardSquare}
use psychic_fiesta.Board.Moves.{gather_directions, gather_found, finish_found, check_fuel, mover}
use psychic_fiesta.Board.Moves.{legal_from, get_legal_moves_piece, legal_turn, legal_loop}
use psychic_fiesta.Board.Moves.{get_legal_moves}
use psychic_fiesta.Board.OnePiece.{get_legal_moves_piece-legal_from}
use psychic_fiesta.Board.AllPieces.{legal_turn-Safe}

gather_directions-panic :
    (call : Direction → Outcome Found)
    → ((d : Direction) → ((a : Found) × (call d ≡ done a)) ⊎ (call d ≡ panic))
    → (before : List Direction) (d : Direction) (after : List Direction) → call d ≡ panic
    → (acc : Option (List Move) × Bool) → gather_directions call (before ++ (d ∷ after)) acc ≡ panic
unfolding gather_directions
gather_directions-panic call h [] d after e acc = rw e
gather_directions-panic call h (x ∷ before) d after e acc = elim (h x) [
  | inr p ↦ rw p
  | inl (a, p) ↦ rw p (gather_directions-panic call h before d after e (gather_found a acc))
]

-- A king, and a piece that is not the player's, may move down.
may_go_down :
    (player piece : PieceColor) (is_king : Bool)
    → (is_king ≡ true) ⊎ (color_eq piece player ≡ false)
    → not is_king
        && ((true && not (color_eq player (get_opposite piece)))
            || (false && not (not (color_eq player (get_opposite piece)))))
      ≡ false
may_go_down player piece is_king h = ground arith

module _ (pv : VecModel PieceData) (sv : VecModel BoardSquare) (b : Board pv sv)
    (size : length (pv.contents b.pieces) ≡ 32) (piece : PieceData)
    (at : get_elem? (pv.contents b.pieces) 28 ≡ some piece) (active : piece.is_active ≡ true) where
  abbrev board : Pieces
  board = pv.contents b.pieces

  abbrev looked : Direction → Outcome Found
  looked d = check_move check_fuel (mover pv sv b 28 piece) board 28 piece.is_king d false

  looked-cases : (d : Direction) → ((a : Found) × (looked d ≡ done a)) ⊎ (looked d ≡ panic)
  looked-cases d =
      let m = mover pv sv b 28 piece in
      done_or_panic (Describes m board) (looked d)
        (check_move-Safe check_fuel m board 28 piece.is_king d false (λ e. cc))
        (check_move-Ends check_fuel m board 28 piece.is_king d false size (omega arith) (λ e. cc)
          (omega (arith, active_count-le-length board, rows_left-le d 28 (omega arith))))

  -- `get_legal_moves_piece` panics on square 28 of every board of 32 rows, if an active king
  -- stands there or an active piece of the other side.
  pub get_legal_moves_piece-corner :
      (piece.is_king ≡ true) ⊎ (color_eq piece.color b.player_color ≡ false)
      → get_legal_moves_piece pv sv b 28 ≡ panic
  unfolding legal_from
  get_legal_moves_piece-corner h =
      get_legal_moves_piece-legal_from pv sv b size 28 piece at active
      ∙ ap (λ r. r >>= λ g. done (finish_found g))
          (gather_directions-panic looked looked-cases (up_right ∷ up_left ∷ []) down_left
            (down_right ∷ [])
            (check_move-panic 271 (mover pv sv b 28 piece) board piece.is_king false size
              (may_go_down b.player_color piece.color piece.is_king h))
            (none, false))

  module _ (king : piece.is_king ≡ true) (own : color_eq piece.color b.player_color ≡ true) where
    legal_turn-corner : (acc : Option (List Move) × Bool) → legal_turn pv sv b 28 piece acc ≡ panic
    unfolding legal_turn
    legal_turn-corner acc = rw (own, get_legal_moves_piece-corner (inl king))

    legal_loop-corner :
        (n index : ℕ) (acc : Option (List Move) × Bool)
        → index + n ≡ 32
        → index ≤ 28
        → legal_loop pv sv b n index acc ≡ panic
    unfolding legal_loop
    legal_loop-corner zero index acc h le = absurd (omega arith)
    legal_loop-corner (suc n) index acc h le = elim (Bool-cases (index == 28)) [
      | inl same ↦
          let here : index ≡ 28 = ground arith in
          rw here (rw (pv.row_data_lem b.pieces 28 ∙ at, legal_loop, legal_turn-corner acc))
      | inr other ↦
          let (p, e) = get_elem?-total board index (omega arith) in
          let read = pv.row_data_lem b.pieces index ∙ e in
          let (safe, ends) = legal_turn-Safe pv sv b size index p acc e in
          elim (done_or_panic _ (legal_turn pv sv b index p acc) safe ends) [
            | inr q ↦ rw (read, legal_loop, q)
            | inl (acc', q) ↦
                rw (read, legal_loop, q)
                  (legal_loop-corner n (index + 1) acc' (omega arith) (ground arith))
          ]
    ]

    -- `get_legal_moves` panics on every board of 32 rows on which the player has an active king on
    -- square 28.
    pub get_legal_moves-corner : get_legal_moves pv sv b ≡ panic
    unfolding get_legal_moves
    get_legal_moves-corner = rw (
      pv.row_count_lem b.pieces,
      size,
      legal_loop-corner 32 0 (none, false) (omega arith) (omega arith),
    )
