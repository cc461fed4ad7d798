-- ===== src/Board/OnePiece.antt =====
-- What `get_legal_moves_piece` returns, on every board of 32 rows.
use psychic_fiesta.Prelude.{
  drop-get_elem?, drop_all, ℕ, zero, suc, ◌+◌, ◌<◌, Bool, true, false, Option, none, some,
}
use psychic_fiesta.Prelude.{List, [], ◌∷◌, map, ◌≡◌, sym, ◌∙◌, arith}
use psychic_fiesta.Prelude.{All, get_elem?, length, drop, get_elem?-total}
use psychic_fiesta.Prelude.{lt→ltb, get_elem?-lt, ap}
use native.Mathlib.Numerals.{add-one}
use psychic_fiesta.Prelude.Outcome.{Outcome, done, ◌>>=◌}
use psychic_fiesta.Game.{PieceData, Move, Direction, values, up_left, up_right}
use psychic_fiesta.Game.{down_left, down_right}
use psychic_fiesta.Legal.{Pieces, Found, Mover, check_move}
use psychic_fiesta.Legal.Spec.{IsCapture, IsQuiet, Labelled, Describes, Safe, Safe-bind}
use psychic_fiesta.Legal.Sound.{check_move-Safe}
use psychic_fiesta.Legal.Ends.{
  Ends, Ends-bind, check_move-Ends, active_count-le-length, rows_left-le,
}
use psychic_fiesta.Rows.{VecModel}
use psychic_fiesta.Board.{Board, BoardSquare}
use psychic_fiesta.Board.Moves.{gather_found, finish_found, gather_directions, check_fuel, mover}
use psychic_fiesta.Board.Moves.{snapshot_loop, legal_from, get_legal_moves_piece}
use psychic_fiesta.Board.Gather.{mandatory, fold_found, Uniform}
use psychic_fiesta.Board.Gather.{fold_found-mandatory, gather_directions-fold}
use psychic_fiesta.Board.Labelled.{Labelled-Uniform, Labelled-mandatory, gather_directions-Safe}

gather_directions-Ends :
    (call : Direction → Outcome Found)
    → ((d : Direction) → Ends (call d))
    → (ds : List Direction) (acc : Option (List Move) × Bool) → Ends (gather_directions call ds acc)
unfolding gather_directions
gather_directions-Ends call h [] acc = tt
gather_directions-Ends call h (d ∷ ds) acc =
    Ends-bind (call d) _ (h d)
      (λ found _. gather_directions-Ends call h ds (gather_found found acc))

module _ (pv : VecModel PieceData) (sv : VecModel BoardSquare) (b : Board pv sv)
    (size : length (pv.contents b.pieces) ≡ 32) where
  abbrev board : Pieces
  board = pv.contents b.pieces

  snapshot_loop-drop : (n i : ℕ) → i + n ≡ 32 → snapshot_loop pv sv b n i ≡ some (drop i board)
  unfolding snapshot_loop
  snapshot_loop-drop zero i h = ap some (sym (drop_all board i (omega arith)))
  snapshot_loop-drop (suc n) i h =
      let (a, e) = get_elem?-total board i (omega arith) in
      let read = pv.row_data_lem b.pieces i ∙ e in
      rw (read, snapshot_loop, snapshot_loop-drop n (i + 1) (omega arith))
        (rw (drop-get_elem? board i e, add-one))

  snapshot_lem : snapshot_loop pv sv b 32 0 ≡ some board
  snapshot_lem = snapshot_loop-drop 32 0 (omega arith)

  module _ (index : ℕ) (piece : PieceData) (at : get_elem? board index ≡ some piece) where
    -- An active piece is looked at in all directions, on a copy of the board.
    pub get_legal_moves_piece-legal_from :
        piece.is_active ≡ true
        → get_legal_moves_piece pv sv b index ≡ legal_from pv sv b index piece board
    unfolding get_legal_moves_piece
    get_legal_moves_piece-legal_from active =
        let inside = lt→ltb index (length board) (get_elem?-lt board index at) in
        let read = pv.row_data_lem b.pieces index ∙ at in
        rw (pv.row_count_lem b.pieces, inside, read, active, snapshot_lem)

    abbrev looked : Direction → Outcome Found
    looked d = check_move check_fuel (mover pv sv b index piece) board index piece.is_king d false

    legal_from-Safe :
        Safe (Describes (mover pv sv b index piece) board) (legal_from pv sv b index piece board)
    unfolding legal_from
    legal_from-Safe =
        let m = mover pv sv b index piece in
        let P = IsCapture m board in
        let Q = IsQuiet m board in
        Safe-bind
          (λ out. (fs : List Found) × All (Labelled P Q) fs × (out ≡ fold_found fs (none, false)))
          (Describes m board) (gather_directions looked values (none, false))
          (λ gathered. done (finish_found gathered))
          (gather_directions-Safe P Q looked
            (λ d. check_move-Safe check_fuel m board index piece.is_king d false (λ e. cc)) values
            (none, false))
          (λ gathered (fs, hs, e).
            rw
              (
                e,
                fold_found-mandatory fs
                    (Labelled-Uniform P Q (λ mov c. (c.squares, c.taken)) (λ mov q. q.taken) fs hs),
              )
              (Labelled-mandatory P Q fs hs))

    -- The fuel of the model is never used up.
    legal_from-Ends : Ends (legal_from pv sv b index piece board)
    unfolding legal_from
    legal_from-Ends =
        let inside : index < 32 = omega (arith, get_elem?-lt board index at) in
        Ends-bind (gather_directions looked values (none, false)) _
          (gather_directions-Ends looked
            (λ d.
              check_move-Ends check_fuel _ board index piece.is_king d false size inside (λ e. cc)
                (omega (arith, active_count-le-length board, rows_left-le d index inside)))
            values (none, false))
          (λ _ _. tt)

    -- On a board of 32 rows `get_legal_moves_piece` has no undefined behaviour at an active piece, and
    -- where it returns, it returns nothing, or at least one move with all of them captures by that
    -- piece or all of them quiet moves of it, as the flag beside them says.
    pub get_legal_moves_piece-Safe :
        piece.is_active ≡ true
        → Safe (Describes (mover pv sv b index piece) board) (get_legal_moves_piece pv sv b index)
    get_legal_moves_piece-Safe active = rw (get_legal_moves_piece-legal_from active) legal_from-Safe

    -- On a board of 32 rows `get_legal_moves_piece` ends at an active piece: the fuel that the model
    -- gives `check_move` is not used up.
    pub get_legal_moves_piece-Ends :
        piece.is_active ≡ true → Ends (get_legal_moves_piece pv sv b index)
    get_legal_moves_piece-Ends active = rw (get_legal_moves_piece-legal_from active) legal_from-Ends

    -- On a board of 32 rows, at an active piece, where `check_move` returns `f d` in each direction
    -- `d`, `get_legal_moves_piece` returns what the two-pass description makes of the four: the
    -- captures alone if one of them captures, else all moves, and nothing if nothing was found.
    pub get_legal_moves_piece-mandatory :
        (f : Direction → Found)
        → piece.is_active ≡ true
        → ((d : Direction) → looked d ≡ done (f d))
        → get_legal_moves_piece pv sv b index ≡ done (mandatory (map f values))
    unfolding legal_from
    get_legal_moves_piece-mandatory f active h =
        get_legal_moves_piece-legal_from active
        ∙ ap (λ r. r >>= λ g. done (finish_found g))
            (gather_directions-fold looked f h values (none, false))
        ∙ ap done (
            fold_found-mandatory (map f values)
              (u up_right, (u up_left, (u down_left, (u down_right, tt)))))
      where
        m : Mover
        m = mover pv sv b index piece

        u : (d : Direction) → Uniform (f d)
        u d =
            (Labelled-Uniform (IsCapture m board) (IsQuiet m board) (λ mov c. (c.squares, c.taken))
              (λ mov q. q.taken) (f d ∷ [])
              (
                rw (h d) at
                    (check_move-Safe check_fuel m board index piece.is_king d false (λ e. cc)),
                tt,
              )).0

    -- A square with no active piece has no moves.
    pub get_legal_moves_piece_inactive :
        piece.is_active ≡ false → get_legal_moves_piece pv sv b index ≡ done none
    unfolding get_legal_moves_piece
    get_legal_moves_piece_inactive empty =
        let inside = lt→ltb index (length board) (get_elem?-lt board index at) in
        let read = pv.row_data_lem b.pieces index ∙ at in
        rw (pv.row_count_lem b.pieces, inside, read, empty)
