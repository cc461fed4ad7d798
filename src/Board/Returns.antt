-- ===== src/Board/Returns.antt =====
-- Where the search returns: on every board of 32 rows with a man of the player in the corner, the
-- starting position among them.
use psychic_fiesta.Prelude.{ℕ, zero, suc, ◌+◌, ◌<◌, Bool, true, false, not, Option, none, some}
use psychic_fiesta.Prelude.{List, [], ◌∷◌, ◌≡◌, inl, inr, refl, sym, ap, ◌∙◌, arith}
use psychic_fiesta.Prelude.{get_elem?, length, get_elem?-total, Bool-cases, ◌==◌, ◌||◌}
use psychic_fiesta.Prelude.Int.{pos, pos_part, ltb_ℤ}
use psychic_fiesta.Prelude.Outcome.{Outcome, done}
use psychic_fiesta.Game.{PieceColor, color_eq, get_opposite, PieceData, Move, Direction, values}
use psychic_fiesta.Game.{up_left, up_right, down_left, down_right}
use psychic_fiesta.Legal.{Pieces, Found, Mover, is_local_player, at_edge, backwards, next_index}
use psychic_fiesta.Legal.{check_move, check_body, at_tile, step_to}
use psychic_fiesta.Legal.Panics.{Calm, Calm-bind, Calm-if, Guarded, check_move-CalmRec}
use mathlib.Core.Path.{subst}
use psychic_fiesta.Rows.{VecModel}
use psychic_fiesta.Board.{Board, BoardSquare}
use psychic_fiesta.Board.Moves.{gather_directions, gather_found, finish_found, check_fuel, mover}
use psychic_fiesta.Board.Moves.{legal_from, get_legal_moves_piece, legal_turn, legal_loop}
use psychic_fiesta.Board.Moves.{get_legal_moves}
use psychic_fiesta.Board.OnePiece.{get_legal_moves_piece-legal_from, get_legal_moves_piece_inactive}
use psychic_fiesta.Board.AllPieces.{Offered, get_legal_moves-Offered}
use psychic_fiesta.Legal.Total.{done_or_panic}

-- A man of the local player looks up from the corner.
corner_up :
    (fuel : ℕ) (m : Mover) (ps : Pieces) (d : Direction)
    → length ps ≡ 32
    → Guarded m ps
    → is_local_player m ≡ true
    → backwards m false d ≡ false
    → pos_part (next_index d 28) < 28
    → Calm (check_move (suc fuel) m ps 28 false d false)
unfolding check_move check_body at_tile step_to
corner_up fuel m ps d size guard local up inside =
    Calm-if (at_edge d 28 || backwards m false d) _ _ (λ _. tt)
      (λ _.
        Calm-if (ltb_ℤ (next_index d 28) (pos 0) || ltb_ℤ (pos (length ps)) (next_index d 28)) _ _
          (λ _. tt)
          (λ _.
            let next = pos_part (next_index d 28) in
            let (tile, e) = get_elem?-total ps next (omega arith) in
            rw e (
              Calm-if tile.is_active _ _
                (λ _.
                  Calm-if (not (color_eq tile.color m.enemy_color) || false) _ _ (λ _. tt)
                    (λ _.
                      Calm-bind (check_move fuel m ps next false d true) _
                        (check_move-CalmRec fuel m ps next false d true size guard (omega arith)
                          (omega arith))
                        (λ _. tt)))
                (λ _. tt))))

corner_man :
    (fuel : ℕ) (m : Mover) (ps : Pieces) (d : Direction)
    → length ps ≡ 32
    → Guarded m ps
    → is_local_player m ≡ true
    → Calm (check_move (suc fuel) m ps 28 false d false)
unfolding check_move check_body
corner_man fuel m ps up_left size guard local =
    corner_up fuel m ps up_left size guard local (rw local refl) (omega arith)
corner_man fuel m ps up_right size guard local =
    corner_up fuel m ps up_right size guard local (rw local refl) (omega arith)
corner_man fuel m ps down_left size guard local = rw local tt
corner_man fuel m ps down_right size guard local = rw local tt

gather_directions-Calm :
    (call : Direction → Outcome Found)
    → ((d : Direction) → Calm (call d))
    → (ds : List Direction) (acc : Option (List Move) × Bool) → Calm (gather_directions call ds acc)
unfolding gather_directions
gather_directions-Calm call h [] acc = tt
gather_directions-Calm call h (d ∷ ds) acc =
    Calm-bind (call d) _ (h d) (λ found. gather_directions-Calm call h ds (gather_found found acc))

own_local :
    (player piece : PieceColor)
    → color_eq piece player ≡ true
    → not (color_eq player (get_opposite piece)) ≡ true
own_local player piece e = ground arith

own_guard :
    (player piece own : PieceColor)
    → color_eq piece player ≡ true
    → color_eq own player ≡ true
    → color_eq own (get_opposite piece) ≡ false
own_guard player piece own e f = ground arith

module _ (pv : VecModel PieceData) (sv : VecModel BoardSquare) (b : Board pv sv)
    (size : length (pv.contents b.pieces) ≡ 32) (man : PieceData)
    (at : get_elem? (pv.contents b.pieces) 28 ≡ some man) (active : man.is_active ≡ true)
    (low : man.is_king ≡ false) (own : color_eq man.color b.player_color ≡ true) where
  abbrev board : Pieces
  board = pv.contents b.pieces

  guarded :
      (index : ℕ) (p : PieceData)
      → color_eq p.color b.player_color ≡ true
      → Guarded (mover pv sv b index p) board
  guarded index p mine = (man, at, active, own_guard b.player_color p.color man.color mine own)

  at_corner :
      (p : PieceData) (d : Direction)
      → get_elem? board 28 ≡ some p
      → color_eq p.color b.player_color ≡ true
      → Calm (check_move check_fuel (mover pv sv b 28 p) board 28 p.is_king d false)
  at_corner p d e mine =
      let same : man ≡ p = cc in
      let king : p.is_king ≡ false = sym (ap (λ q. q.is_king) same) ∙ low in
      rw king (
        corner_man 271 (mover pv sv b 28 p) board d size (guarded 28 p mine)
          (own_local b.player_color p.color mine))

  looked-Calm :
      (index : ℕ) (p : PieceData) (d : Direction)
      → index < 32
      → get_elem? board index ≡ some p
      → color_eq p.color b.player_color ≡ true
      → Calm (check_move check_fuel (mover pv sv b index p) board index p.is_king d false)
  looked-Calm index p d inside e mine = elim (Bool-cases (index == 28)) [
    | inl same ↦
        let here : 28 ≡ index = ground arith in
        subst
          (λ i.
            get_elem? board i ≡ some p
            → Calm (check_move check_fuel (mover pv sv b i p) board i p.is_king d false))
          here (λ e'. at_corner p d e' mine) e
    | inr other ↦
        check_move-CalmRec check_fuel (mover pv sv b index p) board index p.is_king d false size
          (guarded index p mine) inside (ground arith)
  ]

  legal_from-Calm :
      (index : ℕ) (p : PieceData)
      → index < 32
      → get_elem? board index ≡ some p
      → color_eq p.color b.player_color ≡ true
      → Calm (legal_from pv sv b index p board)
  unfolding legal_from
  legal_from-Calm index p inside e mine =
      let looked = λ (d : Direction).
        check_move check_fuel (mover pv sv b index p) board index p.is_king d false in
      Calm-bind (gather_directions looked values (none, false))
        (λ gathered. done (finish_found gathered))
        (gather_directions-Calm looked (λ d. looked-Calm index p d inside e mine) values
          (none, false))
        (λ _. tt)

  legal_turn-Calm :
      (index : ℕ) (p : PieceData) (acc : Option (List Move) × Bool)
      → index < 32
      → get_elem? board index ≡ some p
      → Calm (legal_turn pv sv b index p acc)
  unfolding legal_turn
  legal_turn-Calm index p acc inside e =
      Calm-if (not (color_eq p.color b.player_color)) _ _ (λ _. tt)
        (λ mine.
          Calm-bind (get_legal_moves_piece pv sv b index) _
            (elim (Bool-cases p.is_active) [
              | inl a ↦
                  rw (get_legal_moves_piece-legal_from pv sv b size index p e a)
                    (legal_from-Calm index p inside e (ground arith))
              | inr i ↦ rw (get_legal_moves_piece_inactive pv sv b size index p e i) tt
            ])
            (λ _. tt))

  legal_loop-Calm :
      (n index : ℕ) (acc : Option (List Move) × Bool)
      → index + n ≡ 32
      → Calm (legal_loop pv sv b n index acc)
  unfolding legal_loop
  legal_loop-Calm zero index acc h = tt
  legal_loop-Calm (suc n) index acc h =
      let (p, e) = get_elem?-total board index (omega arith) in
      rw (pv.row_data_lem b.pieces index ∙ e, legal_loop)
        (Calm-bind (legal_turn pv sv b index p acc) _ (legal_turn-Calm index p acc (omega arith) e)
          (λ acc'. legal_loop-Calm n (index + 1) acc' (omega arith)))

  get_legal_moves-Calm : Calm (get_legal_moves pv sv b)
  unfolding get_legal_moves
  get_legal_moves-Calm =
      rw (pv.row_count_lem b.pieces, size)
        (Calm-bind (legal_loop pv sv b 32 0 (none, false)) _
          (legal_loop-Calm 32 0 (none, false) (omega arith)) (λ _. tt))

  -- On a board of 32 rows with an active man of the player on square 28, such as the starting
  -- position, `get_legal_moves` returns: nothing, or at least one move, with all of them captures by
  -- the player's active pieces or all of them quiet moves of those.
  pub get_legal_moves-returns :
      (moves : Option (List Move)) × (get_legal_moves pv sv b ≡ done moves)
      × Offered pv sv b size moves
  get_legal_moves-returns =
      let (safe, ends) = get_legal_moves-Offered pv sv b size in
      elim (done_or_panic (Offered pv sv b size) (get_legal_moves pv sv b) safe ends) [
        | inl (moves, e) ↦ (moves, e, rw e at safe)
        | inr e ↦ absurd (rw e at get_legal_moves-Calm)
      ]
