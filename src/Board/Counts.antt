-- ===== src/Board/Counts.antt =====
-- The counts of pieces, the starting position and the marks.
use psychic_fiesta.Prelude.{ℕ, zero, suc, ◌+◌, Bool, true, not, ◌&&◌, some}
use psychic_fiesta.Prelude.{List, [], ◌∷◌, ◌≡◌, refl, ap, ◌∙◌, arith, if◌then◌else◌}
use psychic_fiesta.Prelude.{get_elem?, length, drop, get_elem?-total, lt→ltb, ltb}
use psychic_fiesta.Prelude.{drop-get_elem?, drop_all, get_elem?-lt}
use psychic_fiesta.Prelude.Outcome.{Outcome, done}
use psychic_fiesta.Game.{PieceColor, color_eq, PieceData}
use psychic_fiesta.Rows.{VecModel}
use psychic_fiesta.Board.{Board, BoardSquare, count_loop, piece_is_empty, piece_is_player}
use psychic_fiesta.Board.{piece_is_enemy, get_player_piece_count, get_enemy_piece_count}
use psychic_fiesta.Board.{get_empty_piece_count}
use native.Mathlib.Numerals.{add-one}

-- The pieces of a list with a property.
abbrev pub count_where : (PieceData → Bool) → List PieceData → ℕ
count_where f [] = 0
count_where f (p ∷ ps) = (if f p then 1 else 0) + count_where f ps

abbrev pub is_empty : PieceData → Bool
is_empty p = not p.is_active

abbrev pub is_player : PieceColor → PieceData → Bool
is_player c p = color_eq p.color c && p.is_active

abbrev pub is_enemy : PieceColor → PieceData → Bool
is_enemy c p = not (color_eq p.color c) && p.is_active

-- Every piece is counted in exactly one of the three ways.
pub count_where_partition :
    (c : PieceColor) (ps : List PieceData)
    → count_where (is_player c) ps + count_where (is_enemy c) ps + count_where is_empty ps
      ≡ length ps
count_where_partition c [] = refl
count_where_partition c (p ∷ ps) = ground (arith, count_where_partition c ps)

module _ (pv : VecModel PieceData) (sv : VecModel BoardSquare) (b : Board pv sv)
    (size : length (pv.contents b.pieces) ≡ 32) where
  abbrev board : List PieceData
  board = pv.contents b.pieces

  count_loop-count_where :
      (test : ℕ → Outcome Bool) (f : PieceData → Bool)
      → ((i : ℕ) (p : PieceData) → get_elem? board i ≡ some p → test i ≡ done (f p))
      → (n i count : ℕ) → i + n ≡ 32
      → count_loop pv sv test n i count ≡ done (count + count_where f (drop i board))
  unfolding count_loop
  count_loop-count_where test f h zero i count e =
      let e' : i ≡ length board = omega arith in ap done (rw (drop_all board i e') (omega arith))
  count_loop-count_where test f h (suc n) i count e =
      let (p, at) = get_elem?-total board i (omega arith) in
      rw (h i p at) (
        count_loop-count_where test f h n (i + 1) (if f p then count + 1 else count) (omega arith)
        ∙ ap done (rw (drop-get_elem? board i at, add-one) (ground arith)))

  row_reads :
      (i : ℕ) (p : PieceData)
      → get_elem? board i ≡ some p
      → (ltb i (pv.row_count b.pieces) ≡ true) × (pv.row_data b.pieces i ≡ some p)
  row_reads i p at = (
    rw (pv.row_count_lem b.pieces) (lt→ltb i (length board) (get_elem?-lt board i at)),
    pv.row_data_lem b.pieces i ∙ at,
  )

  pub player_count :
      get_player_piece_count pv sv b ≡ done (0 + count_where (is_player b.player_color) board)
  unfolding get_player_piece_count
  player_count =
      count_loop-count_where (piece_is_player pv sv b) (is_player b.player_color)
        (λ i p at. let (lt, e) = row_reads i p at in rw (lt, e)) 32 0 0 (omega arith)

  pub enemy_count :
      get_enemy_piece_count pv sv b ≡ done (0 + count_where (is_enemy b.player_color) board)
  unfolding get_enemy_piece_count
  enemy_count =
      count_loop-count_where (piece_is_enemy pv sv b) (is_enemy b.player_color)
        (λ i p at. let (lt, e) = row_reads i p at in rw (lt, e)) 32 0 0 (omega arith)

  pub empty_count : get_empty_piece_count pv sv b ≡ done (0 + count_where is_empty board)
  unfolding get_empty_piece_count
  empty_count =
      count_loop-count_where (piece_is_empty pv sv b) is_empty
        (λ i p at. let (lt, e) = row_reads i p at in rw (lt, e)) 32 0 0 (omega arith)

  -- On a board of 32 rows the three counts return, each the number of rows of its kind, and they
  -- add up to 32.
  pub piece_counts-sum :
      (p e m : ℕ) × (get_player_piece_count pv sv b ≡ done p)
      × (get_enemy_piece_count pv sv b ≡ done e)
      × (get_empty_piece_count pv sv b ≡ done m)
      × (p ≡ count_where (is_player b.player_color) board)
      × (e ≡ count_where (is_enemy b.player_color) board)
      × (m ≡ count_where is_empty board)
      × (p + e + m ≡ 32)
  piece_counts-sum = (
    0 + count_where (is_player b.player_color) board,
    0 + count_where (is_enemy b.player_color) board,
    0 + count_where is_empty board,
    player_count,
    enemy_count,
    empty_count,
    omega arith,
    omega arith,
    omega arith,
    omega (arith, count_where_partition b.player_color board),
  )
