-- ===== src/Board/Setup.antt =====
-- A new game and the marks on the squares.
use psychic_fiesta.Prelude.{ℕ, zero, suc, ◌+◌, ◌<◌, true, false, some}
use psychic_fiesta.Prelude.{List, [], ◌∷◌, ◌≡◌, refl, sym, ap, ◌∙◌, arith, if◌then◌else◌, leb}
use psychic_fiesta.Prelude.{All, get_elem?, length, length-set, get_elem?-set}
use psychic_fiesta.Prelude.Outcome.{done}
use psychic_fiesta.Game.{PieceColor, white, black, PieceData}
use psychic_fiesta.Rows.{VecModel}
use psychic_fiesta.Board.{Board, BoardSquare, alive, default_setup, mark_loop, mark_squares}
use psychic_fiesta.Board.{
  reset_loop, start_new_game, get_player_piece_count, get_enemy_piece_count, get_empty_piece_count,
}
use psychic_fiesta.Board.Counts.{
  count_where, is_empty, is_player, is_enemy, player_count, enemy_count, empty_count,
}
use psychic_fiesta.Board.Perform.{among}
use mathlib.Core.Path.{subst}

abbrev pub marked : BoardSquare
marked = record { marked = true }

abbrev pub unmarked : BoardSquare
unmarked = record { marked = false }

-- The starting position: twelve pieces of either side, those of the enemy on squares 0 to 11 and the
-- player's on 20 to 31, no king, and eight empty squares.
pub default_setup_counts :
    (c : PieceColor)
    → (length (default_setup c) ≡ 32)
      × (count_where (is_player c) (default_setup c) ≡ 12)
      × (count_where (is_enemy c) (default_setup c) ≡ 12)
      × (count_where is_empty (default_setup c) ≡ 8)
      × (count_where (λ p. p.is_king) (default_setup c) ≡ 0)
unfolding default_setup
default_setup_counts white = (refl, refl, refl, refl, refl)
default_setup_counts black = (refl, refl, refl, refl, refl)

module _ (pv : VecModel PieceData) (sv : VecModel BoardSquare) where
  mark_loop_lem :
      (indices : List ℕ) (r : sv.Rows)
      → All (λ i. i < length (sv.contents r)) indices
      → (r' : sv.Rows) × (mark_loop pv sv indices r ≡ done r')
        × (length (sv.contents r') ≡ length (sv.contents r))
        × ((c : ℕ)
            → c < length (sv.contents r)
            → get_elem? (sv.contents r') c
              ≡ (if among c indices then some marked else get_elem? (sv.contents r) c))
  unfolding mark_loop
  mark_loop_lem [] r h = (r, refl, refl, λ c hc. refl)
  mark_loop_lem (i ∷ indices) r (hi, hs) =
      let (r₁, e₁, c₁) = sv.set_row_data_lem r i marked hi in
      let len₁ : length (sv.contents r₁) ≡ length (sv.contents r) =
        ap length c₁ ∙ length-set (sv.contents r) i marked in
      let (r', e, len, reads) =
        mark_loop_lem indices r₁ (subst (λ n. All (λ y. y < n) indices) (sym len₁) hs) in
      (
        r',
        rw e₁ e,
        len ∙ len₁,
        λ c hc.
            reads c (rw len₁ hc)
            ∙ ground
                (arith, ap (λ l. get_elem? l c) c₁, get_elem?-set (sv.contents r) i c marked hc),
      )

  -- Given squares of the board, `mark_squares` returns with the board changed in its marks alone, and
  -- of its rows `c` is marked if it is among them and as it was if it is not.
  pub mark_squares_lem :
      (indices : List ℕ) (b : Board pv sv) (c : ℕ)
      → All (λ i. i < length (sv.contents b.squares)) indices
      → c < length (sv.contents b.squares)
      → (r' : sv.Rows) × (mark_squares pv sv indices b ≡ done (record b { squares = r' }))
        × (get_elem? (sv.contents r') c
            ≡ (if among c indices then some marked else get_elem? (sv.contents b.squares) c))
  unfolding mark_squares
  mark_squares_lem indices b c h hc =
      let (r', e, len, reads) = mark_loop_lem indices b.squares h in (r', rw e, reads c hc)

  pub reset_loop_lem :
      (n i : ℕ) (r : sv.Rows)
      → i + n ≡ 32
      → length (sv.contents r) ≡ 32
      → (r' : sv.Rows) × (reset_loop pv sv n i r ≡ done r')
        × (length (sv.contents r') ≡ 32)
        × ((c : ℕ)
            → c < 32
            → get_elem? (sv.contents r') c
              ≡ (if leb i c then some unmarked else get_elem? (sv.contents r) c))
  unfolding reset_loop
  reset_loop_lem zero i r h size = (r, refl, size, λ c hc. ground arith)
  reset_loop_lem (suc n) i r h size =
      let (r₁, e₁, c₁) = sv.set_row_data_lem r i unmarked (omega arith) in
      let len₁ : length (sv.contents r₁) ≡ 32 =
        ap length c₁ ∙ length-set (sv.contents r) i unmarked ∙ size in
      let (r', e, len, reads) = reset_loop_lem n (i + 1) r₁ (omega arith) len₁ in
      (
        r',
        rw e₁ e,
        len,
        λ c hc.
            reads c hc
            ∙ ground (
              arith,
              ap (λ l. get_elem? l c) c₁,
              get_elem?-set (sv.contents r) i c unmarked (omega arith),
            ),
      )

  -- With its window alive and 32 squares, a board starts a new game: the window shows twelve pieces
  -- of the colour given, which is the player's, twelve of the other and eight empty squares, and no
  -- square `c` is marked.
  pub start_new_game_lem :
      (color : PieceColor) (b : Board pv sv) (c : ℕ)
      → b.game ≡ alive
      → length (sv.contents b.squares) ≡ 32
      → c < 32
      → (b' : Board pv sv) × (start_new_game pv sv color b ≡ done b')
        × (pv.contents b'.pieces ≡ default_setup color)
        × (b'.player_color ≡ color)
        × (b'.pieces_shown ≡ true)
        × (get_player_piece_count pv sv b' ≡ done 12)
        × (get_enemy_piece_count pv sv b' ≡ done 12)
        × (get_empty_piece_count pv sv b' ≡ done 8)
        × (get_elem? (sv.contents b'.squares) c ≡ some unmarked)
  unfolding start_new_game
  start_new_game_lem color b c live size inside =
      let (r', e, len, reads) = reset_loop_lem 32 0 b.squares (omega arith) size in
      let b' = record b {
        player_color = color;
        pieces = pv.from_vec (default_setup color);
        pieces_shown = true;
        squares = r';
      } in
      let shown = pv.contents-from_vec (default_setup color) in
      let (n, players, enemies, empties, kings) = default_setup_counts color in
      let size' : length (pv.contents b'.pieces) ≡ 32 = ap length shown ∙ n in
      (
        b',
        rw live (rw e),
        shown,
        refl,
        refl,
        player_count pv sv b' size'
            ∙ ap done (omega (arith, ap (count_where (is_player color)) shown, players)),
        enemy_count pv sv b' size'
            ∙ ap done (omega (arith, ap (count_where (is_enemy color)) shown, enemies)),
        empty_count pv sv b' size'
            ∙ ap done (omega (arith, ap (count_where is_empty) shown, empties)),
        reads c inside ∙ ground arith,
      )
