-- ===== src/Play/Clicks.antt =====
-- What a click may do.
use psychic_fiesta.Prelude.{ℕ, ◌+◌, Bool, true, false, not, ◌&&◌, none, some, List, [], ◌∷◌, ◌++◌}
use psychic_fiesta.Prelude.{◌≡◌, ◌⊎◌, inl, inr, refl, arith, map, ◌==◌, ◌∙◌}
use psychic_fiesta.Prelude.Int.{ℤ}
use psychic_fiesta.Prelude.Outcome.{done}
use psychic_fiesta.Prelude.Holds.{Holds, Holds-bind, Holds-bind₂, Holds-map, Holds-if, Holds-done}
use psychic_fiesta.Game.{PieceData, Move, move_piece}
use psychic_fiesta.Legal.Listing.{Listed}
use psychic_fiesta.Rows.{VecModel}
use psychic_fiesta.Board
use psychic_fiesta.Board.{Board, BoardSquare, Globals, piece_is_player, reset_loop, reset_squares}
use psychic_fiesta.Board.{mark_loop, mark_squares}
use psychic_fiesta.Board.Moves.{get_legal_moves, get_legal_moves_piece}
use psychic_fiesta.Play.{GameData, as_usize, select, on_move_piece, play_move, play_loop}
use psychic_fiesta.Play.{play_if, mark_moves, on_board_clicked}

module _ (pv : VecModel PieceData) (sv : VecModel BoardSquare) where
  -- Nothing was sent, and the turn, the pieces and the waiting tasks are as before.
  abbrev pub Unplayed : GameData pv sv → GameData pv sv → Type 0
  Unplayed s s' =
      (s'.sent ≡ s.sent)
      × (s'.is_player_turn ≡ s.is_player_turn)
      × (s'.board.pieces ≡ s.board.pieces)
      × (s'.waiting ≡ s.waiting)

  -- A move of the list, from the selected square to the clicked one, was performed and sent, and the
  -- turn is the opponent's, for whom one task more waits.
  abbrev pub Played : ℤ → ℕ → List Move → GameData pv sv → GameData pv sv → Type 0
  Played index selected moves s s' =
      (mov : Move) × Listed mov moves
      × (mov.end ≡ as_usize index)
      × (mov.index ≡ selected)
      × (s'.sent ≡ s.sent ++ (move_piece mov ∷ []))
      × (s'.is_player_turn ≡ false)
      × (s'.waiting ≡ s.waiting + 1)
      × (b : Board pv sv) × (Board.move_piece pv sv (record { board_move = mov })
            (record s.board { selected_square = index })
          ≡ done b)
      × (s'.board.pieces ≡ b.pieces)

  play_move-Holds :
      (index : ℤ) (selected : ℕ) (mov : Move) (moves : List Move) (s : GameData pv sv)
      → mov.end ≡ as_usize index
      → mov.index ≡ selected
      → Holds
          (λ s'. Unplayed s s' ⊎ Played index selected (mov ∷ moves) s s')
          (play_move pv sv mov (select pv sv index s))
  unfolding play_move on_move_piece
  play_move-Holds index selected mov moves s to from =
      Holds-bind₂ (λ s'. Unplayed s s' ⊎ Played index selected (mov ∷ moves) s s')
        (Board.move_piece pv sv (record { board_move = mov })
          (record s.board { selected_square = index }))
        _ _ (λ b e. inr (mov, inl refl, to, from, refl, refl, refl, b, e, refl))

  play_loop-Holds :
      (index : ℤ) (selected : ℕ) (moves : List Move) (s : GameData pv sv)
      → Holds
          (λ s'. Unplayed s s' ⊎ Played index selected moves s s')
          (play_loop pv sv index selected moves s)
  unfolding play_loop
  play_loop-Holds index selected [] s = inl (refl, refl, refl, refl)
  play_loop-Holds index selected (mov ∷ moves) s =
      Holds-if (λ s'. Unplayed s s' ⊎ Played index selected (mov ∷ moves) s s')
        (mov.end == as_usize index && mov.index == selected) _ _
        (λ t. play_move-Holds index selected mov moves s (ground arith) (ground arith))
        (λ _.
          Holds-map (λ s'. Unplayed s s' ⊎ Played index selected moves s s') _
            (play_loop pv sv index selected moves (select pv sv index s))
            (λ s'. elim [
              | inl u ↦ inl u
              | inr (m, l, to, from, sent, turn, wait, b, e, shown) ↦
                  inr (m, inr l, to, from, sent, turn, wait, b, e, shown)
            ])
            (play_loop-Holds index selected moves (select pv sv index s)))

  -- Only the marks and the selection change.
  abbrev pub Marked : GameData pv sv → GameData pv sv → Type 0
  Marked s s' =
      (s'.sent ≡ s.sent)
      × (s'.is_player_turn ≡ s.is_player_turn)
      × (s'.board.pieces ≡ s.board.pieces)
      × (s'.waiting ≡ s.waiting)

  pub mark_moves-Holds :
      (index : ℤ) (s : GameData pv sv) → Holds (Marked s) (mark_moves pv sv index s)
  unfolding mark_moves reset_squares mark_squares
  mark_moves-Holds index s =
      Holds-bind₂ (Marked s) (reset_loop pv sv 32 0 s.board.squares) _ _ (λ squares _.
        Holds-bind (Marked s)
          (get_legal_moves_piece pv sv (record s.board { squares = squares }) (as_usize index)) _
          (elim [
            | none ↦ λ _. (refl, refl, refl, refl)
            | some (moves, capturing) ↦ λ _.
                Holds-bind₂ (Marked s) (mark_loop pv sv (map (λ mov. mov.end) moves) squares) _ _
                  (λ _ _. (refl, refl, refl, refl))
          ]))

  -- What a click may have done.
  abbrev pub Clicked : ℤ → GameData pv sv → GameData pv sv → Type 0
  Clicked index s s' =
      Unplayed s s'
      ⊎ ((s.is_player_turn ≡ true)
          × (moves : List Move) × (get_legal_moves pv sv s.board ≡ done (some moves))
          × Played index (as_usize s.board.selected_square) moves s s')

  Clicked-Marked :
      (index : ℤ) (s s' s'' : GameData pv sv)
      → Clicked index s s'
      → Marked s' s''
      → Clicked index s s''
  Clicked-Marked index s s' s'' (inl (a, b, c, w)) (d, e, f, v) = inl (d ∙ a, e ∙ b, f ∙ c, v ∙ w)
  Clicked-Marked index s s' s''
        (inr (mine, moves, legal, (mov, l, to, from, sent, turn, wait, b, q, shown))) (d, e, f, v) =
      inr (mine, moves, legal, (mov, l, to, from, d ∙ sent, e ∙ turn, v ∙ wait, b, q, f ∙ shown))

  play_if-Holds :
      (own : Bool) (index : ℤ) (s : GameData pv sv)
      → s.is_player_turn ≡ true
      → Holds (Clicked index s) (play_if pv sv own index (as_usize s.board.selected_square) s)
  play_if-Holds false index s mine = inl (refl, refl, refl, refl)
  play_if-Holds true index s mine =
      Holds-bind (Clicked index s) (get_legal_moves pv sv s.board) _ (elim [
        | none ↦ λ _. inl (refl, refl, refl, refl)
        | some moves ↦ λ e.
            Holds-map
              (λ s'. Unplayed s s' ⊎ Played index (as_usize s.board.selected_square) moves s s') _
              (play_loop pv sv index (as_usize s.board.selected_square) moves s)
              (λ s'. elim [ inl u ↦ inl u | inr p ↦ inr (mine, moves, e, p) ])
              (play_loop-Holds index (as_usize s.board.selected_square) moves s)
      ])

  -- Where a click returns, nothing was sent and the turn, the pieces and the waiting tasks are as
  -- before, or it was the player's turn and one move is sent: one of those that `get_legal_moves`
  -- offers, from the selected square to the clicked one; the pieces are as `move_piece` leaves them
  -- after that move, and the turn is the opponent's, for whom one task more waits.
  pub on_board_clicked-Clicked :
      (index : ℤ) (s : GameData pv sv) → Holds (Clicked index s) (on_board_clicked pv sv index s)
  unfolding on_board_clicked
  on_board_clicked-Clicked index s =
      let selected = as_usize s.board.selected_square in
      Holds-if (Clicked index s) (not s.is_player_turn) _ _ (λ _. inl (refl, refl, refl, refl))
        (λ turn. Holds-bind (Clicked index s) (piece_is_player pv sv s.board selected) _ (λ own _.
          Holds-bind (Clicked index s) (play_if pv sv own index selected s)
            (λ s'. mark_moves pv sv index s')
            (λ s' e.
              Holds-map (Marked s') (Clicked index s) (mark_moves pv sv index s')
                (λ s'' m.
                  Clicked-Marked index s s' s''
                    (Holds-done (Clicked index s) (play_if pv sv own index selected s) s'
                      (play_if-Holds own index s (ground arith)) e)
                    m)
                (mark_moves-Holds index s'))))
