-- ===== src/Play/Colors.antt =====
-- A click and the opponent's action keep the player's colour.
use psychic_fiesta.Prelude.{Bool, true, false, none, some, List, [], ◌∷◌, ◌≡◌, refl, map, not}
use psychic_fiesta.Prelude.{◌&&◌, ◌==◌, ℕ, ◌∙◌, ◌-◌}
use psychic_fiesta.Prelude.Outcome.{or_panic}
use psychic_fiesta.Prelude.Int.{ℤ}
use psychic_fiesta.Prelude.Holds.{Holds, Holds-bind, Holds-bind₂, Holds-map, Holds-if, Holds-done}
use psychic_fiesta.Game.{
  PieceColor, PieceData, Move, GameAction, move_piece, stalemate, surrender, reverse,
}
use psychic_fiesta.Rows.{VecModel}
use psychic_fiesta.Board
use psychic_fiesta.Board.{Board, BoardSquare, Globals, reset_loop, reset_squares, mark_loop}
use psychic_fiesta.Board.{mark_squares, piece_is_player, start_new_game, upgrade, set_board_move}
use psychic_fiesta.Board.Moves.{get_legal_moves, get_legal_moves_piece}
use psychic_fiesta.Play.{GameData, as_usize, select, on_move_piece, play_move, play_loop, play_if}
use psychic_fiesta.Play.{mark_moves, on_board_clicked, opponent_acts}

module _ (pv : VecModel PieceData) (sv : VecModel BoardSquare) where
  -- The new state's player has the colour `c`.
  abbrev Plays : PieceColor → GameData pv sv → Type 0
  Plays c s = s.board.player_color ≡ c

  move_piece-color :
      (g : Globals) (b : Board pv sv)
      → Holds (λ b'. b'.player_color ≡ b.player_color) (Board.move_piece pv sv g b)
  unfolding Board.move_piece
  move_piece-color g b = Holds-bind _ (or_panic (pv.row_data b.pieces g.board_move.index)) _ (λ _ _.
      Holds-bind _ (pv.set_row_data b.pieces g.board_move.end _) _ (λ p₁ _.
        Holds-bind _ (pv.set_row_data p₁ g.board_move.index _) _ (λ p₂ _.
          Holds-bind _ (Board.clear_taken pv sv g.board_move.captured p₂) _ (λ _ _. refl))))

  on_move_piece-color :
      (s : GameData pv sv) → Holds (Plays s.board.player_color) (on_move_piece pv sv s)
  unfolding on_move_piece
  on_move_piece-color s = Holds-bind _ (Board.move_piece pv sv s.globals s.board) _ (λ b e.
      Holds-done _ (Board.move_piece pv sv s.globals s.board) b (move_piece-color s.globals s.board)
        e)

  play_move-color :
      (mov : Move) (s : GameData pv sv) → Holds (Plays s.board.player_color) (play_move pv sv mov s)
  unfolding play_move
  play_move-color mov s =
      let s₁ = record s { globals = set_board_move mov s.globals } in
      Holds-bind _ (on_move_piece pv sv s₁) _
        (λ s' e. Holds-done _ (on_move_piece pv sv s₁) s' (on_move_piece-color s₁) e)

  play_loop-color :
      (index : ℤ) (selected : ℕ) (moves : List Move) (s : GameData pv sv)
      → Holds (Plays s.board.player_color) (play_loop pv sv index selected moves s)
  unfolding play_loop
  play_loop-color index selected [] s = refl
  play_loop-color index selected (mov ∷ moves) s =
      Holds-if _ (mov.end == as_usize index && mov.index == selected) _ _
        (λ _. play_move-color mov (select pv sv index s))
        (λ _. play_loop-color index selected moves (select pv sv index s))

  play_if-color :
      (own : Bool) (index : ℤ) (selected : ℕ) (s : GameData pv sv)
      → Holds (Plays s.board.player_color) (play_if pv sv own index selected s)
  play_if-color false index selected s = refl
  play_if-color true index selected s =
      Holds-bind _ (get_legal_moves pv sv s.board) _
        (elim [ none ↦ λ _. refl | some moves ↦ λ _. play_loop-color index selected moves s ])

  mark_moves-color :
      (index : ℤ) (s : GameData pv sv)
      → Holds (Plays s.board.player_color) (mark_moves pv sv index s)
  unfolding mark_moves reset_squares mark_squares
  mark_moves-color index s = Holds-bind₂ _ (reset_loop pv sv 32 0 s.board.squares) _ _ (λ squares _.
      Holds-bind _
        (get_legal_moves_piece pv sv (record s.board { squares = squares }) (as_usize index)) _
        (elim [
          | none ↦ λ _. refl
          | some (moves, capturing) ↦ λ _.
              Holds-bind₂ _ (mark_loop pv sv (map (λ mov. mov.end) moves) squares) _ _ (λ _ _. refl)
        ]))

  pub on_board_clicked-color :
      (index : ℤ) (s : GameData pv sv)
      → Holds (Plays s.board.player_color) (on_board_clicked pv sv index s)
  unfolding on_board_clicked
  on_board_clicked-color index s =
      let selected = as_usize s.board.selected_square in
      Holds-if _ (not s.is_player_turn) _ _ (λ _. refl)
        (λ _. Holds-bind _ (piece_is_player pv sv s.board selected) _ (λ own _.
          Holds-bind _ (play_if pv sv own index selected s) _ (λ s' e.
            Holds-map _ (Plays s.board.player_color) (mark_moves pv sv index s')
              (λ s'' c.
                c
                ∙ Holds-done _ (play_if pv sv own index selected s) s'
                    (play_if-color own index selected s) e)
              (mark_moves-color index s'))))

  pub opponent_acts-color :
      (checks : Bool) (action : GameAction) (s : GameData pv sv)
      → Holds (Plays s.board.player_color) (opponent_acts pv sv checks action s)
  unfolding opponent_acts
  opponent_acts-color checks (move_piece mov) s = Holds-bind _ (reverse checks mov) _ (λ reversed _.
      on_move_piece-color
        (record s { globals = set_board_move reversed s.globals; waiting = s.waiting - 1 }))
  opponent_acts-color checks stalemate s = refl
  opponent_acts-color checks surrender s = refl

  pub start_new_game-color :
      (color : PieceColor) (b : Board pv sv)
      → Holds (λ b'. b'.player_color ≡ color) (start_new_game pv sv color b)
  unfolding start_new_game reset_squares
  start_new_game-color color b =
      Holds-bind _ (upgrade pv sv b.game) _
        (λ _ _. Holds-bind _ (reset_loop pv sv 32 0 b.squares) _ (λ squares _. refl))
