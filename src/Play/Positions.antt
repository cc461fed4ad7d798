-- ===== src/Play/Positions.antt =====
-- A click and a received action keep two games in a position of a game by the rules.
use psychic_fiesta.Prelude.{Bool, true, false, some, List, [], ◌∷◌, ◌++◌, ◌≡◌, ◌≢◌}
use psychic_fiesta.Prelude.{inl, inr, refl, sym, ap, ◌∙◌, arith}
use psychic_fiesta.Prelude.Outcome.{done}
use psychic_fiesta.Prelude.Int.{ℤ}
use psychic_fiesta.Prelude.Holds.{Holds-done}
use psychic_fiesta.Game.{PieceColor, white, black, get_opposite, PieceData, GameAction}
use psychic_fiesta.Legal.{Pieces}
use psychic_fiesta.Rows.{VecModel}
use psychic_fiesta.Board.{BoardSquare}
use psychic_fiesta.Board.AllLawful.{get_legal_moves-Legal}
use psychic_fiesta.Play.{GameData, on_board_clicked, opponent_acts}
use psychic_fiesta.Play.Clicks.{Unplayed, Clicked, on_board_clicked-Clicked}
use psychic_fiesta.Play.Mirrored.{Mirrored}
use psychic_fiesta.Play.Match.{pieces_of}
use psychic_fiesta.Play.Turns.{InTurn, receives-Mirrored, performed, offered-Starts}
use psychic_fiesta.Play.Turns.{append_same}
use psychic_fiesta.Play.Colors.{on_board_clicked-color, opponent_acts-color}
use psychic_fiesta.Play.Rules.{Played, moves}
use mathlib.Core.Path.{subst}
use mathlib.Core.List.{append-nil}

opposite_twice : (c : PieceColor) → get_opposite (get_opposite c) ≡ c
opposite_twice white = refl
opposite_twice black = refl

module _ (pv : VecModel PieceData) (sv : VecModel BoardSquare) where
  abbrev pub color_of : GameData pv sv → PieceColor
  color_of s = s.board.player_color

  -- If `s` has the turn, the two boards are a position of a game with `s` to move; while a move of `s`
  -- is on its way, the board of `s` with any mirror image is one with `t` to move.
  abbrev pub Half : GameData pv sv → GameData pv sv → List GameAction → Type 0
  Half s t q =
      (s.is_player_turn ≡ true → Played (color_of s) (pieces_of pv sv s) (pieces_of pv sv t))
      × (q ≢ []
          → (ys : Pieces) → Mirrored (pieces_of pv sv s) ys
          → Played (color_of t) ys (pieces_of pv sv s))

  abbrev pub Position : GameData pv sv → GameData pv sv → List GameAction → List GameAction → Type 0
  Position s t q r = (color_of t ≡ get_opposite (color_of s)) × Half s t q × Half t s r

  pub Position-swap :
      (s t : GameData pv sv) (q r : List GameAction) → Position s t q r → Position t s r q
  Position-swap s t q r (c, h, h') =
      (sym (opposite_twice (color_of s)) ∙ sym (ap get_opposite c), h', h)

  -- Who has the turn has nothing on the way, in either direction, and the other has no turn.
  on_turn :
      (s t : GameData pv sv) (q r : List GameAction)
      → InTurn pv sv s t q r
      → s.is_player_turn ≡ true
      → Mirrored (pieces_of pv sv s) (pieces_of pv sv t)
        × (t.is_player_turn ≡ false)
        × (q ≡ [])
        × (r ≡ [])
  on_turn s t q r (inl (m, turns, _, _, e, e')) on = (m, ground (arith, turns, on), e, e')
  on_turn s t q r (inr (inl ((_, _, off, _, _, _, _, _, _, _, _, _), _))) on = absurd (cc (on, off))
  on_turn s t q r (inr (inr ((_, _, _, off, _, _, _, _, _, _, _, _), _))) on = absurd (cc (on, off))

  module _ (s s' t : GameData pv sv) (q r new : List GameAction) (c : color_of s' ≡ color_of s)
      (added : s'.sent ≡ s.sent ++ new) (turn : InTurn pv sv s t q r) where
    Unplayed-Position : Unplayed pv sv s s' → Position s t q r → Position s' t (q ++ new) r
    Unplayed-Position (sent, same_turn, same, _) h =
        let nothing = append_same s.sent new (sym added ∙ sent) in
        let shown = ap pv.contents same in rw (nothing, append-nil q, same_turn, c, shown) h

    Clicked-Position :
        (index : ℤ) → Clicked pv sv index s s' → Position s t q r → Position s' t (q ++ new) r
    Clicked-Position index (inl u) h = Unplayed-Position u h
    Clicked-Position index (inr (mine, offered, legal, (mov, l, _, _, _, over, _, b, e, shown)))
          (c', h, h') =
        let (m, off, _, none_back) = on_turn s t q r turn mine in
        let (p, at, inside) = offered-Starts pv sv s.board offered mov m.0 legal l in
        let lawful =
          (Holds-done _ _ (some offered) (get_legal_moves-Legal pv sv s.board m.0) legal mov).0 l in
        let shape =
          ap pv.contents shown
          ∙ performed pv sv mov (record s.board { selected_square = index }) b m.0 p at inside e in
        (
          c' ∙ ap get_opposite (sym c),
          (
            λ on. absurd (cc (on, over)),
            λ _ ys mirrored. moves mov p (h.0 mine) lawful at shape mirrored c',
          ),
          (λ on. absurd (cc (on, off)), λ back. absurd (back none_back)),
        )

  pub clicks-Position :
      (index : ℤ) (s s' t : GameData pv sv) (q r new : List GameAction)
      → on_board_clicked pv sv index s ≡ done s'
      → s'.sent ≡ s.sent ++ new
      → InTurn pv sv s t q r
      → Position s t q r
      → Position s' t (q ++ new) r
  clicks-Position index s s' t q r new e added turn =
      Clicked-Position s s' t q r new
        (Holds-done (λ x. color_of x ≡ color_of s) (on_board_clicked pv sv index s) s'
          (on_board_clicked-color pv sv index s) e)
        added turn index (Holds-done _ _ s' (on_board_clicked-Clicked pv sv index s) e)

  pub receives-Position :
      (checks : Bool) (action : GameAction) (s t t' : GameData pv sv) (q rest r : List GameAction)
      → q ≡ action ∷ rest
      → opponent_acts pv sv checks action t ≡ done t'
      → InTurn pv sv s t q r
      → Position s t q r
      → Position s t' rest r
  receives-Position checks action s t t' q rest r e acts turn (c, h, h') =
      let (u, acts', kept, over, _, off, nothing, _, _, _) =
        receives-Mirrored pv sv checks action s t rest r
          (subst (λ l. InTurn pv sv s t l r) e turn) in
      let same : u ≡ t' = cc (acts, acts') in
      let mirrored = subst (λ v. Mirrored (pieces_of pv sv s) (pieces_of pv sv v)) same kept in
      let color : color_of t' ≡ color_of t =
        Holds-done (λ x. color_of x ≡ color_of t) (opponent_acts pv sv checks action t) t'
          (opponent_acts-color pv sv checks action t) acts in
      (
        color ∙ c,
        (λ on. absurd (cc (on, off)), λ ahead. absurd (ahead over)),
        (
          λ _.
              subst (λ x. Played x (pieces_of pv sv t') (pieces_of pv sv s)) (sym color)
                (h.1 (λ z. cc (e, z)) (pieces_of pv sv t') mirrored),
          λ back. absurd (back nothing),
        ),
      )
