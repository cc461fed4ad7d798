-- ===== src/Play/Refines.antt =====
-- A match of two processes plays by the rules.
use psychic_fiesta.Prelude.{Bool, true, false, List, [], ◌∷◌, ◌++◌, ◌≡◌, ◌⊎◌}
use psychic_fiesta.Prelude.{Bool-cases, inl, inr, sym, ap, ◌∙◌, arith}
use psychic_fiesta.Prelude.Outcome.{done}
use psychic_fiesta.Prelude.Holds.{Holds-done}
use psychic_fiesta.Game.{white, black, get_opposite, PieceData, Move, GameAction, move_piece}
use psychic_fiesta.Legal.{Pieces}
use psychic_fiesta.Rows.{VecModel}
use psychic_fiesta.Board.{Board, BoardSquare, start_new_game}
use psychic_fiesta.Play.{GameData, on_board_clicked, opponent_acts}
use psychic_fiesta.Play.Mirrored.{Mirrored}
use psychic_fiesta.Play.Match.{pieces_of}
use psychic_fiesta.Play.Turns.{InTurn, InTurn-swap, receives-Mirrored}
use psychic_fiesta.Play.Reached.{Match, MatchStep, MatchReach, MatchReach-InTurn}
use psychic_fiesta.Play.Reached.{host_clicks, client_clicks, client_receives, host_receives}
use psychic_fiesta.Play.Reached.{starts, later, start_new_game-pieces}
use psychic_fiesta.Play.Colors.{on_board_clicked-color, opponent_acts-color, start_new_game-color}
use psychic_fiesta.Play.Rules.{Played, opening}
use mathlib.Core.Path.{subst}
use psychic_fiesta.Play.Positions.{
  color_of, Position, Position-swap, clicks-Position, receives-Position,
}

module _ (pv : VecModel PieceData) (sv : VecModel BoardSquare) where
  abbrev MatchPosition : Match pv sv → Type 0
  MatchPosition m = Position pv sv m.host m.client m.to_client m.to_host

  MatchStep-white :
      (checks : Bool) (m m' : Match pv sv)
      → MatchStep pv sv checks m m'
      → color_of pv sv m.host ≡ white
      → color_of pv sv m'.host ≡ white
  MatchStep-white checks m m' (host_clicks index s new e added q) first =
      ap (λ x. color_of pv sv x.host) q
      ∙ Holds-done (λ x. color_of pv sv x ≡ color_of pv sv m.host)
          (on_board_clicked pv sv index m.host) s (on_board_clicked-color pv sv index m.host) e
      ∙ first
  MatchStep-white checks m m' (client_clicks index s new e added q) first =
      ap (λ x. color_of pv sv x.host) q ∙ first
  MatchStep-white checks m m' (client_receives action rest t e _ acts q) first =
      ap (λ x. color_of pv sv x.host) q ∙ first
  MatchStep-white checks m m' (host_receives action rest t e _ acts q) first =
      ap (λ x. color_of pv sv x.host) q
      ∙ Holds-done (λ x. color_of pv sv x ≡ color_of pv sv m.host)
          (opponent_acts pv sv checks action m.host) t
          (opponent_acts-color pv sv checks action m.host) acts
      ∙ first

  MatchStep-Position :
      (checks : Bool) (m m' : Match pv sv)
      → MatchStep pv sv checks m m'
      → InTurn pv sv m.host m.client m.to_client m.to_host
      → MatchPosition m
      → MatchPosition m'
  MatchStep-Position checks m m' (host_clicks index s new e added q) turn h =
      subst MatchPosition (sym q)
        (clicks-Position pv sv index m.host s m.client m.to_client m.to_host new e added turn h)
  MatchStep-Position checks m m' (client_clicks index s new e added q) turn h =
      subst MatchPosition (sym q) (
        Position-swap pv sv s m.host (m.to_host ++ new) m.to_client (
          clicks-Position pv sv index m.client s m.host m.to_host m.to_client new e added
            (InTurn-swap pv sv m.host m.client m.to_client m.to_host turn)
            (Position-swap pv sv m.host m.client m.to_client m.to_host h)))
  MatchStep-Position checks m m' (client_receives action rest t e _ acts q) turn h =
      subst MatchPosition (sym q) (
        receives-Position pv sv checks action m.host m.client t m.to_client rest m.to_host e acts
          turn h)
  MatchStep-Position checks m m' (host_receives action rest t e _ acts q) turn h =
      subst MatchPosition (sym q) (
        Position-swap pv sv m.client t rest m.to_client (
          receives-Position pv sv checks action m.client m.host t m.to_host rest m.to_client e acts
            (InTurn-swap pv sv m.host m.client m.to_client m.to_host turn)
            (Position-swap pv sv m.host m.client m.to_client m.to_host h)))

  starts-Position :
      (m : Match pv sv) (b c : Board pv sv)
      → start_new_game pv sv white b ≡ done m.host.board
      → start_new_game pv sv black c ≡ done m.client.board
      → m.client.is_player_turn ≡ false
      → m.to_client ≡ []
      → m.to_host ≡ []
      → (color_of pv sv m.host ≡ white) × MatchPosition m
  starts-Position m b c e e' theirs q r =
      let first = Holds-done _ _ m.host.board (start_new_game-color pv sv white b) e in
      let second = Holds-done _ _ m.client.board (start_new_game-color pv sv black c) e' in
      let up = Holds-done _ _ m.host.board (start_new_game-pieces pv sv white b) e in
      let down = Holds-done _ _ m.client.board (start_new_game-pieces pv sv black c) e' in
      (
        first,
        (
          second ∙ ap get_opposite (sym first),
          (λ _. opening first up down, λ ahead. absurd (ahead q)),
          (λ on. absurd (cc (on, theirs)), λ back. absurd (back r)),
        ),
      )

  reached :
      (checks : Bool) {m : Match pv sv}
      → MatchReach pv sv checks m
      → (color_of pv sv m.host ≡ white) × MatchPosition m
  reached checks {m} (starts b c e e' _ theirs _ _ q r) = starts-Position m b c e e' theirs q r
  reached checks (later {m = m} {m' = m'} reach st) =
      let (first, h) = reached checks reach in
      (
        MatchStep-white checks m m' st first,
        MatchStep-Position checks m m' st (MatchReach-InTurn pv sv checks reach) h,
      )

  -- What a match shows of a game by the rules: a position, with the player to move who has the turn;
  -- or, with a move on its way, one with the receiver to move, who sees the mirror image of the
  -- sender's board.
  abbrev pub InGame : Match pv sv → Type 0
  InGame m =
      ((m.host.is_player_turn ≡ true)
        × Played white (pieces_of pv sv m.host) (pieces_of pv sv m.client))
      ⊎ (((m.client.is_player_turn ≡ true)
            × Played black (pieces_of pv sv m.client) (pieces_of pv sv m.host))
          ⊎ (((mov : Move) × (m.to_client ≡ move_piece mov ∷ [])
                × (ys : Pieces) × Mirrored (pieces_of pv sv m.host) ys
                × Played black ys (pieces_of pv sv m.host))
              ⊎ ((mov : Move) × (m.to_host ≡ move_piece mov ∷ [])
                  × (xs : Pieces) × Mirrored (pieces_of pv sv m.client) xs
                  × Played white xs (pieces_of pv sv m.client))))

  -- The board that the receiver will have.
  arriving :
      (s t : GameData pv sv) (q r : List GameAction) (mov : Move)
      → q ≡ move_piece mov ∷ []
      → InTurn pv sv s t q r
      → (ys : Pieces) × Mirrored (pieces_of pv sv s) ys
  arriving s t q r mov e turn =
      let (t', _, kept, _, _, _, _, _, _, _) =
        receives-Mirrored pv sv true (move_piece mov) s t [] r
          (subst (λ l. InTurn pv sv s t l r) e turn) in
      (pieces_of pv sv t', kept)

  shows :
      (m : Match pv sv)
      → InTurn pv sv m.host m.client m.to_client m.to_host
      → color_of pv sv m.host ≡ white
      → MatchPosition m
      → InGame m
  shows m turn first (c, h, h') = go turn
    where
      second : color_of pv sv m.client ≡ black
      second = c ∙ ap get_opposite first

      go : InTurn pv sv m.host m.client m.to_client m.to_host → InGame m
      go (inl (_, turns, _, _, _, _)) = elim (Bool-cases m.host.is_player_turn) [
        | inl on ↦ inl (on, rw first at (h.0 on))
        | inr off ↦
            let on : m.client.is_player_turn ≡ true = ground (arith, turns, off) in
            inr (inl (on, rw second at (h'.0 on)))
      ]
      go (inr (inl ((mov, one, _, _, _, _, _, _, _, _, _, _), _))) =
          let (ys, mirrored) = arriving m.host m.client m.to_client m.to_host mov one turn in
          inr (
            inr (
              inl (
                mov,
                one,
                ys,
                mirrored,
                subst (λ k. Played k ys (pieces_of pv sv m.host)) second
                    (h.1 (λ z. cc (one, z)) ys mirrored),
              )))
      go (inr (inr ((mov, one, _, _, _, _, _, _, _, _, _, _), _))) =
          let (xs, mirrored) =
            arriving m.client m.host m.to_host m.to_client mov one
              (InTurn-swap pv sv m.host m.client m.to_client m.to_host turn) in
          inr (
            inr (
              inr (
                mov,
                one,
                xs,
                mirrored,
                subst (λ k. Played k xs (pieces_of pv sv m.client)) first
                    (h'.1 (λ z. cc (one, z)) xs mirrored),
              )))

  -- In every state that a match reaches, it shows a position of a game by the rules, in which white
  -- opened and each move was legal for the player who made it: if the host has the turn, the two
  -- boards are one with white to move, and if the client has it, one with black to move; else one
  -- move is on its way, and the sender's board and its mirror image are one, with the receiver to
  -- move.
  pub MatchReach-InGame : (checks : Bool) (m : Match pv sv) → MatchReach pv sv checks m → InGame m
  MatchReach-InGame checks m r =
      let (first, h) = reached checks r in shows m (MatchReach-InTurn pv sv checks r) first h
