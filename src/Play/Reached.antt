-- ===== src/Play/Reached.antt =====
-- Every state of a match between two processes: clicks of both players, and the actions that one
-- sends and the other receives, each once and in order (Interface/Delivery has one on its way).
use psychic_fiesta.Prelude.{if◌then◌else◌, ◌≤◌, Bool, true, false, not, List, [], ◌∷◌, ◌++◌}
use psychic_fiesta.Prelude.{◌≡◌, sym, ap, ◌∙◌, inl}
use psychic_fiesta.Prelude.Outcome.{done}
use psychic_fiesta.Prelude.Int.{ℤ}
use psychic_fiesta.Prelude.Holds.{Holds, Holds-bind, Holds-done}
use psychic_fiesta.Game.{PieceData, PieceColor, GameAction, white, black}
use psychic_fiesta.Rows.{VecModel}
use psychic_fiesta.Board.{
  Board, BoardSquare, default_setup, start_new_game, reset_loop, reset_squares,
}
use psychic_fiesta.Board.{upgrade}
use psychic_fiesta.Play.{GameData, on_board_clicked, opponent_acts}
use psychic_fiesta.Play.Clicks.{on_board_clicked-Clicked}
use psychic_fiesta.Play.Mirrored.{Mirrored, default_setup-Mirrored}
use psychic_fiesta.Play.Match.{pieces_of}
use psychic_fiesta.Play.Turns.{InTurn, InTurn-swap, clicks-InTurn, receives-Mirrored}
use mathlib.Core.Path.{subst}

module _ (pv : VecModel PieceData) (sv : VecModel BoardSquare) where
  -- The games of the host and of the client, and the actions on their way.
  pub record Match : Type 0 where
    pub host : GameData pv sv
    pub client : GameData pv sv
    pub to_client : List GameAction
    pub to_host : List GameAction

  -- A click of either player, whose sent actions are then on their way, or the first action on its
  -- way handled by a task that waits for it.
  pub data MatchStep (checks : Bool) (m m' : Match) : Type 0 where
    host_clicks :
        (index : ℤ) (s : GameData pv sv) (new : List GameAction)
        → on_board_clicked pv sv index m.host ≡ done s
        → s.sent ≡ m.host.sent ++ new
        → m' ≡ record m { host = s; to_client = m.to_client ++ new }
        → MatchStep checks m m'
    client_clicks :
        (index : ℤ) (s : GameData pv sv) (new : List GameAction)
        → on_board_clicked pv sv index m.client ≡ done s
        → s.sent ≡ m.client.sent ++ new
        → m' ≡ record m { client = s; to_host = m.to_host ++ new }
        → MatchStep checks m m'
    client_receives :
        (action : GameAction) (rest : List GameAction) (t : GameData pv sv)
        → m.to_client ≡ action ∷ rest
        → 1 ≤ m.client.waiting
        → opponent_acts pv sv checks action m.client ≡ done t
        → m' ≡ record m { client = t; to_client = rest }
        → MatchStep checks m m'
    host_receives :
        (action : GameAction) (rest : List GameAction) (t : GameData pv sv)
        → m.to_host ≡ action ∷ rest
        → 1 ≤ m.host.waiting
        → opponent_acts pv sv checks action m.host ≡ done t
        → m' ≡ record m { host = t; to_host = rest }
        → MatchStep checks m m'

  -- The states reached after both started a new game, the host with the white pieces and the turn,
  -- the client with the black ones and a task that waits.
  pub data MatchReach (checks : Bool) : Match → Type 0 where
    starts :
        {m : Match} (b c : Board pv sv)
        → start_new_game pv sv white b ≡ done m.host.board
        → start_new_game pv sv black c ≡ done m.client.board
        → m.host.is_player_turn ≡ true
        → m.client.is_player_turn ≡ false
        → m.host.waiting ≡ 0
        → m.client.waiting ≡ 1
        → m.to_client ≡ []
        → m.to_host ≡ []
        → MatchReach checks m
    later : {m m' : Match} → MatchReach checks m → MatchStep checks m m' → MatchReach checks m'

  abbrev pub MatchInTurn : Match → Type 0
  MatchInTurn m = InTurn pv sv m.host m.client m.to_client m.to_host

  pub start_new_game-pieces :
      (color : PieceColor) (b : Board pv sv)
      → Holds (λ b'. pv.contents b'.pieces ≡ default_setup color) (start_new_game pv sv color b)
  unfolding start_new_game reset_squares
  start_new_game-pieces color b =
      Holds-bind (λ b'. pv.contents b'.pieces ≡ default_setup color) (upgrade pv sv b.game) _
        (λ _ _.
          Holds-bind (λ b'. pv.contents b'.pieces ≡ default_setup color)
            (reset_loop pv sv 32 0 b.squares) _
            (λ squares _. pv.contents-from_vec (default_setup color)))

  starts-InTurn :
      (m : Match) (b c : Board pv sv)
      → start_new_game pv sv white b ≡ done m.host.board
      → start_new_game pv sv black c ≡ done m.client.board
      → m.host.is_player_turn ≡ true
      → m.client.is_player_turn ≡ false
      → m.host.waiting ≡ 0
      → m.client.waiting ≡ 1
      → m.to_client ≡ []
      → m.to_host ≡ []
      → MatchInTurn m
  starts-InTurn m b c e e' mine theirs none_waits one_waits q r =
      let up = Holds-done _ _ m.host.board (start_new_game-pieces white b) e in
      let down = Holds-done _ _ m.client.board (start_new_game-pieces black c) e' in
      inl (
        subst (λ xs. Mirrored xs (pieces_of pv sv m.client)) (sym up)
            (subst (Mirrored _) (sym down) default_setup-Mirrored),
        mine ∙ ap not (sym theirs),
        none_waits ∙ ap (λ x. if x then 0 else 1) (sym mine),
        one_waits ∙ ap (λ x. if x then 0 else 1) (sym theirs),
        q,
        r,
      )

  received :
      (checks : Bool) (action : GameAction) (s t t' : GameData pv sv) (q rest r : List GameAction)
      → q ≡ action ∷ rest
      → opponent_acts pv sv checks action t ≡ done t'
      → InTurn pv sv s t q r
      → InTurn pv sv s t' rest r
  received checks action s t t' q rest r e acts turn =
      let (u, acts', kept, over, on, off, nothing, ws, wt, _) =
        receives-Mirrored pv sv checks action s t rest r
          (subst (λ l. InTurn pv sv s t l r) e turn) in
      Holds-done (λ v. InTurn pv sv s v rest r) (opponent_acts pv sv checks action t) t'
        (rw acts' (inl (kept, off ∙ ap not (sym on), ws, wt, over, nothing))) acts

  MatchStep-InTurn :
      (checks : Bool) (m m' : Match) → MatchStep checks m m' → MatchInTurn m → MatchInTurn m'
  MatchStep-InTurn checks m m' (host_clicks index s new e added q) turn =
      let c = Holds-done _ _ s (on_board_clicked-Clicked pv sv index m.host) e in
      subst MatchInTurn (sym q)
        (clicks-InTurn pv sv index m.host s m.client m.to_client m.to_host new c added turn)
  MatchStep-InTurn checks m m' (client_clicks index s new e added q) turn =
      let c = Holds-done _ _ s (on_board_clicked-Clicked pv sv index m.client) e in
      subst MatchInTurn (sym q) (
        InTurn-swap pv sv s m.host (m.to_host ++ new) m.to_client (
          clicks-InTurn pv sv index m.client s m.host m.to_host m.to_client new c added
            (InTurn-swap pv sv m.host m.client m.to_client m.to_host turn)))
  MatchStep-InTurn checks m m' (client_receives action rest t e _ acts q) turn =
      subst MatchInTurn (sym q)
        (received checks action m.host m.client t m.to_client rest m.to_host e acts turn)
  MatchStep-InTurn checks m m' (host_receives action rest t e _ acts q) turn =
      subst MatchInTurn (sym q) (
        InTurn-swap pv sv m.client t rest m.to_client (
          received checks action m.client m.host t m.to_host rest m.to_client e acts
            (InTurn-swap pv sv m.host m.client m.to_client m.to_host turn)))

  -- In every state that a match reaches by clicks and received actions, either nothing is on its
  -- way, the boards are mirrored and exactly one player has the turn; or neither has it, and one
  -- move of one of them is on its way, made on the mirror image of the other's board, from a piece
  -- and within the board. A game waits for the opponent with one task, and with none while its
  -- player has the turn.
  pub MatchReach-InTurn : (checks : Bool) {m : Match} → MatchReach checks m → MatchInTurn m
  MatchReach-InTurn checks {m} (starts b c e e' mine theirs v w q r) =
      starts-InTurn m b c e e' mine theirs v w q r
  MatchReach-InTurn checks (later {m = m} {m' = m'} r st) =
      MatchStep-InTurn checks m m' st (MatchReach-InTurn checks r)
