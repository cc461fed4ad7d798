-- ===== src/Screens/Starting.antt =====
-- Hosting on one machine and joining on the other start a match.
use psychic_fiesta.Prelude.{ℕ, ◌+◌, Bool, true, false, [], ◌≡◌, refl, ap, arith, length}
use psychic_fiesta.Prelude.Outcome.{done}
use psychic_fiesta.Game.{PieceData, PieceColor, white, black}
use psychic_fiesta.Packet.Wire.{Bytes}
use psychic_fiesta.Rows.{VecModel}
use psychic_fiesta.Board
use psychic_fiesta.Board.{Board, BoardSquare, alive, default_setup}
use psychic_fiesta.Board.Setup.{reset_loop_lem}
use psychic_fiesta.Lan.{Hex}
use psychic_fiesta.Network.{Peer}
use psychic_fiesta.Interface.{Machine, bind_socket, start_lan_host, start_lan_client}
use psychic_fiesta.Play.Reached.{MatchReach, starts}
use psychic_fiesta.Status.{set_connection_status, pending_connection}
use psychic_fiesta.Play.{wait_for_opponent}
use psychic_fiesta.Interface.{set_my_username}
use psychic_fiesta.Screens.{load_connecting_window, load_prompt_client_window}
use psychic_fiesta.Screens.{
  App, connecting, start_new_game, on_host_game, on_join_game, on_join_prompt,
}

module _ (pv : VecModel PieceData) (sv : VecModel BoardSquare) where
  -- The window is there, and has 32 squares.
  abbrev pub IsShown : Board pv sv → Type 0
  IsShown b = (b.game ≡ alive) × (length (sv.contents b.squares) ≡ 32)

  pub start_new_game-IsShown :
      (color : PieceColor) (b : Board pv sv)
      → IsShown b
      → (b' : Board pv sv) × (Board.start_new_game pv sv color b ≡ done b') × IsShown b'
  unfolding Board.start_new_game Board.reset_squares
  start_new_game-IsShown color b (live, size) =
      let (r', e, len, _) = reset_loop_lem pv sv 32 0 b.squares (omega arith) size in
      (
        record b {
          player_color = color;
          pieces = pv.from_vec (default_setup color);
          pieces_shown = true;
          squares = r';
        },
        rw live (rw e refl),
        (live, len),
      )

  -- One player hosts, on a machine where the host's start succeeds, with a clipboard that takes the
  -- code; another joins, on a machine with a free port; no task of theirs waits for an opponent.
  -- Both calls return, as does that of the prompt; their games are the start of a match: the host's
  -- with the white pieces and the turn, the client's with the black ones and a task that waits. The
  -- host's window shows the code, which is in the clipboard, and the client's the code as it was
  -- typed, trimmed.
  pub on_host_game-MatchReach :
      (checks : Bool) (hex : Hex) (m m' : Machine) (username code lan_code : Bytes)
      (trim : Bytes → Bytes) (port : ℕ) (p : Peer) (a c : App pv sv)
      → start_lan_host hex m a.peer ≡ done (code, p)
      → bind_socket m' ≡ done port
      → IsShown a.gamedata.board
      → IsShown c.gamedata.board
      → a.gamedata.waiting ≡ 0
      → c.gamedata.waiting ≡ 0
      → (h c₁ c₂ : App pv sv) × (on_host_game pv sv hex m true username a ≡ done h)
        × (on_join_game pv sv c ≡ done c₁)
        × (on_join_prompt pv sv trim m' lan_code c₁ ≡ done c₂)
        × MatchReach pv sv checks
            (record { host = h.gamedata; client = c₂.gamedata; to_client = []; to_host = [] })
        × (h.window.window_state ≡ connecting)
        × (h.window.join_code ≡ code)
        × (h.clipboard ≡ code)
        × (c₂.window.join_code ≡ trim lan_code)
  unfolding on_host_game on_join_game on_join_prompt start_new_game start_lan_client
  on_host_game-MatchReach checks hex m m' username code lan_code trim port p a c hosts binds shown
        shown' idle idle' =
      let (b, e, _) = start_new_game-IsShown white a.gamedata.board shown in
      let (b₁, e₁, shown₁) = start_new_game-IsShown black c.gamedata.board shown' in
      let (b₂, e₂, _) = start_new_game-IsShown black b₁ shown₁ in
      let h : App pv sv = record {
        gamedata = record a.gamedata { board = b; is_player_turn = true };
        window = load_connecting_window code true a.window;
        peer = set_my_username username p;
        clipboard = code;
      } in
      let c₁ : App pv sv = record c {
        gamedata = record c.gamedata { board = b₁ };
        window = load_prompt_client_window c.window;
      } in
      let c₂ : App pv sv = record c {
        gamedata = wait_for_opponent pv sv (record c.gamedata { board = b₂ });
        window = load_connecting_window (trim lan_code) false c₁.window;
        peer = record c.peer { conn = set_connection_status pending_connection c.peer.conn };
      } in
      (
        h,
        c₁,
        c₂,
        rw hosts (rw e refl),
        rw e₁ refl,
        rw binds (rw e₂ refl),
        starts a.gamedata.board b₁ e e₂ refl refl idle (ap (λ n. n + 1) idle') refl refl,
        refl,
        refl,
        refl,
        refl,
      )
