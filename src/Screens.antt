-- ===== src/Screens.antt =====
-- src/game/data.rs: hosting and joining a game, and what the window shows meanwhile. `App` is the
-- game's data with the window's properties that these calls set, the process's statics and the
-- clipboard; the properties that the user types are arguments. A spawned task is a function of its
-- own: in `host_task`, `tasks i` is what happens before its access `i` to the statics; while `join_task`
-- runs, other tasks change the statics only. Slint's event loop is an argument.
pub mod Starting
pub mod Watching
mod Tests
use psychic_fiesta.Prelude.{ℕ, zero, suc, Bool, true, false, if◌then◌else◌, ◌&&◌}
use psychic_fiesta.Prelude.{[], ◌∷◌}
use psychic_fiesta.Prelude.Outcome.{Outcome, done, panic, stuck, ◌>>=◌}
use psychic_fiesta.Game.{PieceData, PieceColor, white, black}
use psychic_fiesta.Packet.Wire.{Bytes}
use psychic_fiesta.Rows.{VecModel}
use psychic_fiesta.Board
use psychic_fiesta.Board.{BoardSquare}
use psychic_fiesta.Play.{GameData, wait_for_opponent}
use psychic_fiesta.Lan.{Hex}
use psychic_fiesta.Queue.{Net}
use psychic_fiesta.Network.{Peer}
use psychic_fiesta.Network.Host.{unwrap_or}
use psychic_fiesta.Interface.{Machine, Reply, accepted, start_lan_host, start_lan_client}
use psychic_fiesta.Interface.{
  connect_to_host_loop, is_connected, get_other_username, set_my_username,
}

-- `WindowType` of ui/game_window.slint.
pub data WindowType : Type 0 where
  start lan_prompt connecting game : WindowType

pub record Window : Type 0 where
  pub window_state : WindowType
  pub join_code : Bytes
  pub is_host : Bool
  pub my_username : Bytes
  pub other_username : Bytes

abbrev pub load_start_window : Window → Window
load_start_window w = record w { window_state = start }

abbrev pub load_game_window : Window → Window
load_game_window w = record w { window_state = game }

abbrev pub load_connecting_window : Bytes → Bool → Window → Window
load_connecting_window join_code is_host w = record w {
  join_code = join_code;
  is_host = is_host;
  window_state = connecting;
}

abbrev pub load_prompt_client_window : Window → Window
load_prompt_client_window w = record w { window_state = lan_prompt }

-- `set-usernames` of ui/game_window.slint.
abbrev pub set_usernames : Bytes → Bytes → Window → Window
set_usernames my other w = record w { my_username = my; other_username = other }

-- "NO USERNAME".
abbrev pub no_username : Bytes
no_username = b'N' ∷ b'O' ∷ b' ' ∷ b'U' ∷ b'S' ∷ b'E' ∷ b'R' ∷ b'N' ∷ b'A' ∷ b'M' ∷ b'E' ∷ []

-- What Slint does with a closure: whether the event loop takes it, and whether the window is still there
-- when it runs.
pub record Ui : Type 0 where
  pub takes : Bool
  pub alive : Bool

-- `slint::invoke_from_event_loop(..).unwrap()`, with a closure that upgrades its weak handle, unwraps
-- that and calls the window. Either unwrap may panic, the first in the task, the second in the thread
-- of the window.
abbrev pub invoke_from_event_loop : Ui → (Window → Window) → Window → Outcome Window
invoke_from_event_loop ui call w = if ui.takes && ui.alive then done (call w) else panic

module _ (pv : VecModel PieceData) (sv : VecModel BoardSquare) where
  pub record App : Type 0 where
    pub gamedata : GameData pv sv
    pub window : Window
    pub peer : Peer
    pub clipboard : Bytes

  unfoldable pub start_new_game : PieceColor → GameData pv sv → Outcome (GameData pv sv)
  start_new_game your_color s = do
    board ← Board.start_new_game pv sv your_color s.board
    done (record s { board = board })

  -- What a task does to the window once the other player is known, in two closures.
  unfoldable pub enter_game : (ℕ → Ui) → Bytes → Bytes → App → Outcome App
  enter_game ui my other a = do
    named ← invoke_from_event_loop (ui 0) (set_usernames my other) a.window
    shown ← invoke_from_event_loop (ui 1) load_game_window named
    done (record a { window = shown })

  -- The callback of `on_host_game`; `copies` says whether the clipboard takes the code.
  unfoldable pub on_host_game : Hex → Machine → Bool → Bytes → App → Outcome App
  unfolding start_new_game
  on_host_game hex m copies username a = do
    (join_code, peer) ← start_lan_host hex m a.peer
    clipboard ← if copies then done join_code else panic
    s ← start_new_game white a.gamedata
    done (record {
      gamedata = record s { is_player_turn = true };
      window = load_connecting_window join_code true a.window;
      peer = set_my_username username peer;
      clipboard = clipboard;
    })

  -- Its thread, with at most so many checks; once one succeeds, the other player's name is read.
  unfoldable pub host_task : ℕ → (ℕ → Ui) → (ℕ → App → App) → Bytes → App → Outcome App
  unfolding enter_game
  host_task zero ui tasks username a = stuck
  host_task (suc n) ui tasks username a =
      let now = tasks 0 a in
      let rest = host_task n ui (λ i. tasks (suc i)) username now in
      let reads = tasks 1 now in
      if is_connected now.peer
      then enter_game ui username (unwrap_or (get_other_username reads.peer) no_username) reads
      else rest

  -- The callback of `on_join_game`, and the callback that it gives to the prompt; `trim` is `str`'s.
  unfoldable pub on_join_game : App → Outcome App
  unfolding start_new_game
  on_join_game a = do
    s ← start_new_game black a.gamedata
    done (record a { gamedata = s; window = load_prompt_client_window a.window })

  unfoldable pub on_join_prompt : (Bytes → Bytes) → Machine → Bytes → App → Outcome App
  on_join_prompt trim m lan_code a = do
    peer ← start_lan_client m a.peer
    board ← Board.start_new_game pv sv black a.gamedata.board
    done (record a {
      gamedata = wait_for_opponent pv sv (record a.gamedata { board = board });
      window = load_connecting_window (trim lan_code) false a.window;
      peer = peer;
    })

  -- Its task: a reply that does not accept the player is unwrapped.
  abbrev pub on_joined : (ℕ → Ui) → Bytes → App → Reply × Peer → Outcome App
  unfolding enter_game
  on_joined ui username a (accepted color host_username, peer) =
      enter_game ui username host_username (record a { peer = peer })
  on_joined ui username a (_, peer) = panic

  unfoldable pub join_task :
      ℕ
      → Hex
      → (ℕ → ℕ → Peer → Peer)
      → (ℕ → Net → Net)
      → ℕ
      → (ℕ → ℕ → ℕ)
      → (ℕ → Ui)
      → Bytes
      → Bytes
      → App
      → Outcome App
  join_task rounds hex tasks others fuel draw ui join_code username a =
      connect_to_host_loop rounds hex tasks others fuel draw join_code username a.peer >>= λ r.
      on_joined ui username a r
