-- ===== src/Screens/Tests.antt =====
-- Ann hosts a game, and Bob joins it.
use psychic_fiesta.Prelude.{ℕ, zero, suc, ◌<◌, true, false, some, [], ◌∷◌, ◌≡◌, refl, ap, arith}
use psychic_fiesta.Prelude.Outcome.{done}
use psychic_fiesta.Packet.Wire.{Bytes}
use psychic_fiesta.Address.{v4}
use psychic_fiesta.Status.{connected, pending_connection}
use psychic_fiesta.Lan.{get_available_port, get_local_ip, hex_encode_ip}
use psychic_fiesta.Lan.Digits.{hex_digits}
use psychic_fiesta.Network.{Peer, initial_peer}
use psychic_fiesta.Interface.{is_connected, Machine, bind_socket, start_lan_host}
use psychic_fiesta.Board
use psychic_fiesta.Board.{initial_globals}
use psychic_fiesta.Board.Tests.{pv, sv}
use psychic_fiesta.Play.Reached.{MatchReach}
use psychic_fiesta.Screens.{App, Ui, start, connecting, no_username, on_host_game, on_join_game}
use psychic_fiesta.Screens.{on_join_prompt, host_task}
use psychic_fiesta.Screens.Starting.{on_host_game-MatchReach}
use psychic_fiesta.Screens.Watching.{found, Entered, host_task_first}

abbrev new_app : App pv sv
new_app = record {
  gamedata = record {
    board = Board.new pv sv;
    is_player_turn = false;
    globals = initial_globals;
    sent = [];
    waiting = 0;
  };
  window = record {
    window_state = start;
    join_code = [];
    is_host = false;
    my_username = [];
    other_username = [];
  };
  peer = initial_peer;
  clipboard = [];
}

abbrev machine : Machine
machine = record {
  bind = λ port. true;
  binds_again = true;
  netifas = some [];
  local_ip = some (v4 5);
}

-- "000000051770".
abbrev code : Bytes
code = b'0' ∷ b'0' ∷ b'0' ∷ b'0' ∷ b'0' ∷ b'0' ∷ b'0' ∷ b'5' ∷ b'1' ∷ b'7' ∷ b'7' ∷ b'0' ∷ []

abbrev hosting : Peer
hosting = record initial_peer {
  conn = record initial_peer.conn { status = pending_connection; join_code = some code };
}

hosts : start_lan_host hex_digits machine initial_peer ≡ done (code, hosting)
unfolding start_lan_host get_available_port get_local_ip hex_encode_ip hex_digits
hosts = refl

binds : bind_socket machine ≡ done 6000
unfolding bind_socket get_available_port
binds = refl

on_host_game-MatchReach_example :
    (h c₁ c₂ : App pv sv) × (on_host_game pv sv hex_digits machine true (b'A' ∷ []) new_app
      ≡ done h)
    × (on_join_game pv sv new_app ≡ done c₁)
    × (on_join_prompt pv sv (λ text. text) machine code c₁ ≡ done c₂)
    × MatchReach pv sv true
        (record { host = h.gamedata; client = c₂.gamedata; to_client = []; to_host = [] })
    × (h.window.window_state ≡ connecting)
    × (h.window.join_code ≡ code)
    × (h.clipboard ≡ code)
    × (c₂.window.join_code ≡ code)
unfolding Board.new
on_host_game-MatchReach_example =
    on_host_game-MatchReach pv sv true hex_digits machine machine (b'A' ∷ []) code code
      (λ text. text) 6000 hosting new_app new_app hosts binds (refl, refl) (refl, refl) refl refl

abbrev shows : ℕ → Ui
shows i = record { takes = true; alive = true }

-- The host's loop is at work: it sets the status, and the name only later.
abbrev with_status : App pv sv → App pv sv
with_status a = record a {
  peer = record a.peer { conn = record a.peer.conn { status = connected 0 } };
}

abbrev with_bob : App pv sv → App pv sv
with_bob a = record a {
  peer = record a.peer { conn = record a.peer.conn { other_username = some (b'B' ∷ []) } };
}

-- The thread's second check succeeds, and the name is there when the thread reads it.
abbrev arrives : ℕ → App pv sv → App pv sv
arrives (suc zero) a = with_status a
arrives (suc (suc zero)) a = with_bob a
arrives _ a = a

-- The same, with the name too late.
abbrev arrives_late : ℕ → App pv sv → App pv sv
arrives_late (suc zero) a = with_status a
arrives_late _ a = a

no_one :
    (tasks : ℕ → App pv sv → App pv sv) (j : ℕ)
    → tasks 0 new_app ≡ new_app
    → j < 1
    → is_connected (found pv sv j tasks new_app).peer ≡ false
no_one tasks zero e lt = ap (λ a. is_connected a.peer) e
no_one tasks (suc j) e lt = absurd (omega arith)

host_task_first_example :
    (a' : App pv sv) × (host_task pv sv 2 shows arrives (b'A' ∷ []) new_app ≡ done a')
    × Entered pv sv (b'A' ∷ []) (b'B' ∷ []) (with_bob (with_status new_app)) a'
host_task_first_example =
    host_task_first pv sv 1 2 shows arrives (b'A' ∷ []) new_app (refl, refl, refl, refl)
      (λ j lt. no_one arrives j refl lt) refl (omega arith)

nameless :
    (a' : App pv sv) × (host_task pv sv 2 shows arrives_late (b'A' ∷ []) new_app ≡ done a')
    × Entered pv sv (b'A' ∷ []) no_username (with_status new_app) a'
nameless =
    host_task_first pv sv 1 2 shows arrives_late (b'A' ∷ []) new_app (refl, refl, refl, refl)
      (λ j lt. no_one arrives_late j refl lt) refl (omega arith)
