-- ===== src/Interface/Playing.antt =====
-- Every state that the process of a client can reach.
use psychic_fiesta.Prelude.{ℕ, ◌≤◌, Bool, Option, none, some}
use psychic_fiesta.Prelude.{◌≡◌}
use psychic_fiesta.Prelude.Outcome.{done}
use psychic_fiesta.Game.{GameAction}
use psychic_fiesta.Packet.Wire.{Bytes}
use psychic_fiesta.Packet.{P2pPacket}
use psychic_fiesta.Address.{SocketAddr}
use psychic_fiesta.Status.{
  ConnectionStatus, disconnected, pending_connection, reconnecting, connected,
}
use psychic_fiesta.Status.{ConnectionData, set_other_addr, set_join_code}
use psychic_fiesta.Lan.{Hex}
use psychic_fiesta.Queue.{Net, Closure}
use psychic_fiesta.Network.{Peer, initial_peer, Datagram, handle_outgoing_queue}
use psychic_fiesta.Network.Client.{ping_start, ping_finish, client_round}
use psychic_fiesta.Interface.{Machine, start_lan_client, send_join_request}
use psychic_fiesta.Interface.{check_for_connection_resp}
use psychic_fiesta.Interface.{send_game_action, get_next_game_action, set_my_username}

-- The process, and the ping that its task waits for.
pub record ClientLoop : Type 0 where
  pub peer : Peer
  pub waits_for : Option ℕ

-- The address, the code and the name that `connect_to_host_loop` sets before its loop.
abbrev pub ask : SocketAddr → Bytes → Bytes → Peer → Peer
ask host_addr join_code username p =
    set_my_username username
      (record p { conn = set_other_addr host_addr (set_join_code join_code p.conn) })

-- What the process does: a call of the game, where `connect_to_host_loop` is cut into what it sets,
-- its requests and its checks; a round of either loop; or half a round of the one task that pings,
-- which waits for the pong before its next round.
pub data ClientStep (h h' : ClientLoop) : Type 0 where
  opens :
      (m : Machine) (p : Peer)
      → start_lan_client m h.peer ≡ done p
      → h' ≡ record h { peer = p }
      → ClientStep h h'
  asks :
      (host_addr : SocketAddr) (join_code username : Bytes)
      → h' ≡ record h { peer = ask host_addr join_code username h.peer }
      → ClientStep h h'
  requests :
      (hex : Hex) (others : ℕ → Net → Net) (fuel : ℕ) (draw : ℕ → ℕ) (join_code username : Bytes)
      (id : ℕ) (p : Peer)
      → send_join_request hex others fuel draw join_code username h.peer ≡ done (id, p)
      → h' ≡ record h { peer = p }
      → ClientStep h h'
  checks :
      (others : Net → Net) (id : ℕ)
      → h' ≡ record h { peer = (check_for_connection_resp others id h.peer).1 }
      → ClientStep h h'
  receives :
      (ok : Bool) (d d' : Option Datagram) (p : Peer)
      → client_round ok d h.peer ≡ done (d', p)
      → h' ≡ record h { peer = p }
      → ClientStep h h'
  sends :
      (ok : Bool) (d : Option Datagram) (p : Peer)
      → handle_outgoing_queue ok h.peer ≡ done (d, p)
      → h' ≡ record h { peer = p }
      → ClientStep h h'
  ticks :
      (others : ℕ → Net → Net) (fuel : ℕ) (draw : ℕ → ℕ) (id : Option ℕ) (p : Peer)
      → h.waits_for ≡ none
      → ping_start others fuel draw h.peer ≡ done (id, p)
      → h' ≡ record { peer = p; waits_for = id }
      → ClientStep h h'
  ends_wait :
      (id : ℕ) (answer : Option (P2pPacket × ℕ))
      → h.waits_for ≡ some id
      → h' ≡ record { peer = ping_finish answer h.peer; waits_for = none }
      → ClientStep h h'
  acts :
      (others : ℕ → Net → Net) (fuel : ℕ) (draw : ℕ → ℕ) (action : GameAction) (closure : Closure)
      (p : Peer)
      → send_game_action others fuel draw action closure h.peer ≡ done p
      → h' ≡ record h { peer = p }
      → ClientStep h h'
  takes : h' ≡ record h { peer = (get_next_game_action h.peer).1 } → ClientStep h h'
  names : (name : Bytes) → h' ≡ record h { peer = set_my_username name h.peer } → ClientStep h h'

-- The states reached from the start of the process.
pub data ClientReach : ClientLoop → Type 0 where
  starts : {h : ClientLoop} → h ≡ record { peer = initial_peer; waits_for = none } → ClientReach h
  later : {g h : ClientLoop} → ClientReach g → ClientStep g h → ClientReach h

abbrev pub Named : Option Bytes → Type 0
Named none = ⊥
Named (some name) = Unit

-- A host is known by name while the status says that there is one, and at most ten tries are counted.
abbrev pub Hosted : ConnectionStatus → Option Bytes → Type 0
Hosted disconnected name = Unit
Hosted pending_connection name = Unit
Hosted (reconnecting tries) name = (tries ≤ 10) × Named name
Hosted (connected ping) name = Named name

-- So is it while a ping is waited for; and whoever has an address to send to has a join code and a name
-- of its own.
abbrev pub Waiting : Option ℕ → Option Bytes → Type 0
Waiting none name = Unit
Waiting (some id) name = Named name

abbrev pub Asked : Option SocketAddr → Option Bytes → Option Bytes → Type 0
Asked none code name = Unit
Asked (some addr) code name = Named code × Named name

abbrev pub Kept : Option ℕ → ConnectionData → Type 0
Kept waits_for c =
    Hosted c.status c.other_username
    × Waiting waits_for c.other_username
    × Asked c.other_addr c.join_code c.my_username
