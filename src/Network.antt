-- ===== src/Network.antt =====
-- src/net/p2p/net_loop.rs and communicate.rs: one process of the game, its statics, and what its
-- socket's loops share. `Instant`s are numbers of milliseconds; sockets and timers are arguments.
pub mod Host
pub mod Client
pub mod Steps
mod Tests
use psychic_fiesta.Prelude.{ℕ, Bool, true, false, Option, none, some, List, [], ◌∷◌, ◌++◌}
use psychic_fiesta.Prelude.{if◌then◌else◌, take}
use psychic_fiesta.Prelude.Outcome.{Outcome, done, panic, ◌>>=◌}
use psychic_fiesta.Game.{GameAction}
use psychic_fiesta.Packet.Wire.{Bytes, Parsed, ok, err}
use psychic_fiesta.Packet.Wire
use psychic_fiesta.Packet.{P2pPacket, to_packet, from_packet}
use psychic_fiesta.Address.{SocketAddr}
use psychic_fiesta.Status.{ConnectionData, initial_connection}
use psychic_fiesta.Queue.{Net, initial, pop_outgoing_queue, push_incoming_gameaction}

-- The statics of status.rs and of queue.rs.
pub record Peer : Type 0 where
  pub conn : ConnectionData
  pub net : Net

abbrev pub initial_peer : Peer
initial_peer = record { conn = initial_connection; net = initial }

-- A datagram, and where it goes to or comes from.
abbrev pub Datagram : Type 0
Datagram = Bytes × SocketAddr

-- `recieve_p2p_packet` on a datagram that arrived: the buffer holds 1024 bytes.
unfoldable pub recieve_p2p_packet : Bytes → Parsed P2pPacket
recieve_p2p_packet bytes = from_packet (take 1024 bytes)

-- What a loop does with a datagram: a packet that is refused leaves everything as it is.
abbrev pub on_packet {ℓ} : {A : Type ℓ} → Parsed P2pPacket → A → (P2pPacket → Outcome A) → Outcome A
on_packet (ok p) old f = f p
on_packet (err _) old f = done old
on_packet Parsed.panic old f = panic

-- `send_p2p_packet(..).unwrap()`: whether the socket sends is an argument.
abbrev pub send : Bool → Bytes → SocketAddr → Outcome Datagram
send sends bytes addr = if sends then done (bytes, addr) else panic

-- One round of the loops that handle the outgoing queue.
abbrev pub send_first :
    Bool → SocketAddr → Option (P2pPacket × ℕ) × Net → Peer → Outcome (Option Datagram × Peer)
send_first sends addr (none, n) p = done (none, record p { net = n })
send_first sends addr (some (packet, id), n) p =
    send sends (to_packet packet) addr >>= λ sent. done (some sent, record p { net = n })

abbrev pub send_to : Bool → Option SocketAddr → Peer → Outcome (Option Datagram × Peer)
send_to sends none p = done (none, p)
send_to sends (some addr) p = send_first sends addr (pop_outgoing_queue p.net) p

unfoldable pub handle_outgoing_queue : Bool → Peer → Outcome (Option Datagram × Peer)
handle_outgoing_queue sends p = send_to sends p.conn.other_addr p
