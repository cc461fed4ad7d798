-- ===== src/Network/Client.antt =====
-- src/net/p2p/net_loop.rs, `client_network_loop`: the incoming side and the pings. A ping's round is
-- cut where it waits: other tasks run between `ping_start` and `ping_finish`.
pub mod Reconnect
pub mod Addressing
use psychic_fiesta.Prelude.{ℕ, suc, ◌+◌, Bool, true, false, not, ◌&&◌, ◌||◌, Option, none, some}
use psychic_fiesta.Prelude.{if◌then◌else◌, leb}
use psychic_fiesta.Prelude.Outcome.{Outcome, done, panic, ◌>>=◌, or_panic}
use psychic_fiesta.Game.{GameAction}
use psychic_fiesta.Packet.Wire.{Bytes}
use psychic_fiesta.Packet.Piece.{wrong_direction}
use psychic_fiesta.Packet.{P2pPacket, request, response}
use psychic_fiesta.Packet.Request
use psychic_fiesta.Packet.Request.{P2pRequest, P2pRequestPacket}
use psychic_fiesta.Packet.Response
use psychic_fiesta.Packet.Response.{P2pResponse, P2pResponsePacket}
use psychic_fiesta.Address.{SocketAddr, addr_eq}
use psychic_fiesta.Status.{
  ConnectionStatus, disconnected, reconnecting, ConnectionData, is_connected,
}
use psychic_fiesta.Status.{
  is_reconnecting, just_connected, just_reconnecting, set_connection_status,
}
use psychic_fiesta.Status.{set_connection_ping, set_reconnect_tries, remove_other_addr}
use psychic_fiesta.Status.{remove_other_username}
use psychic_fiesta.Queue.{Net, is_some, new_transaction_id, push_outgoing_queue, set_response}
use psychic_fiesta.Queue.{push_incoming_gameaction}
use psychic_fiesta.Network.{Peer, Datagram, recieve_p2p_packet, on_packet, send}

abbrev pub reconnect_tries : ℕ
reconnect_tries = 10

-- Whether a tick of the interval sends a ping.
abbrev pub pings : ConnectionData → Bool
pings c = (is_connected c.status || is_reconnecting c.status) && is_some c.other_addr

-- A tick, up to the wait for the pong: the id that is waited for, if a ping was queued.
unfoldable pub ping_start : (ℕ → Net → Net) → ℕ → (ℕ → ℕ) → Peer → Outcome (Option ℕ × Peer)
ping_start others fuel draw p = if not (pings p.conn) then done (none, p) else (do
  (ping_id, drawn) ← new_transaction_id fuel (λ i. others (suc i)) draw p.net
  let ping =
      request
        (record { session_id = p.conn.session_id; transaction_id = ping_id; packet = Request.ping })
  done (some ping_id, record p { net = (push_outgoing_queue (others 0) ping none drawn).1 }))

abbrev pub reconnected : ConnectionData → ConnectionData
reconnected c = if is_reconnecting c.status then set_connection_status just_connected c else c

-- The wait ended with a response, after `elapsed` milliseconds; a packet that is no pong is printed.
abbrev pub answered : ℕ → P2pPacket → ConnectionData → ConnectionData
answered elapsed (response _) c = set_connection_ping elapsed (reconnected c)
answered elapsed (request _) c = c

abbrev pub give_up : ConnectionData → ConnectionData
give_up c = remove_other_username (remove_other_addr (set_connection_status disconnected c))

abbrev pub timed_out_at : ConnectionStatus → ConnectionData → ConnectionData
timed_out_at (reconnecting tries) c =
    if leb reconnect_tries tries then give_up c else set_reconnect_tries (tries + 1) c
timed_out_at _ c = set_connection_status just_reconnecting c

-- The wait timed out.
abbrev pub timed_out : ConnectionData → ConnectionData
timed_out c = timed_out_at c.status c

-- The rest of a ping's round.
unfoldable pub ping_finish : Option (P2pPacket × ℕ) → Peer → Peer
ping_finish (some (packet, elapsed)) p = record p { conn = answered elapsed packet p.conn }
ping_finish none p = record p { conn = timed_out p.conn }

abbrev pub client_packet : P2pRequestPacket → Net → P2pResponsePacket × Net
client_packet Request.ping n = (Response.pong, n)
client_packet (Request.game_action action) n =
    (Response.acknowledge, push_incoming_gameaction action n)
client_packet _ n = (Response.error wrong_direction, n)

-- The response to a request is sent at once, and not through the queue.
unfoldable pub client_request :
    Bool → SocketAddr → P2pRequest → Peer → Outcome (Option Datagram × Peer)
client_request sends addr r p = do
  let (packet, n) = client_packet r.packet p.net
  let answer : P2pResponse = record {
    session_id = r.session_id;
    transaction_id = r.transaction_id;
    packet = packet;
  }
  sent ← send sends (Response.to_packet answer) addr
  done (some sent, record p { net = n })

unfoldable pub client_receive :
    Bool → SocketAddr → P2pPacket → Peer → Outcome (Option Datagram × Peer)
unfolding client_request
client_receive sends addr (request r) p = client_request sends addr r p
client_receive sends addr (response r) p =
    done (none, record p { net = set_response r.transaction_id (some (response r)) p.net })

-- One round of the incoming side.
unfoldable pub client_round : Bool → Option Datagram → Peer → Outcome (Option Datagram × Peer)
unfolding client_receive
client_round sends none p = done (none, p)
client_round sends (some (bytes, addr)) p =
    on_packet (recieve_p2p_packet bytes) (none, p)
      (λ packet. or_panic p.conn.other_addr >>= λ other.
        if not (addr_eq addr other) then done (none, p) else client_receive sends addr packet p)
