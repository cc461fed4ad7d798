-- ===== src/Network/Host.antt =====
-- src/net/p2p/net_loop.rs, `host_network_loop`: the incoming side. No other task changes the
-- connection between the locks of one request; `others` is what they do to the queues while the
-- response is queued.
pub mod Entering
pub mod Session
pub mod Replies
use psychic_fiesta.Prelude.{ℕ, ◌-◌, Bool, true, false, not, ◌&&◌, Option, none, some, List, [], ◌∷◌}
use psychic_fiesta.Prelude.{if◌then◌else◌, ◌==◌, leb}
use psychic_fiesta.Prelude.Outcome.{Outcome, done, panic, ◌>>=◌, or_panic}
use psychic_fiesta.Game.{GameAction, white}
use psychic_fiesta.Packet.Wire.{Bytes}
use psychic_fiesta.Packet.Piece.{full_game_session, invalid_join_code, invalid_session_id}
use psychic_fiesta.Packet.{P2pPacket, request, response}
use psychic_fiesta.Packet.Request
use psychic_fiesta.Packet.Request.{P2pRequest, P2pRequestPacket}
use psychic_fiesta.Packet.Response
use psychic_fiesta.Packet.Response.{P2pResponsePacket}
use psychic_fiesta.Address.{SocketAddr}
use psychic_fiesta.Status.{
  ConnectionData, connect_session_id, just_connected, set_connection_status,
}
use psychic_fiesta.Status.{set_other_addr, remove_other_addr, set_other_username}
use psychic_fiesta.Status.{remove_other_username, set_session_id}
use psychic_fiesta.Queue.{Net, is_some, push_outgoing_queue, push_incoming_gameaction}
use psychic_fiesta.Queue.{check_transaction_id, set_response}
use psychic_fiesta.Network.{Peer, Datagram, recieve_p2p_packet, on_packet}

-- `==` on `String`s.
abbrev pub text_eq : Bytes → Bytes → Bool
text_eq [] [] = true
text_eq (a ∷ as') (b ∷ bs) = a == b && text_eq as' bs
text_eq _ _ = false

-- "HOST".
abbrev pub host_name : Bytes
host_name = b'H' ∷ b'O' ∷ b'S' ∷ b'T' ∷ []

abbrev pub unwrap_or : Option Bytes → Bytes → Bytes
unwrap_or none default = default
unwrap_or (some name) default = name

-- The connection with a client at `addr`; `random` is the session id drawn.
abbrev pub joined : ℕ → SocketAddr → Bytes → ConnectionData → ConnectionData
joined random addr username c =
    set_other_username username
      (set_other_addr addr (set_connection_status just_connected (set_session_id random c)))

-- The arm of `Connect`.
unfoldable pub host_connect :
    ℕ
    → SocketAddr
    → ℕ
    → Bytes
    → Bytes
    → ConnectionData
    → Outcome (P2pResponsePacket × ConnectionData)
host_connect random addr session_id join_code username c =
    if is_some c.other_addr
    then done (Response.error full_game_session, c)
    else (or_panic c.join_code >>= λ code.
        if not (text_eq join_code code)
        then done (Response.error invalid_join_code, c)
        else if not (session_id == connect_session_id)
        then done (Response.error invalid_session_id, c)
        else done (
          Response.connect white (unwrap_or c.my_username host_name),
          joined random addr username c,
        ))

-- The response to a request with that session id, and the statics after it.
unfoldable pub host_packet :
    ℕ → SocketAddr → ℕ → P2pRequestPacket → Peer → Outcome (P2pResponsePacket × Peer)
unfolding host_connect
host_packet random addr session_id Request.ping p = done (Response.pong, p)
host_packet random addr session_id (Request.connect join_code username) p = do
  (packet, c) ← host_connect random addr session_id join_code username p.conn
  done (packet, record p { conn = c })
host_packet random addr session_id Request.resync p = done (Response.resync [], p)
host_packet random addr session_id (Request.game_action action) p =
    done (Response.acknowledge, record p { net = push_incoming_gameaction action p.net })

-- The response is queued for the connected client.
unfoldable pub host_request : (Net → Net) → ℕ → SocketAddr → P2pRequest → Peer → Outcome Peer
unfolding host_packet
host_request others random addr r p = do
  (packet, p') ← host_packet random addr r.session_id r.packet p
  let answer = response (record {
    session_id = p'.conn.session_id;
    transaction_id = r.transaction_id;
    packet = packet;
  })
  done (record p' { net = (push_outgoing_queue others answer none p'.net).1 })

-- The loop's own state: when a request was last handled.
pub record HostLoop : Type 0 where
  pub peer : Peer
  pub time_since_ping : ℕ

abbrev pub disconnect_time_ms : ℕ
disconnect_time_ms = 5000

abbrev pub forget_client : ConnectionData → ConnectionData
forget_client c = set_session_id connect_session_id (remove_other_username (remove_other_addr c))

-- A client that was silent for too long is forgotten.
unfoldable pub host_expire : ℕ → HostLoop → HostLoop
host_expire now h =
    if leb disconnect_time_ms (now - h.time_since_ping) && is_some h.peer.conn.other_addr
    then record h { peer = record h.peer { conn = forget_client h.peer.conn } }
    else h

abbrev pub host_response : Response.P2pResponse → HostLoop → HostLoop
host_response r h =
    if check_transaction_id r.transaction_id h.peer.net
    then record h {
      peer = record h.peer { net = set_response r.transaction_id (some (response r)) h.peer.net };
    }
    else h

unfoldable pub host_receive :
    (Net → Net) → ℕ → ℕ → SocketAddr → P2pPacket → HostLoop → Outcome HostLoop
unfolding host_request
host_receive others random now addr (request r) h = do
  p ← host_request others random addr r h.peer
  done (record { peer = p; time_since_ping = now })
host_receive others random now addr (response r) h = done (host_response r h)

-- One round: the time of its start, the datagram received within the timeout if there is one, and
-- the time after it was handled.
unfoldable pub host_round : (Net → Net) → ℕ → ℕ → Option Datagram → ℕ → HostLoop → Outcome HostLoop
unfolding host_expire host_receive
host_round others random start none end h = done (host_expire start h)
host_round others random start (some (bytes, addr)) end h =
    let h' = host_expire start h in
    on_packet (recieve_p2p_packet bytes) h'
      (λ packet. host_receive others random end addr packet h')
