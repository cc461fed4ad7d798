-- ===== src/Network/Tests.antt =====
-- A host and a client, with and without each other.
use psychic_fiesta.Prelude.{◌≡◌, ◌⊎◌, refl, true, false, none, some, [], ◌∷◌, arith, Option}
use psychic_fiesta.Prelude.{◌↔◌, inl, inr}
use psychic_fiesta.Prelude.Outcome.{done, panic}
use psychic_fiesta.Packet.Wire.{Bytes, ok}
use psychic_fiesta.Packet.{request, response, to_packet, from_packet}
use psychic_fiesta.Packet.Text.{is_utf8}
use psychic_fiesta.Packet.Piece.{full_game_session}
use psychic_fiesta.Packet.Request
use psychic_fiesta.Packet.Request.{P2pRequest}
use psychic_fiesta.Packet.Response
use psychic_fiesta.Address.{v4, SocketAddr}
use psychic_fiesta.Status.{
  ConnectionData, connected, reconnecting, disconnected, initial_connection,
}
use psychic_fiesta.Status.{connect_session_id}
use psychic_fiesta.Queue.{initial}
use psychic_fiesta.Network.{Peer, Datagram, handle_outgoing_queue, recieve_p2p_packet}
use psychic_fiesta.Network.Host.{HostLoop, host_request, host_round}
use psychic_fiesta.Network.Host.Session.{Admitted, Expired, host_round-Admitted}
use psychic_fiesta.Network.Host.Replies.{host_request_full}
use psychic_fiesta.Network.Client.{pings, client_round}
use psychic_fiesta.Network.Client.Reconnect.{timeouts, timeouts_lem}
use psychic_fiesta.Network.Client.Addressing.{IsDeadly, client_round-panic, client_round_strangers}

abbrev ann_at : SocketAddr
ann_at = record { ip = v4 5; port = 6000 }

abbrev bob_at : SocketAddr
bob_at = record { ip = v4 6; port = 6001 }

abbrev code : Bytes
code = b'0' ∷ b'0' ∷ b'0' ∷ b'0' ∷ b'0' ∷ b'0' ∷ b'0' ∷ b'5' ∷ b'1' ∷ b'7' ∷ b'7' ∷ b'0' ∷ []

abbrev asks : P2pRequest
asks = record {
  session_id = connect_session_id;
  transaction_id = 7;
  packet = Request.connect code (b'B' ∷ []);
}

abbrev open_host : HostLoop
open_host = record {
  peer = record { conn = record initial_connection { join_code = some code }; net = initial };
  time_since_ping = 0;
}

abbrev asking_datagram : Option Datagram
asking_datagram = some (to_packet (request asks), bob_at)

readable : recieve_p2p_packet (to_packet (request asks)) ≡ ok (request asks)
unfolding recieve_p2p_packet to_packet from_packet Request.from_packet Request.body_from_packet
    is_utf8
readable = refl

host_round-Admitted_example :
    (h' : HostLoop) × (host_round (λ n. n) 9 100 asking_datagram 101 open_host ≡ done h')
    × (c : ConnectionData) × Expired 100 open_host c
    × ((h'.peer.conn ≡ c) ⊎ Admitted code 9 asking_datagram c h'.peer.conn)
host_round-Admitted_example =
    host_round-Admitted code (λ n. n) 9 100 101 asking_datagram open_host refl
      (λ e. cc (e, readable))

-- The host with Ann as its client; Bob asks to connect.
abbrev full_host : Peer
full_host = record open_host.peer {
  conn = record open_host.peer.conn { other_addr = some ann_at; session_id = 9 };
}

host_request_full_example :
    (p' p'' : Peer) × (host_request (λ n. n) 10 bob_at asks full_host ≡ done p')
    × (handle_outgoing_queue true p'
        ≡ done (
          some (
            to_packet (
                response (record {
                  session_id = 9;
                  transaction_id = 7;
                  packet = Response.error full_game_session;
                })),
            ann_at,
          ),
          p'',
        ))
host_request_full_example =
    host_request_full 10 ann_at bob_at asks code (b'B' ∷ []) full_host refl refl refl

abbrev client : Peer
client = record {
  conn = record initial_connection { status = connected 20; other_addr = some ann_at };
  net = initial;
}

timeouts_lem_example :
    (timeouts 4 client ≡ record client { conn = record client.conn { status = reconnecting 3 } })
    × (timeouts 12 client ≡ record client {
      conn = record client.conn { status = disconnected; other_addr = none; other_username = none };
    })
    × (pings (timeouts 12 client).conn ≡ false)
timeouts_lem_example = timeouts_lem client 20 3 refl (omega arith)

client_round_strangers_example :
    client_round true (some (to_packet (request asks), bob_at)) client ≡ done (none, client)
client_round_strangers_example =
    client_round_strangers true (to_packet (request asks)) bob_at ann_at client refl (λ e. cc e)
      (λ e. cc (e, readable))

client_round-panic_example :
    (client_round true
        (some (to_packet (request asks), bob_at))
        (record client { conn = initial_connection })
      ≡ panic)
    ↔ IsDeadly true (to_packet (request asks)) bob_at (record client { conn = initial_connection })
client_round-panic_example =
    client_round-panic true (to_packet (request asks)) bob_at
      (record client { conn = initial_connection })

panics_without_host :
    client_round true
      (some (to_packet (request asks), bob_at))
      (record client { conn = initial_connection })
    ≡ panic
panics_without_host = client_round-panic_example.1 (inr (request asks, readable, inl refl))
