-- ===== src/Network/Host/Replies.antt =====
-- Where the host's responses go: to its client, whoever asked.
use psychic_fiesta.Prelude.{ℕ, true, none, some, [], ◌∷◌, ◌++◌, ◌≡◌, refl, ap}
use psychic_fiesta.Prelude.Outcome.{done}
use psychic_fiesta.Packet.Wire.{Bytes}
use psychic_fiesta.Packet.Piece.{full_game_session}
use psychic_fiesta.Packet.{response, to_packet}
use psychic_fiesta.Packet.Request
use psychic_fiesta.Packet.Request.{P2pRequest}
use psychic_fiesta.Packet.Response
use psychic_fiesta.Address.{SocketAddr}
use psychic_fiesta.Queue.{push_outgoing_queue}
use psychic_fiesta.Network.Steps.{reply_to, host_request_queues, handle_outgoing_queue_first}
use psychic_fiesta.Network.{Peer, handle_outgoing_queue}
use psychic_fiesta.Network.Host.{host_packet, host_connect, host_request}

host_packet_full :
    (random : ℕ) (client addr : SocketAddr) (session_id : ℕ) (join_code username : Bytes) (p : Peer)
    → p.conn.other_addr ≡ some client
    → host_packet random addr session_id (Request.connect join_code username) p
      ≡ done (Response.error full_game_session, p)
unfolding host_packet host_connect
host_packet_full random client addr session_id join_code username p has =
    rw (has, host_packet, host_connect) refl

-- A host with a client and an empty queue, asked by anyone to connect, answers that the session is
-- full, and the next datagram that it sends goes to the client and has that answer, under the
-- transaction id of the one who asked.
pub host_request_full :
    (random : ℕ) (client addr : SocketAddr) (r : P2pRequest) (join_code username : Bytes) (p : Peer)
    → p.conn.other_addr ≡ some client
    → p.net.outgoing ≡ []
    → r.packet ≡ Request.connect join_code username
    → (p' p'' : Peer) × (host_request (λ n. n) random addr r p ≡ done p')
      × (handle_outgoing_queue true p'
          ≡ done (
            some (
              to_packet (
                  response (record {
                    session_id = p.conn.session_id;
                    transaction_id = r.transaction_id;
                    packet = Response.error full_game_session;
                  })),
              client,
            ),
            p'',
          ))
unfolding push_outgoing_queue
host_request_full random client addr r join_code username p has empty asks =
    let answer = reply_to r p.conn.session_id (Response.error full_game_session) in
    let queued : Peer = record p { net = (push_outgoing_queue (λ n. n) answer none p.net).1 } in
    let handled : host_packet random addr r.session_id r.packet p
        ≡ done (Response.error full_game_session, p) =
      rw asks (host_packet_full random client addr r.session_id join_code username p has) in
    (
      queued,
      record queued { net = record queued.net { outgoing = [] } },
      host_request_queues (λ n. n) random addr r (Response.error full_game_session) p p handled,
      handle_outgoing_queue_first answer r.transaction_id [] client queued has
          (ap (λ l. l ++ ((answer, r.transaction_id) ∷ [])) empty),
    )
