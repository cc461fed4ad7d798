-- ===== src/Network/Steps.antt =====
-- Single steps of the loops in a known state, for runs of several.
use psychic_fiesta.Prelude.{
  ℕ, zero, suc, ◌≤◌, true, Option, some, List, [], ◌∷◌, ◌≡◌, refl, ap, ◌∙◌, arith,
}
use psychic_fiesta.Prelude.{length, take}
use psychic_fiesta.Prelude.Outcome.{done}
use psychic_fiesta.Packet.Wire.{Bytes, ok}
use psychic_fiesta.Packet.{P2pPacket, response, to_packet, from_packet}
use psychic_fiesta.Packet.RoundTrip.{IsSendable, from_packet-to_packet}
use psychic_fiesta.Packet.Response.{P2pResponsePacket}
use psychic_fiesta.Packet.Request.{P2pRequest}
use psychic_fiesta.Address.{SocketAddr}
use psychic_fiesta.Queue.{Net, push_outgoing_queue, pop_outgoing_queue}
use psychic_fiesta.Network.{Peer, recieve_p2p_packet, handle_outgoing_queue}
use psychic_fiesta.Network.Host.{
  host_packet, host_request, host_round, host_expire, host_receive, HostLoop, disconnect_time_ms,
}
use psychic_fiesta.Network.Client.{client_round, client_receive}
use psychic_fiesta.Queue.{new_transaction_id, check_transaction_id}
use psychic_fiesta.Queue.Transactions.{new_transaction_id_lem}
use psychic_fiesta.Address.{addr_eq_iff}
use psychic_fiesta.Prelude.{◌-◌, ◌<◌, Bool, false, leb}

take_all : (n : ℕ) (bs : Bytes) → length bs ≤ n → take n bs ≡ bs
take_all zero [] h = refl
take_all zero (b ∷ bs) h = absurd (omega arith)
take_all (suc n) [] h = refl
take_all (suc n) (b ∷ bs) h = ap (λ l. b ∷ l) (take_all n bs (omega arith))

-- A sendable packet that fits the buffer arrives.
pub recieve_p2p_packet-to_packet :
    (packet : P2pPacket)
    → IsSendable packet
    → length (to_packet packet) ≤ 1024
    → recieve_p2p_packet (to_packet packet) ≡ ok packet
unfolding recieve_p2p_packet
recieve_p2p_packet-to_packet packet sendable fits =
    ap from_packet (take_all 1024 (to_packet packet) fits) ∙ from_packet-to_packet packet sendable

-- The first packet of the queue is sent to the other peer.
pub handle_outgoing_queue_first :
    (packet : P2pPacket) (id : ℕ) (rest : List (P2pPacket × ℕ)) (addr : SocketAddr) (p : Peer)
    → p.conn.other_addr ≡ some addr
    → p.net.outgoing ≡ (packet, id) ∷ rest
    → handle_outgoing_queue true p
      ≡ done (some (to_packet packet, addr), record p { net = record p.net { outgoing = rest } })
unfolding handle_outgoing_queue pop_outgoing_queue
handle_outgoing_queue_first packet id rest addr p has queued =
    rw (has, queued, handle_outgoing_queue) refl

abbrev pub reply_to : P2pRequest → ℕ → P2pResponsePacket → P2pPacket
reply_to r session_id answer =
    response
      (record { session_id = session_id; transaction_id = r.transaction_id; packet = answer })

-- The response is queued behind what the queue holds.
pub host_request_queues :
    (others : Net → Net) (random : ℕ) (addr : SocketAddr) (r : P2pRequest)
    (answer : P2pResponsePacket) (p p' : Peer)
    → host_packet random addr r.session_id r.packet p ≡ done (answer, p')
    → host_request others random addr r p
      ≡ done (record p' {
        net =
            (push_outgoing_queue others
              (reply_to r p'.conn.session_id answer)
              Option.none
              p'.net).1;
      })
unfolding host_request
host_request_queues others random addr r answer p p' e = rw e refl

-- A round of the host that reads a packet, while its client is not expired.
pub host_round_reads :
    (others : Net → Net) (random start end : ℕ) (bytes : Bytes) (addr : SocketAddr)
    (packet : P2pPacket) (h : HostLoop)
    → recieve_p2p_packet bytes ≡ ok packet
    → start - h.time_since_ping < 5000
    → host_round others random start (some (bytes, addr)) end h
      ≡ host_receive others random end addr packet h
unfolding host_round host_expire
host_round_reads others random start end bytes addr packet h read recent =
    let fresh : leb disconnect_time_ms (start - h.time_since_ping) ≡ false = ground arith in
    rw (fresh, read, host_round) refl

-- A round of the client that reads a packet of its host.
pub client_round_reads :
    (able : Bool) (bytes : Bytes) (addr : SocketAddr) (packet : P2pPacket) (p : Peer)
    → recieve_p2p_packet bytes ≡ ok packet
    → p.conn.other_addr ≡ some addr
    → client_round able (some (bytes, addr)) p ≡ client_receive able addr packet p
unfolding client_round
client_round_reads able bytes addr packet p read has =
    rw (read, has, (addr_eq_iff addr addr).1 refl, client_round) refl

-- The first draw serves if no transaction has it.
pub new_transaction_id_first :
    (fuel : ℕ) (others : ℕ → Net → Net) (draw : ℕ → ℕ) (n : Net)
    → check_transaction_id (draw 0) (others 0 n) ≡ false
    → new_transaction_id (suc fuel) others draw n ≡ done (draw 0, others 0 n)
new_transaction_id_first fuel others draw n free =
    new_transaction_id_lem 0 (suc fuel) others draw n (λ j lt. elim lt [ ]) free (omega arith)
