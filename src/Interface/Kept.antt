-- ===== src/Interface/Kept.antt =====
-- What holds in every state of a client: nothing it does breaks the invariant `Kept`.
use psychic_fiesta.Prelude.{ℕ, suc, Bool, true, not, ◌||◌, Option, none, some}
use psychic_fiesta.Prelude.{◌≡◌, refl, arith, leb, if◌then◌else◌, inl, inr, Bool-cases}
use psychic_fiesta.Prelude.Outcome.{done, ◌>>=◌, or_panic}
use psychic_fiesta.Prelude.Holds.{Holds, Holds-bind, Holds-if}
use psychic_fiesta.Packet.Wire.{Bytes, Parsed, ok, err}
use psychic_fiesta.Packet.{P2pPacket, request, response}
use psychic_fiesta.Packet.Response
use psychic_fiesta.Packet.Response.{P2pResponse, P2pResponsePacket}
use psychic_fiesta.Packet.Request.{P2pRequest}
use psychic_fiesta.Address.{SocketAddr, addr_eq}
use psychic_fiesta.Status.{
  ConnectionStatus, disconnected, pending_connection, reconnecting, connected,
}
use psychic_fiesta.Status.{is_connected, is_reconnecting}
use psychic_fiesta.Lan.{Hex, hex_decode_ip}
use psychic_fiesta.Queue.{Net, new_transaction_id, check_for_response}
use psychic_fiesta.Network.{Peer, Datagram, recieve_p2p_packet, send, on_packet}
use psychic_fiesta.Network.Client.{ping_start, ping_finish, pings, client_round, client_receive}
use psychic_fiesta.Network.Client.{client_request, answered, timed_out}
use psychic_fiesta.Interface.{Machine, bind_socket, start_lan_client, send_join_request, unwrap}
use psychic_fiesta.Interface.{check_for_connection_resp, on_answer, on_reply}
use psychic_fiesta.Interface.Playing.{Named, Hosted, Waiting, Asked, Kept}

Hosted-Named :
    (status : ConnectionStatus) (name : Option Bytes)
    → Hosted status name
    → is_connected status || is_reconnecting status ≡ true
    → Named name
Hosted-Named disconnected name h e = cc
Hosted-Named pending_connection name h e = cc
Hosted-Named (reconnecting tries) name h e = h.1
Hosted-Named (connected ping) name h e = h

Waiting-some : (w : Option ℕ) (name : Bytes) → Waiting w (some name)
Waiting-some none name = tt
Waiting-some (some id) name = tt

pub Asked-named :
    (addr : Option SocketAddr) (code mine : Option Bytes) (name : Bytes)
    → Asked addr code mine
    → Asked addr code (some name)
Asked-named none code mine name h = tt
Asked-named (some addr) code mine name h = (h.0, tt)

-- A pong, or another response.
response-Kept :
    (elapsed : ℕ) (r : P2pResponse) (status : ConnectionStatus) (addr : Option SocketAddr)
    (name mine code : Option Bytes) (session_id : ℕ)
    → Hosted status name
    → Asked addr code mine
    → Kept none (
        answered elapsed (response r) (record {
          status = status;
          other_addr = addr;
          other_username = name;
          my_username = mine;
          join_code = code;
          session_id = session_id;
        }))
response-Kept elapsed r disconnected addr name mine code session_id h a = (tt, tt, a)
response-Kept elapsed r pending_connection addr name mine code session_id h a = (tt, tt, a)
response-Kept elapsed r (reconnecting tries) addr name mine code session_id h a = (h.1, tt, a)
response-Kept elapsed r (connected ping) addr name mine code session_id h a = (h, tt, a)

-- No response in time.
timed_out-Kept :
    (status : ConnectionStatus) (addr : Option SocketAddr) (name mine code : Option Bytes)
    (session_id : ℕ)
    → Hosted status name
    → Named name
    → Asked addr code mine
    → Kept none (
        timed_out (record {
          status = status;
          other_addr = addr;
          other_username = name;
          my_username = mine;
          join_code = code;
          session_id = session_id;
        }))
timed_out-Kept disconnected addr name mine code session_id h n a = ((omega arith, n), tt, a)
timed_out-Kept pending_connection addr name mine code session_id h n a = ((omega arith, n), tt, a)
timed_out-Kept (connected ping) addr name mine code session_id h n a = ((omega arith, n), tt, a)
timed_out-Kept (reconnecting tries) addr name mine code session_id h n a =
    elim (Bool-cases (leb 10 tries)) [
      | inl last ↦ rw last (tt, tt, tt)
      | inr more ↦ rw more ((ground arith, n), tt, a)
    ]

pub ping_finish-Kept :
    (id : ℕ) (answer : Option (P2pPacket × ℕ)) (p : Peer)
    → Kept (some id) p.conn
    → Kept none (ping_finish answer p).conn
unfolding ping_finish
ping_finish-Kept id (some (response r, elapsed)) p (h, n, a) =
    response-Kept elapsed r p.conn.status p.conn.other_addr p.conn.other_username p.conn.my_username
      p.conn.join_code p.conn.session_id h a
ping_finish-Kept id (some (request r, elapsed)) p (h, n, a) = (h, tt, a)
ping_finish-Kept id none p (h, n, a) =
    timed_out-Kept p.conn.status p.conn.other_addr p.conn.other_username p.conn.my_username
      p.conn.join_code p.conn.session_id h n a

on_reply-Kept :
    (w : Option ℕ) (session_id : ℕ) (packet : P2pResponsePacket) (p : Peer)
    → Kept w p.conn
    → Kept w (on_reply session_id packet p).1.conn
on_reply-Kept w session_id (Response.connect color name) p (h, n, a) = (tt, Waiting-some w name, a)
on_reply-Kept w session_id (Response.error kind) p k = k
on_reply-Kept w session_id Response.pong p k = k
on_reply-Kept w session_id Response.acknowledge p k = k
on_reply-Kept w session_id (Response.resync _) p k = k

on_answer-Kept :
    (w : Option ℕ) (found : Option P2pPacket) (p : Peer)
    → Kept w p.conn
    → Kept w (on_answer found p).1.conn
on_answer-Kept w none p k = k
on_answer-Kept w (some (response r)) p k = on_reply-Kept w r.session_id r.packet p k
on_answer-Kept w (some (request _)) p k = k

pub check-Kept :
    (w : Option ℕ) (others : Net → Net) (id : ℕ) (p : Peer)
    → Kept w p.conn
    → Kept w (check_for_connection_resp others id p).1.conn
unfolding check_for_connection_resp
check-Kept w others id p k =
    let (found, n) = check_for_response others id p.net in
    on_answer-Kept w found (record p { net = n }) k

pub start_lan_client-Kept :
    (w : Option ℕ) (m : Machine) (p : Peer)
    → Kept w p.conn
    → Holds (λ p'. Kept w p'.conn) (start_lan_client m p)
unfolding start_lan_client
start_lan_client-Kept w m p (h, n, a) = Holds-bind _ (bind_socket m) _ (λ _ _. (tt, n, a))

pub send_join_request-conn :
    (hex : Hex) (others : ℕ → Net → Net) (fuel : ℕ) (draw : ℕ → ℕ) (join_code username : Bytes)
    (p : Peer)
    → Holds (λ r. r.1.conn ≡ p.conn) (send_join_request hex others fuel draw join_code username p)
unfolding send_join_request
send_join_request-conn hex others fuel draw join_code username p =
    Holds-bind _ (new_transaction_id fuel (λ i. others (suc i)) draw p.net) _
      (λ id _. Holds-bind _ (unwrap (hex_decode_ip hex join_code)) _ (λ _ _. refl))

pub ping_start-Kept :
    (others : ℕ → Net → Net) (fuel : ℕ) (draw : ℕ → ℕ) (p : Peer)
    → Kept none p.conn
    → Holds (λ r. Kept r.0 r.1.conn) (ping_start others fuel draw p)
unfolding ping_start
ping_start-Kept others fuel draw p (h, n, a) =
    Holds-if _ (not (pings p.conn)) _ _ (λ _. (h, n, a))
      (λ on.
        Holds-bind _ (new_transaction_id fuel (λ i. others (suc i)) draw p.net) _
          (λ id _. (h, Hosted-Named p.conn.status p.conn.other_username h (ground arith), a)))

client_request-conn :
    (able : Bool) (addr : SocketAddr) (r : P2pRequest) (p : Peer)
    → Holds (λ out. out.1.conn ≡ p.conn) (client_request able addr r p)
unfolding client_request
client_request-conn able addr r p = Holds-bind _ (send able _ addr) _ (λ _ _. refl)

client_receive-conn :
    (able : Bool) (addr : SocketAddr) (packet : P2pPacket) (p : Peer)
    → Holds (λ out. out.1.conn ≡ p.conn) (client_receive able addr packet p)
unfolding client_receive
client_receive-conn able addr (request r) p = client_request-conn able addr r p
client_receive-conn able addr (response r) p = refl

pub client_round-conn :
    (able : Bool) (d : Option Datagram) (p : Peer)
    → Holds (λ out. out.1.conn ≡ p.conn) (client_round able d p)
unfolding client_round
client_round-conn able none p = refl
client_round-conn able (some (bytes, addr)) p = on_parsed (recieve_p2p_packet bytes)
  where
    on_parsed :
        (parsed : Parsed P2pPacket)
        → Holds
            (λ out. out.1.conn ≡ p.conn)
            (on_packet parsed
              (none, p)
              (λ packet. or_panic p.conn.other_addr >>= λ other.
                if not (addr_eq addr other)
                then done (none, p)
                else client_receive able addr packet p))
    on_parsed (ok packet) = Holds-bind _ (or_panic p.conn.other_addr) _ (λ other _.
        Holds-if _ (not (addr_eq addr other)) _ _ (λ _. refl)
          (λ _. client_receive-conn able addr packet p))
    on_parsed (err e) = refl
    on_parsed Parsed.panic = tt
