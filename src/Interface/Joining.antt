-- ===== src/Interface/Joining.antt =====
-- A client that joins a host: the loop that connects, composed with one round of each process's
-- loops.
use psychic_fiesta.Prelude.{ℕ, suc, ◌≤◌, true, false, none, some}
use psychic_fiesta.Prelude.{[], ◌∷◌, ◌++◌, ◌≡◌, ◌≢◌, refl, ap, ◌∙◌, arith, length}
use psychic_fiesta.Prelude.Outcome.{done}
use psychic_fiesta.Game.{white}
use psychic_fiesta.Packet.Wire.{Bytes, IsU16}
use psychic_fiesta.Packet.Text.{IsText}
use psychic_fiesta.Packet.{request, response, to_packet}
use psychic_fiesta.Address.{SocketAddr}
use psychic_fiesta.Status.{connect_session_id, just_connected}
use psychic_fiesta.Lan.{Hex, hex_decode_ip}
use psychic_fiesta.Lan
use psychic_fiesta.Queue.{push_outgoing_queue, check_transaction_id}
use psychic_fiesta.Network.{Peer, handle_outgoing_queue}
use psychic_fiesta.Network.Host.{unwrap_or, host_name, joined}
use psychic_fiesta.Network.Host.{HostLoop, host_round}
use psychic_fiesta.Network.Client.{client_receive, client_round}
use psychic_fiesta.Network.Steps.{recieve_p2p_packet-to_packet, handle_outgoing_queue_first}
use psychic_fiesta.Network.Steps.{client_round_reads}
use psychic_fiesta.Interface.{accepted}
use psychic_fiesta.Interface.{connect_to_host_loop}
use psychic_fiesta.Interface.Asking.{
  host_round_free, host_receive-entered, connect_to_host_loop-entered, welcomed-found, asked,
}
use psychic_fiesta.Interface.Asking.{entered, entered_by, join_request, asking, welcome, welcomed}

-- What the loop that connects, the two processes' rounds and their datagrams come to: the client's
-- request, queued by the loop, is sent to the host; the host's round on it enters the client; the
-- host sends its answer there; the client's round on that leads to the state of the loop's first
-- check; and the loop returns the host's name and white, with the client connected, under the
-- session id drawn by the host, and the transaction over.
pub record Joined (code username : Bytes) (rounds fuel : ℕ) (hex : Hex)
    (tasks : ℕ → ℕ → Peer → Peer) (draw : ℕ → ℕ → ℕ) (p : Peer) (h : HostLoop)
    (host_at client_at : SocketAddr) (random start end : ℕ) : Type 0 where
  pub request_bytes : Bytes
  pub answer_bytes : Bytes
  pub p₂ : Peer
  pub p₃ : Peer
  pub h₁ : HostLoop
  pub q : Peer
  pub sends :
      handle_outgoing_queue true (asking code username host_at (draw 0 0) p)
      ≡ done (some (request_bytes, host_at), p₂)
  pub enters : host_round (λ n. n) random start (some (request_bytes, client_at)) end h ≡ done h₁
  pub client_known : h₁.peer.conn ≡ joined random client_at username h.peer.conn
  pub answers : handle_outgoing_queue true h₁.peer ≡ done (some (answer_bytes, client_at), q)
  pub hears :
      client_round true (some (answer_bytes, host_at)) p₂
      ≡ done (
        none,
        welcomed code username host_at
            (draw 0 0)
            p
            random
            (unwrap_or h.peer.conn.my_username host_name),
      )
  pub connects :
      connect_to_host_loop rounds hex tasks (λ i n. n) fuel draw code username p
      ≡ done (accepted white (unwrap_or h.peer.conn.my_username host_name), p₃)
  pub is_connected : p₃.conn.status ≡ just_connected
  pub session : p₃.conn.session_id ≡ h₁.peer.conn.session_id
  pub host_known :
      (p₃.conn.other_addr ≡ some host_at)
      × (p₃.conn.other_username ≡ some (unwrap_or h.peer.conn.my_username host_name))
  pub over : check_transaction_id (draw 0 0) p₃.net ≡ false

-- A client that connects with a host's join code, to a host that has no client: the code decodes to
-- the host's address and is a text of twelve bytes, the names are texts and not empty, the numbers
-- fit in 16 bits and the packets the buffer, the first id drawn is not in use, both queues are
-- empty, the sockets send, and before the first check the client's tasks bring the process from
-- where the loop left it to the answer in the table. Then the two end as `Joined` says: the client
-- is accepted, and the host knows it.
pub connect_to_host_loop-Joined :
    (code username : Bytes) (rounds fuel : ℕ) (hex : Hex) (tasks : ℕ → ℕ → Peer → Peer)
    (draw : ℕ → ℕ → ℕ) (p : Peer) (h : HostLoop) (host_at client_at : SocketAddr)
    (random start end : ℕ)
    → hex_decode_ip hex code ≡ Lan.ok host_at
    → (length code ≡ 12) × IsText code × IsText username × (username ≢ [])
    → IsText (unwrap_or h.peer.conn.my_username host_name)
      × (unwrap_or h.peer.conn.my_username host_name ≢ [])
    → IsU16 (draw 0 0)
    → IsU16 random
    → length (to_packet (request (join_request code username host_at (draw 0 0) p))) ≤ 1024
    → length (
        to_packet (
          response (
            welcome code username host_at
              (draw 0 0)
              p
              random
              (unwrap_or h.peer.conn.my_username host_name))))
      ≤ 1024
    → check_transaction_id (draw 0 0) p.net ≡ false
    → p.net.outgoing ≡ []
    → h.peer.conn.other_addr ≡ none
    → h.peer.conn.join_code ≡ some code
    → h.peer.net.outgoing ≡ []
    → tasks 0 0 (asking code username host_at (draw 0 0) p)
      ≡ welcomed code username host_at
          (draw 0 0)
          p
          random
          (unwrap_or h.peer.conn.my_username host_name)
    → Joined code username
        (suc rounds)
        (suc fuel)
        hex
        tasks
        draw
        p
        h
        host_at
        client_at
        random
        start
        end
unfolding push_outgoing_queue client_receive
connect_to_host_loop-Joined code username rounds fuel hex tasks draw p h host_at client_at random
      start end decodes texts (text, ne) id session fits fits' unused empty free has empty'
      answered =
    let name = unwrap_or h.peer.conn.my_username host_name in
    let i = draw 0 0 in
    let ask = request (join_request code username host_at i p) in
    let answer = response (welcome code username host_at i p random name) in
    let h₁ : HostLoop = entered_by code username host_at i p h client_at random end in
    let session' : IsU16 connect_session_id = omega arith in
    record {
      request_bytes = to_packet ask;
      answer_bytes = to_packet answer;
      p₂ = asked code username host_at i p;
      p₃ = entered code username host_at i p random name;
      h₁ = h₁;
      q = record h₁.peer { net = record h₁.peer.net { outgoing = [] } };
      sends =
          handle_outgoing_queue_first ask i [] host_at (asking code username host_at i p) refl
            (ap (λ l. l ++ ((ask, i) ∷ [])) empty);
      enters =
          host_round_free random start end (to_packet ask) client_at ask h
            (recieve_p2p_packet-to_packet ask (session', id, texts) fits) free
          ∙ host_receive-entered code username host_at i p random end client_at h free has;
      client_known = refl;
      answers =
          handle_outgoing_queue_first answer i [] client_at h₁.peer refl
            (ap (λ l. l ++ ((answer, i) ∷ [])) empty');
      hears =
          client_round_reads true (to_packet answer) host_at answer
            (asked code username host_at i p)
            (recieve_p2p_packet-to_packet answer (session, id, (text, ne)) fits') refl;
      connects =
          connect_to_host_loop-entered code username host_at i p rounds fuel hex tasks draw random
            name decodes unused refl answered;
      is_connected = refl;
      session = refl;
      host_known = (refl, refl);
      over = (welcomed-found code username host_at i p random name).1;
    }
