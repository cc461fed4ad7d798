-- ===== src/Interface/Delivery.antt =====
-- An action on its way from the client's game to the host's, and the acknowledgement back: the calls
-- of both processes composed over their sockets.
use psychic_fiesta.Prelude.{ℕ, suc, ◌-◌, ◌≤◌, ◌<◌, Bool, true, false, none, some}
use psychic_fiesta.Prelude.{[], ◌∷◌, ◌++◌, ◌≡◌, refl, ap, ◌∙◌, arith, length}
use psychic_fiesta.Prelude.Outcome.{done}
use psychic_fiesta.Game.{GameAction}
use psychic_fiesta.Packet.Wire.{Bytes, IsU16}
use psychic_fiesta.Packet.RoundTrip.{IsCompact}
use psychic_fiesta.Packet.{request, response, to_packet}
use psychic_fiesta.Packet.Request
use psychic_fiesta.Packet.Request.{P2pRequest}
use psychic_fiesta.Packet.Response
use psychic_fiesta.Packet.Response.{P2pResponse}
use psychic_fiesta.Address.{SocketAddr}
use psychic_fiesta.Queue.{Net, Entry, Closure, push_outgoing_queue, check_transaction_id}
use psychic_fiesta.Queue.{push_incoming_gameaction, is_some, remove}
use psychic_fiesta.Queue.Table.{get-insert, get-remove}
use psychic_fiesta.Queue.Transactions.{set_response_run}
use psychic_fiesta.Network.{Peer, handle_outgoing_queue}
use psychic_fiesta.Network.Host.{HostLoop, host_packet, host_request, host_receive, host_round}
use psychic_fiesta.Network.Client.{client_receive, client_round}
use psychic_fiesta.Network.Steps.{recieve_p2p_packet-to_packet, handle_outgoing_queue_first}
use psychic_fiesta.Network.Steps.{host_round_reads, client_round_reads}
use psychic_fiesta.Network.Steps.{new_transaction_id_first}
use psychic_fiesta.Interface.{send_game_action}

module _ (action : GameAction) (closure : Closure) (draw : ℕ → ℕ) (p : Peer) where
  abbrev pub action_request : P2pRequest
  action_request = record {
    session_id = p.conn.session_id;
    transaction_id = draw 0;
    packet = Request.game_action action;
  }

  -- The client's process with the action queued, and after it was sent.
  abbrev action_queued : Peer
  action_queued = record p {
    net = (push_outgoing_queue (λ n. n) (request action_request) (some closure) p.net).1;
  }

  abbrev action_sent : Peer
  action_sent = record action_queued { net = record action_queued.net { outgoing = [] } }

  send_game_action_queues :
      (fuel : ℕ)
      → check_transaction_id (draw 0) p.net ≡ false
      → send_game_action (λ i n. n) (suc fuel) draw action closure p ≡ done action_queued
  unfolding send_game_action
  send_game_action_queues fuel free =
      rw (new_transaction_id_first fuel (λ i n. n) draw p.net free) refl

  abbrev acknowledgement : ℕ → P2pResponse
  acknowledgement session_id = record {
    session_id = session_id;
    transaction_id = draw 0;
    packet = Response.acknowledge;
  }

  -- The client's process once the acknowledgement ran the closure.
  client_acknowledged :
      (session_id : ℕ) (addr : SocketAddr) (able : Bool)
      → (p' : Peer) × (client_receive able addr (response (acknowledgement session_id)) action_sent
          ≡ done (none, p'))
        × (p'.net.calls ≡ p.net.calls ++ ((closure, acknowledgement session_id) ∷ []))
        × (check_transaction_id (draw 0) p'.net ≡ false)
  unfolding client_receive push_outgoing_queue check_transaction_id
  client_acknowledged session_id addr able =
      let entry : Entry = record { answer = none; closure = some closure } in
      let n : Net = action_sent.net in
      let ran =
        set_response_run (draw 0) (acknowledgement session_id) entry closure n
          (get-insert p.net.table (draw 0) entry) refl in
      let n' : Net = record n {
        calls = n.calls ++ ((closure, acknowledgement session_id) ∷ []);
        table = remove n.table (draw 0);
      } in
      (
        record action_sent { net = n' },
        ap (λ m. done (none, record action_sent { net = m })) ran,
        refl,
        ap is_some (get-remove n.table (draw 0)),
      )

  -- The host's process with the action taken in and the acknowledgement queued.
  abbrev action_taken : HostLoop → ℕ → HostLoop
  action_taken h end =
      let n = push_incoming_gameaction action h.peer.net in
      let answer = response (acknowledgement h.peer.conn.session_id) in
      record {
        peer = record h.peer { net = (push_outgoing_queue (λ n'. n') answer none n).1 };
        time_since_ping = end;
      }

  host_receive-taken :
      (random end : ℕ) (addr : SocketAddr) (h : HostLoop)
      → host_receive (λ n. n) random end addr (request action_request) h ≡ done (action_taken h end)
  unfolding host_receive host_request host_packet
  host_receive-taken random end addr h = refl

  acknowledgement-fits :
      (session_id : ℕ) → length (to_packet (response (acknowledgement session_id))) ≤ 1024
  unfolding to_packet Response.to_packet Response.body_to_packet
  acknowledgement-fits session_id = omega arith

-- What the two processes and the two datagrams of a delivery are: the client queues the request and
-- sends it to the host; the host's round on it appends the action to those that arrived and leaves
-- the connection as it was; the host sends the acknowledgement to the client; and the client's
-- round on that runs the closure once more than before, on the acknowledgement, and ends the
-- transaction.
pub record Delivered (action : GameAction) (closure : Closure) (fuel : ℕ) (draw : ℕ → ℕ) (p : Peer)
    (h : HostLoop) (host_at client_at : SocketAddr) (random start end : ℕ) : Type 0 where
  pub sent_bytes : Bytes
  pub reply_bytes : Bytes
  pub p₁ : Peer
  pub p₂ : Peer
  pub p₃ : Peer
  pub h₁ : HostLoop
  pub q : Peer
  pub queues : send_game_action (λ i n. n) fuel draw action closure p ≡ done p₁
  pub sends : handle_outgoing_queue true p₁ ≡ done (some (sent_bytes, host_at), p₂)
  pub takes : host_round (λ n. n) random start (some (sent_bytes, client_at)) end h ≡ done h₁
  pub appended : h₁.peer.net.incoming ≡ h.peer.net.incoming ++ (action ∷ [])
  pub kept : h₁.peer.conn ≡ h.peer.conn
  pub replies : handle_outgoing_queue true h₁.peer ≡ done (some (reply_bytes, client_at), q)
  pub hears : client_round true (some (reply_bytes, host_at)) p₂ ≡ done (none, p₃)
  pub called :
      p₃.net.calls
      ≡ p.net.calls
        ++ ((
          closure,
          record {
            session_id = h.peer.conn.session_id;
            transaction_id = draw 0;
            packet = Response.acknowledge;
          },
        )
            ∷ [])
  pub over : check_transaction_id (draw 0) p₃.net ≡ false

-- An action that the client's game sends, between a client and a host that are connected to each
-- other, both with empty queues: nobody else's datagrams are read meanwhile, the sockets send, the
-- host heard of its client less than five seconds ago, the first draw is no id in use, and the
-- packet fits the buffer. The delivery ends as `Delivered` says: the host's game gets the action,
-- and the client's game its acknowledgement.
pub send_game_action-Delivered :
    (action : GameAction) (closure : Closure) (fuel : ℕ) (draw : ℕ → ℕ) (p : Peer) (h : HostLoop)
    (host_at client_at : SocketAddr) (random start end : ℕ)
    → IsCompact action
    → IsU16 (draw 0)
    → IsU16 p.conn.session_id
    → IsU16 h.peer.conn.session_id
    → length (to_packet (request (action_request action closure draw p))) ≤ 1024
    → check_transaction_id (draw 0) p.net ≡ false
    → p.conn.other_addr ≡ some host_at
    → p.net.outgoing ≡ []
    → h.peer.conn.other_addr ≡ some client_at
    → h.peer.net.outgoing ≡ []
    → start - h.time_since_ping < 5000
    → Delivered action closure (suc fuel) draw p h host_at client_at random start end
unfolding push_outgoing_queue push_incoming_gameaction
send_game_action-Delivered action closure fuel draw p h host_at client_at random start end compact
      id session host_session fits free has empty has' empty' recent =
    let ask = request (action_request action closure draw p) in
    let answer = response (acknowledgement action closure draw p h.peer.conn.session_id) in
    let (p₃, hears, called, over) =
      client_acknowledged action closure draw p h.peer.conn.session_id host_at true in
    let arrived = recieve_p2p_packet-to_packet ask (session, id, compact) fits in
    let heard =
      recieve_p2p_packet-to_packet answer (host_session, id, tt)
        (acknowledgement-fits action closure draw p h.peer.conn.session_id) in
    let h₁ : HostLoop = action_taken action closure draw p h end in
    record {
      sent_bytes = to_packet ask;
      reply_bytes = to_packet answer;
      p₁ = action_queued action closure draw p;
      p₂ = action_sent action closure draw p;
      p₃ = p₃;
      h₁ = h₁;
      q = record h₁.peer { net = record h₁.peer.net { outgoing = [] } };
      queues = send_game_action_queues action closure draw p fuel free;
      sends =
          handle_outgoing_queue_first ask (draw 0) [] host_at (action_queued action closure draw p)
            has (ap (λ l. l ++ ((ask, draw 0) ∷ [])) empty);
      takes =
          host_round_reads (λ n. n) random start end (to_packet ask) client_at ask h arrived recent
          ∙ host_receive-taken action closure draw p random end client_at h;
      appended = refl;
      kept = refl;
      replies =
          handle_outgoing_queue_first answer (draw 0) [] client_at h₁.peer has'
            (ap (λ l. l ++ ((answer, draw 0) ∷ [])) empty');
      hears =
          client_round_reads true (to_packet answer) host_at answer
            (action_sent action closure draw p) heard has
          ∙ hears;
      called = called;
      over = over;
    }
