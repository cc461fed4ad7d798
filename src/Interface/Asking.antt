-- ===== src/Interface/Asking.antt =====
-- The states and steps of a client that joins a host.
use psychic_fiesta.Prelude.{ℕ, suc, ◌-◌, true, false, none, some, ◌&&◌, leb}
use psychic_fiesta.Prelude.{[], ◌∷◌, ◌≡◌, refl, ap, sym, ◌∙◌, arith}
use psychic_fiesta.Prelude.Outcome.{done, ◌>>=◌}
use psychic_fiesta.Game.{white}
use psychic_fiesta.Packet.Wire.{Bytes, ok}
use psychic_fiesta.Packet.{P2pPacket, request, response}
use psychic_fiesta.Packet.Request
use psychic_fiesta.Packet.Request.{P2pRequest}
use psychic_fiesta.Packet.Response
use psychic_fiesta.Packet.Response.{P2pResponse}
use psychic_fiesta.Address.{SocketAddr}
use psychic_fiesta.Status.{
  ConnectionData, connect_session_id, just_connected, set_connection_status,
}
use psychic_fiesta.Status.{set_session_id, set_other_username, set_other_addr, set_join_code}
use psychic_fiesta.Status
use psychic_fiesta.Lan.{Hex, hex_decode_ip}
use psychic_fiesta.Lan
use psychic_fiesta.Queue.{Net, Entry, push_outgoing_queue, check_transaction_id, set_response}
use psychic_fiesta.Queue.{check_for_response, is_some}
use psychic_fiesta.Queue.Table.{get-insert}
use psychic_fiesta.Queue.Transactions.{check_for_response-set_response}
use psychic_fiesta.Network.{Peer, recieve_p2p_packet}
use psychic_fiesta.Network.Host.{text_eq, unwrap_or, host_name, joined, host_connect, host_packet}
use psychic_fiesta.Network.Host.{
  HostLoop, disconnect_time_ms, host_expire, host_receive, host_round,
}
use psychic_fiesta.Network.Steps.{new_transaction_id_first}
use psychic_fiesta.Network.Host.{host_request}
use psychic_fiesta.Interface.{
  Reply, accepted, on_answer, check_for_connection_resp, check_rounds, join_rounds, or_check,
  or_join, unwrap,
}
use psychic_fiesta.Interface.{connect_to_host_loop, send_join_request}

text_eq_refl : (a : Bytes) → text_eq a a ≡ true
text_eq_refl [] = refl
text_eq_refl (x ∷ a) = ground (arith, text_eq_refl a)

-- A host without a client has nobody to forget.
pub host_round_free :
    (random start end : ℕ) (bytes : Bytes) (addr : SocketAddr) (packet : P2pPacket) (h : HostLoop)
    → recieve_p2p_packet bytes ≡ ok packet
    → h.peer.conn.other_addr ≡ none
    → host_round (λ n. n) random start (some (bytes, addr)) end h
      ≡ host_receive (λ n. n) random end addr packet h
unfolding host_round host_expire
host_round_free random start end bytes addr packet h read free =
    let fresh : (leb disconnect_time_ms (start - h.time_since_ping)
          && is_some h.peer.conn.other_addr)
        ≡ false =
      rw free (ground arith) in
    rw (fresh, read, host_round) refl

host_connect_free :
    (random : ℕ) (addr : SocketAddr) (code username : Bytes) (c : ConnectionData)
    → c.other_addr ≡ none
    → c.join_code ≡ some code
    → host_connect random addr connect_session_id code username c
      ≡ done (
        Response.connect white (unwrap_or c.my_username host_name),
        joined random addr username c,
      )
unfolding host_connect
host_connect_free random addr code username c free has =
    rw (free, has, text_eq_refl code, host_connect) refl

-- A reply that a check finds ends the rounds, and the loop.
check_rounds_found :
    (rounds : ℕ) (tasks : ℕ → Peer → Peer) (others : Net → Net) (id : ℕ) (reply : Reply)
    (p p' : Peer)
    → check_for_connection_resp others id (tasks 0 p) ≡ (some reply, p')
    → check_rounds (suc rounds) tasks others id p ≡ (some reply, p')
unfolding check_rounds
check_rounds_found rounds tasks others id reply p p' e =
    ap (λ r. or_check r (check_rounds rounds (λ i. tasks (suc i)) others id)) e

join_rounds_found :
    (rounds : ℕ) (hex : Hex) (tasks : ℕ → ℕ → Peer → Peer) (others : ℕ → Net → Net) (fuel : ℕ)
    (draw : ℕ → ℕ → ℕ) (code username : Bytes) (id : ℕ) (reply : Reply) (p p' p'' : Peer)
    → send_join_request hex others fuel (draw 0) code username p ≡ done (id, p')
    → check_rounds 10 (tasks 0) (others 0) id p' ≡ (some reply, p'')
    → join_rounds (suc rounds) hex tasks others fuel draw code username p ≡ done (reply, p'')
unfolding join_rounds
join_rounds_found rounds hex tasks others fuel draw code username id reply p p' p'' sent found =
    let next =
      join_rounds rounds hex (λ i. tasks (suc i)) others fuel (λ i. draw (suc i)) code username in
    ap (λ r. r >>= λ s. or_join (check_rounds 10 (tasks 0) (others 0) s.0 s.1) next) sent
    ∙ ap (λ r. or_join r next) found

module _ (code username : Bytes) (host_at : SocketAddr) (id : ℕ) (p : Peer) where
  abbrev pub join_request : P2pRequest
  join_request = record {
    session_id = connect_session_id;
    transaction_id = id;
    packet = Request.connect code username;
  }

  -- The client's process as the loop starts, with the request queued, and after it was sent.
  abbrev addressed_to : SocketAddr → Peer
  addressed_to addr = record p {
    conn = Status.set_my_username username (set_other_addr addr (set_join_code code p.conn));
  }

  abbrev addressed : Peer
  addressed = addressed_to host_at

  abbrev pub asking : Peer
  asking = record addressed {
    net = (push_outgoing_queue (λ n. n) (request join_request) none p.net).1;
  }

  abbrev pub asked : Peer
  asked = record asking { net = record asking.net { outgoing = [] } }

  -- The host's answer, and the client's process with it in the table.
  abbrev pub welcome : ℕ → Bytes → P2pResponse
  welcome random name = record {
    session_id = random;
    transaction_id = id;
    packet = Response.connect white name;
  }

  abbrev pub welcomed : ℕ → Bytes → Peer
  welcomed random name = record asked {
    net = set_response id (some (response (welcome random name))) asked.net;
  }

  -- The client's process after the check.
  abbrev pub entered : ℕ → Bytes → Peer
  entered random name = record {
    conn =
        set_other_username name
          (set_session_id random (set_connection_status just_connected addressed.conn));
    net = (check_for_response (λ n. n) id (welcomed random name).net).1;
  }

  pub welcomed-found :
      (random : ℕ) (name : Bytes)
      → ((check_for_response (λ n. n) id (welcomed random name).net).0
          ≡ some (response (welcome random name)))
        × (check_transaction_id id (entered random name).net ≡ false)
  unfolding push_outgoing_queue
  welcomed-found random name =
      let entry : Entry = record { answer = none; closure = none } in
      check_for_response-set_response (λ n. n) id (response (welcome random name)) entry asked.net
        (get-insert p.net.table id entry) refl

  check_for_connection_resp-entered :
      (random : ℕ) (name : Bytes)
      → check_for_connection_resp (λ n. n) id (welcomed random name)
        ≡ (some (accepted white name), entered random name)
  unfolding check_for_connection_resp
  check_for_connection_resp-entered random name =
      ap (λ f. on_answer f (record (welcomed random name) { net = (entered random name).net }))
        (welcomed-found random name).0

  send_join_request-asking :
      (fuel : ℕ) (hex : Hex) (draw : ℕ → ℕ)
      → hex_decode_ip hex code ≡ Lan.ok host_at
      → check_transaction_id (draw 0) p.net ≡ false
      → id ≡ draw 0
      → send_join_request hex (λ i n. n) (suc fuel) draw code username addressed ≡ done (id, asking)
  unfolding send_join_request push_outgoing_queue
  send_join_request-asking fuel hex draw decodes free drawn =
      rw (new_transaction_id_first fuel (λ i n. n) draw p.net free, sym drawn) (rw decodes refl)

  -- The first request of the loop is answered before its first check.
  pub connect_to_host_loop-entered :
      (rounds fuel : ℕ) (hex : Hex) (tasks : ℕ → ℕ → Peer → Peer) (draw : ℕ → ℕ → ℕ) (random : ℕ)
      (name : Bytes)
      → hex_decode_ip hex code ≡ Lan.ok host_at
      → check_transaction_id (draw 0 0) p.net ≡ false
      → id ≡ draw 0 0
      → tasks 0 0 asking ≡ welcomed random name
      → connect_to_host_loop (suc rounds) hex tasks (λ i n. n) (suc fuel) draw code username p
        ≡ done (accepted white name, entered random name)
  unfolding connect_to_host_loop
  connect_to_host_loop-entered rounds fuel hex tasks draw random name decodes free drawn answered =
      let found =
        check_rounds_found 9 (tasks 0) (λ n. n) id (accepted white name) asking
          (entered random name)
          (ap (check_for_connection_resp (λ n. n) id) answered
            ∙ check_for_connection_resp-entered random name) in
      ap
        (λ a. unwrap a >>= λ addr.
          join_rounds (suc rounds) hex tasks (λ i n. n) (suc fuel) draw code username
            (addressed_to addr))
        decodes
      ∙ (join_rounds_found rounds hex tasks (λ i n. n) (suc fuel) draw code username id
          (accepted white name) addressed asking (entered random name)
          (send_join_request-asking fuel hex (draw 0) decodes free drawn) found)

  -- The host's process with the client entered and the answer queued.
  abbrev pub entered_by : HostLoop → SocketAddr → ℕ → ℕ → HostLoop
  entered_by h client_at random end =
      let answer = welcome random (unwrap_or h.peer.conn.my_username host_name) in
      record {
        peer = record h.peer {
          conn = joined random client_at username h.peer.conn;
          net = (push_outgoing_queue (λ n. n) (response answer) none h.peer.net).1;
        };
        time_since_ping = end;
      }

  pub host_receive-entered :
      (random end : ℕ) (client_at : SocketAddr) (h : HostLoop)
      → h.peer.conn.other_addr ≡ none
      → h.peer.conn.join_code ≡ some code
      → host_receive (λ n. n) random end client_at (request join_request) h
        ≡ done (entered_by h client_at random end)
  unfolding host_receive host_request host_packet
  host_receive-entered random end client_at h free has =
      rw (host_connect_free random client_at code username h.peer.conn free has) refl
