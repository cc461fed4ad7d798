-- ===== src/Interface.antt =====
-- src/net/interface.rs: what the game calls of the network. A call runs to its end before the next
-- one; `others` is what other tasks do to the queues between two of its locks, and in the loop that
-- connects, `tasks` is what they do to the process between two checks.
pub mod Asking
pub mod Joining
pub mod Delivery
pub mod Hosting
pub mod Playing
pub mod Kept
pub mod Reached
pub mod Code
mod Tests
use psychic_fiesta.Prelude.{ℕ, zero, suc, Bool, true, false, Option, none, some, List, [], ◌∷◌}
use psychic_fiesta.Prelude.{if◌then◌else◌}
use psychic_fiesta.Prelude.Outcome.{Outcome, done, panic, undefined, stuck, ◌>>=◌}
use psychic_fiesta.Game.{PieceColor, GameAction}
use psychic_fiesta.Packet.Wire.{Bytes}
use psychic_fiesta.Packet.Piece.{P2pError}
use psychic_fiesta.Packet.{P2pPacket, request, response}
use psychic_fiesta.Packet.Request
use psychic_fiesta.Packet.Response
use psychic_fiesta.Packet.Response.{P2pResponse, P2pResponsePacket}
use psychic_fiesta.Address.{IpAddr, v4, SocketAddr}
use psychic_fiesta.Status.{ConnectionStatus, pending_connection, just_connected, connect_session_id}
use psychic_fiesta.Status.{set_connection_status, set_session_id, set_other_username, set_join_code}
use psychic_fiesta.Status.{set_other_addr}
use psychic_fiesta.Status
use psychic_fiesta.Lan.{Attempt, Hex, Interface, get_available_port, get_local_ip}
use psychic_fiesta.Lan.{hex_encode_ip, hex_decode_ip}
use psychic_fiesta.Lan
use psychic_fiesta.Queue.{Net, Closure, new_transaction_id, push_outgoing_queue, check_for_response}
use psychic_fiesta.Queue.{pop_incoming_gameaction}
use psychic_fiesta.Network.{Peer}

abbrev pub unwrap {ℓ} : {A : Type ℓ} → Attempt A → Outcome A
unwrap (Lan.ok a) = done a
unwrap (Lan.err _) = panic
unwrap Lan.panic = panic
unwrap Lan.undefined = undefined

-- What the host's machine answers: the binds of the scan and the last one, and its addresses.
pub record Machine : Type 0 where
  pub bind : ℕ → Bool
  pub binds_again : Bool
  pub netifas : Option (List Interface)
  pub local_ip : Option IpAddr

-- The port that is bound to the socket.
unfoldable pub bind_socket : Machine → Outcome ℕ
bind_socket m = do
  port ← unwrap (get_available_port m.bind)
  if m.binds_again then done port else panic

-- The join code, after which the loops run.
unfoldable pub start_lan_host : Hex → Machine → Peer → Outcome (Bytes × Peer)
unfolding bind_socket
start_lan_host hex m p = do
  port ← bind_socket m
  local_ip ← unwrap (get_local_ip m.netifas m.local_ip)
  encoded_ip ← unwrap (hex_encode_ip hex (record { ip = v4 local_ip; port = port }))
  done (
    encoded_ip,
    record p { conn = set_connection_status pending_connection (set_join_code encoded_ip p.conn) },
  )

unfoldable pub start_lan_client : Machine → Peer → Outcome Peer
unfolding bind_socket
start_lan_client m p = do
  _ ← bind_socket m
  done (record p { conn = set_connection_status pending_connection p.conn })

-- `others 0` is what other tasks do between the two locks of the queueing, and the rest of `others` what
-- they do before each test of an id.
unfoldable pub send_join_request :
    Hex → (ℕ → Net → Net) → ℕ → (ℕ → ℕ) → Bytes → Bytes → Peer → Outcome (ℕ × Peer)
send_join_request hex others fuel draw join_code username p = do
  (id, drawn) ← new_transaction_id fuel (λ i. others (suc i)) draw p.net
  let join_request = request (record {
    session_id = connect_session_id;
    transaction_id = id;
    packet = Request.connect join_code username;
  })
  _ ← unwrap (hex_decode_ip hex join_code)
  let (id', n) = push_outgoing_queue (others 0) join_request none drawn
  done (id', record p { net = n })

-- `anyhow::Result<(PieceColor, String)>`, its errors by what they report.
pub data Reply : Type 0 where
  accepted : PieceColor → Bytes → Reply
  refused : P2pError → Reply
  wrong_response not_response : Reply

abbrev pub on_reply : ℕ → P2pResponsePacket → Peer → Option Reply × Peer
on_reply session_id (Response.connect client_color host_username) p = (
  some (accepted client_color host_username),
  record p {
    conn =
        set_other_username host_username
          (set_session_id session_id (set_connection_status just_connected p.conn));
  },
)
on_reply session_id (Response.error kind) p = (some (refused kind), p)
on_reply session_id _ p = (some wrong_response, p)

abbrev pub on_answer : Option P2pPacket → Peer → Option Reply × Peer
on_answer none p = (none, p)
on_answer (some (response r)) p = on_reply r.session_id r.packet p
on_answer (some (request _)) p = (some not_response, p)

unfoldable pub check_for_connection_resp : (Net → Net) → ℕ → Peer → Option Reply × Peer
check_for_connection_resp others id p =
    let (found, n) = check_for_response others id p.net in on_answer found (record p { net = n })

-- A reply ends the rounds.
abbrev pub or_check : Option Reply × Peer → (Peer → Option Reply × Peer) → Option Reply × Peer
or_check (some reply, p) next = (some reply, p)
or_check (none, p) next = next p

-- `for _ in 0..10`, with the rounds left: each waits for a tick, and checks.
unfoldable pub check_rounds : ℕ → (ℕ → Peer → Peer) → (Net → Net) → ℕ → Peer → Option Reply × Peer
check_rounds zero tasks others id p = (none, p)
check_rounds (suc n) tasks others id p =
    or_check (check_for_connection_resp others id (tasks 0 p))
      (check_rounds n (λ i. tasks (suc i)) others id)

-- A reply ends the loop.
abbrev pub or_join : Option Reply × Peer → (Peer → Outcome (Reply × Peer)) → Outcome (Reply × Peer)
or_join (some reply, p) next = done (reply, p)
or_join (none, p) next = next p

-- The loop that sends requests until one is answered, with at most `rounds` requests; `tasks i j` is
-- what other tasks do before check `j` of round `i`.
unfoldable pub join_rounds :
    ℕ
    → Hex
    → (ℕ → ℕ → Peer → Peer)
    → (ℕ → Net → Net)
    → ℕ
    → (ℕ → ℕ → ℕ)
    → Bytes
    → Bytes
    → Peer
    → Outcome (Reply × Peer)
unfolding send_join_request check_rounds
join_rounds zero hex tasks others fuel draw join_code username p = stuck
join_rounds (suc rounds) hex tasks others fuel draw join_code username p = do
  (id, p') ← send_join_request hex others fuel (draw 0) join_code username p
  or_join (check_rounds 10 (tasks 0) (others 0) id p') (
      join_rounds rounds hex (λ i. tasks (suc i)) others fuel (λ i. draw (suc i)) join_code
        username)

abbrev pub set_my_username : Bytes → Peer → Peer
set_my_username name p = record p { conn = Status.set_my_username name p.conn }

unfoldable pub connect_to_host_loop :
    ℕ
    → Hex
    → (ℕ → ℕ → Peer → Peer)
    → (ℕ → Net → Net)
    → ℕ
    → (ℕ → ℕ → ℕ)
    → Bytes
    → Bytes
    → Peer
    → Outcome (Reply × Peer)
unfolding join_rounds
connect_to_host_loop rounds hex tasks others fuel draw join_code username p = do
  host_addr ← unwrap (hex_decode_ip hex join_code)
  let p' = record p { conn = set_other_addr host_addr (set_join_code join_code p.conn) }
  join_rounds rounds hex tasks others fuel draw join_code username (set_my_username username p')

unfoldable pub get_next_game_action : Peer → Option GameAction × Peer
get_next_game_action p =
    let (action, n) = pop_incoming_gameaction p.net in (action, record p { net = n })

-- What the closure of `send_game_action` hands to `on_response`: whether it is `Ok`.
abbrev pub is_ok : P2pResponsePacket → Bool
is_ok (Response.error _) = false
is_ok _ = true

unfoldable pub send_game_action :
    (ℕ → Net → Net) → ℕ → (ℕ → ℕ) → GameAction → Closure → Peer → Outcome Peer
send_game_action others fuel draw action closure p = do
  (id, drawn) ← new_transaction_id fuel (λ i. others (suc i)) draw p.net
  let packet = request (record {
    session_id = p.conn.session_id;
    transaction_id = id;
    packet = Request.game_action action;
  })
  done (record p { net = (push_outgoing_queue (others 0) packet (some closure) drawn).1 })

abbrev pub is_connected : Peer → Bool
is_connected p = Status.is_connected p.conn.status

abbrev pub get_other_username : Peer → Option Bytes
get_other_username p = p.conn.other_username
