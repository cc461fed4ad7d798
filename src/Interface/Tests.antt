-- ===== src/Interface/Tests.antt =====
-- Ann hosts, and Bob joins and plays.
use psychic_fiesta.Lan.{get_available_port, get_local_ip, hex_encode_ip}
use psychic_fiesta.Prelude.{ℕ, refl, true, false, none, some, [], ◌∷◌, arith}
use psychic_fiesta.Game.{GameAction, move_piece}
use psychic_fiesta.Packet.Wire.{Bytes}
use psychic_fiesta.Packet.Text.{is_utf8}
use psychic_fiesta.Packet.{to_packet, from_packet}
use psychic_fiesta.Address.{v4, SocketAddr}
use psychic_fiesta.Status.{connected, pending_connection, initial_connection}
use psychic_fiesta.Queue.{initial, check_transaction_id}
use psychic_fiesta.Lan.{hex_decode_ip}
use psychic_fiesta.Lan.Digits.{hex_digits}
use psychic_fiesta.Network.{Peer}
use psychic_fiesta.Network.Host.{HostLoop, host_name}
use psychic_fiesta.Interface.{Machine, start_lan_host, set_my_username}
use psychic_fiesta.Interface.Asking.{welcomed}
use psychic_fiesta.Interface.Joining.{Joined, connect_to_host_loop-Joined}
use psychic_fiesta.Interface.Delivery.{Delivered, send_game_action-Delivered}
use psychic_fiesta.Prelude.{◌≡◌, length}
use psychic_fiesta.Prelude.Outcome.{done}
use psychic_fiesta.Lan.{ok}
use psychic_fiesta.Interface.{bind_socket}
use psychic_fiesta.Interface.Code.{start_lan_host-joinable}
use psychic_fiesta.Network.{initial_peer}
use psychic_fiesta.Packet.Text.{IsText}
use psychic_fiesta.Interface.Hosting.{Session, HostReach-Session}
use psychic_fiesta.Interface.Hosting
use psychic_fiesta.Game.{white}
use psychic_fiesta.Packet.{P2pPacket, request, response}
use psychic_fiesta.Packet.Request
use psychic_fiesta.Packet.Response
use psychic_fiesta.Packet.Response.{P2pResponse}
use psychic_fiesta.Status.{connect_session_id, reconnecting}
use psychic_fiesta.Queue.{new_transaction_id, push_outgoing_queue, set_response, check_for_response}
use psychic_fiesta.Network.{recieve_p2p_packet}
use psychic_fiesta.Network.Client.{client_round, ping_start, ping_finish}
use psychic_fiesta.Interface.{send_join_request, check_for_connection_resp}
use psychic_fiesta.Interface.Playing.{ClientLoop, ClientReach, ask, starts, later, asks, requests}
use psychic_fiesta.Interface.Playing.{receives, checks, ticks, ends_wait, Kept}
use psychic_fiesta.Interface.Reached.{ClientReach-Kept}

abbrev ann_at : SocketAddr
ann_at = record { ip = v4 5; port = 6000 }

abbrev bob_at : SocketAddr
bob_at = record { ip = v4 6; port = 6001 }

-- "000000051770".
abbrev code : Bytes
code = b'0' ∷ b'0' ∷ b'0' ∷ b'0' ∷ b'0' ∷ b'0' ∷ b'0' ∷ b'5' ∷ b'1' ∷ b'7' ∷ b'7' ∷ b'0' ∷ []

abbrev bob_name : Bytes
bob_name = b'B' ∷ []

abbrev machine : Machine
machine = record {
  bind = λ port. true;
  binds_again = true;
  netifas = some [];
  local_ip = some (v4 5);
}

abbrev ann : HostLoop
ann = record {
  peer = record {
    conn = record initial_connection { status = pending_connection; join_code = some code };
    net = initial;
  };
  time_since_ping = 0;
}

abbrev named_ann : HostLoop
named_ann = record ann { peer = set_my_username (b'A' ∷ []) ann.peer }

HostReach-Session_example : Session code named_ann.peer.conn
unfolding start_lan_host get_available_port get_local_ip hex_encode_ip hex_digits
HostReach-Session_example = HostReach-Session code {h = named_ann} (
    Hosting.later (Hosting.starts {h = ann} hex_digits machine refl)
      (Hosting.names (b'A' ∷ []) refl))

abbrev bob : Peer
bob = record { conn = record initial_connection { status = pending_connection }; net = initial }

abbrev answered : ℕ → ℕ → Peer → Peer
answered i j p = welcomed code bob_name ann_at 7 bob 9 host_name

connect_to_host_loop-Joined_example :
    Joined code bob_name 1 1 hex_digits answered (λ i j. 7) bob ann ann_at bob_at 9 100 101
unfolding hex_decode_ip hex_digits is_utf8 to_packet check_transaction_id
connect_to_host_loop-Joined_example =
    connect_to_host_loop-Joined code bob_name 0 0 hex_digits answered (λ i j. 7) bob ann ann_at
      bob_at 9 100 101 refl (refl, refl, refl, λ e. cc e) (refl, λ e. cc e) (omega arith)
      (omega arith) (omega arith) (omega arith) refl refl refl refl refl refl

abbrev step_forward : GameAction
step_forward = move_piece (record { index = 20; end = 16; captured = none; promoted = false })

-- Bob in Ann's game, and Ann's process with Bob in it.
abbrev bob_playing : Peer
bob_playing = record bob {
  conn = record bob.conn { status = connected 0; other_addr = some ann_at; session_id = 9 };
}

abbrev ann_playing : HostLoop
ann_playing = record ann {
  peer = record ann.peer {
    conn = record ann.peer.conn { status = connected 0; other_addr = some bob_at; session_id = 9 };
  };
}

send_game_action-Delivered_example :
    Delivered step_forward 40 1 (λ i. 8) bob_playing ann_playing ann_at bob_at 10 200 201
unfolding to_packet check_transaction_id
send_game_action-Delivered_example =
    send_game_action-Delivered step_forward 40 0 (λ i. 8) bob_playing ann_playing ann_at bob_at 10
      200 201 (omega arith, omega arith, tt) (omega arith) (omega arith) (omega arith) (omega arith)
      refl refl refl refl refl (omega arith)

start_lan_host-joinable_example :
    (shown : Bytes) × (p' : Peer) × (start_lan_host hex_digits machine initial_peer
      ≡ done (shown, p'))
    × (hex_decode_ip hex_digits shown ≡ ok ann_at)
    × (length shown ≡ 12)
    × IsText shown
    × (p'.conn.join_code ≡ some shown)
    × (p'.conn.status ≡ pending_connection)
    × (p'.conn.other_addr ≡ none)
unfolding bind_socket get_available_port get_local_ip
start_lan_host-joinable_example =
    start_lan_host-joinable hex_digits machine 6000 5 initial_peer refl refl (omega arith)

-- Bob's process: it asks, the host's answer arrives, and a first ping is not answered in time.
abbrev join_request : P2pPacket
join_request = request (record {
  session_id = connect_session_id;
  transaction_id = 7;
  packet = Request.connect code bob_name;
})

abbrev answer : P2pResponse
answer = record { session_id = 9; transaction_id = 7; packet = Response.connect white host_name }

abbrev asked : Peer
asked = ask ann_at code bob_name initial_peer

abbrev requested : Peer
requested = record asked { net = (push_outgoing_queue (λ n. n) join_request none asked.net).1 }

abbrev arrived : Peer
arrived = record requested { net = set_response 7 (some (response answer)) requested.net }

abbrev joined : ClientLoop
joined = record { peer = (check_for_connection_resp (λ n. n) 7 arrived).1; waits_for = none }

requested-ClientReach : ClientReach (record { peer = requested; waits_for = none })
unfolding send_join_request hex_decode_ip hex_digits check_transaction_id new_transaction_id
    push_outgoing_queue
requested-ClientReach =
    later (later (starts refl) (asks ann_at code bob_name refl))
      (requests hex_digits (λ i n. n) 1 (λ i. 7) code bob_name 7 requested refl refl)

arrived-ClientReach : ClientReach (record { peer = arrived; waits_for = none })
unfolding client_round recieve_p2p_packet from_packet to_packet Response.from_packet
    Response.body_from_packet is_utf8
arrived-ClientReach =
    later requested-ClientReach
      (receives true (some (to_packet (response answer), ann_at)) none arrived refl refl)

abbrev ping : P2pPacket
ping = request (record { session_id = 9; transaction_id = 8; packet = Request.ping })

abbrev pinging : Peer
pinging = record joined.peer { net = (push_outgoing_queue (λ n. n) ping none joined.peer.net).1 }

joined-ClientReach : ClientReach joined
joined-ClientReach = later arrived-ClientReach (checks (λ n. n) 7 refl)

pinging-ClientReach : ClientReach (record { peer = pinging; waits_for = some 8 })
unfolding ping_start check_for_connection_resp check_transaction_id new_transaction_id
    push_outgoing_queue check_for_response set_response
pinging-ClientReach =
    later joined-ClientReach (ticks (λ i n. n) 1 (λ i. 8) (some 8) pinging refl refl refl)

ClientReach-Kept_example : Kept none (ping_finish none pinging).conn
ClientReach-Kept_example =
    ClientReach-Kept {h = record { peer = ping_finish none pinging; waits_for = none }}
      (later pinging-ClientReach (ends_wait 8 none refl refl))

is_reconnecting : (ping_finish none pinging).conn.status ≡ reconnecting 0
unfolding ping_finish check_for_connection_resp check_transaction_id push_outgoing_queue
    check_for_response set_response
is_reconnecting = refl
