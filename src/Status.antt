-- ===== src/Status.antt =====
-- src/net/status.rs: the connection of one peer, a static record behind locks.
use psychic_fiesta.Prelude.{ℕ, Bool, true, false, Option, none, some}
use psychic_fiesta.Packet.Wire.{Bytes}
use psychic_fiesta.Address.{SocketAddr}

abbrev pub connect_session_id : ℕ
connect_session_id = 0x15f4

pub data ConnectionStatus : Type 0 where
  disconnected pending_connection : ConnectionStatus
  reconnecting connected : ℕ → ConnectionStatus

-- `ConnectionStatus::connected()` and `ConnectionStatus::reconnecting()`.
abbrev pub just_connected : ConnectionStatus
just_connected = connected 0

abbrev pub just_reconnecting : ConnectionStatus
just_reconnecting = reconnecting 0

abbrev pub is_connected : ConnectionStatus → Bool
is_connected (connected _) = true
is_connected _ = false

abbrev pub is_reconnecting : ConnectionStatus → Bool
is_reconnecting (reconnecting _) = true
is_reconnecting _ = false

abbrev pub can_send : ConnectionStatus → Bool
can_send disconnected = false
can_send pending_connection = true
can_send (reconnecting _) = true
can_send (connected _) = true

pub record ConnectionData : Type 0 where
  pub status : ConnectionStatus
  pub other_addr : Option SocketAddr
  pub other_username : Option Bytes
  pub my_username : Option Bytes
  pub join_code : Option Bytes
  pub session_id : ℕ

abbrev pub initial_connection : ConnectionData
initial_connection = record {
  status = disconnected;
  other_addr = none;
  other_username = none;
  my_username = none;
  join_code = none;
  session_id = connect_session_id;
}

abbrev pub set_other_addr : SocketAddr → ConnectionData → ConnectionData
set_other_addr addr c = record c { other_addr = some addr }

abbrev pub remove_other_addr : ConnectionData → ConnectionData
remove_other_addr c = record c { other_addr = none }

abbrev pub set_other_username : Bytes → ConnectionData → ConnectionData
set_other_username name c = record c { other_username = some name }

abbrev pub set_my_username : Bytes → ConnectionData → ConnectionData
set_my_username name c = record c { my_username = some name }

abbrev pub remove_other_username : ConnectionData → ConnectionData
remove_other_username c = record c { other_username = none }

abbrev pub set_connection_status : ConnectionStatus → ConnectionData → ConnectionData
set_connection_status status c = record c { status = status }

abbrev pub ping_of : ConnectionStatus → Option ℕ
ping_of (connected ping) = some ping
ping_of _ = none

abbrev pub get_connection_ping : ConnectionData → Option ℕ
get_connection_ping c = ping_of c.status

abbrev pub with_ping : ℕ → ConnectionStatus → ConnectionStatus
with_ping new_ping (connected _) = connected new_ping
with_ping new_ping status = status

abbrev pub set_connection_ping : ℕ → ConnectionData → ConnectionData
set_connection_ping new_ping c = record c { status = with_ping new_ping c.status }

abbrev pub with_tries : ℕ → ConnectionStatus → ConnectionStatus
with_tries new_tries (reconnecting _) = reconnecting new_tries
with_tries new_tries status = status

abbrev pub set_reconnect_tries : ℕ → ConnectionData → ConnectionData
set_reconnect_tries new_tries c = record c { status = with_tries new_tries c.status }

abbrev pub set_join_code : Bytes → ConnectionData → ConnectionData
set_join_code code c = record c { join_code = some code }

abbrev pub set_session_id : ℕ → ConnectionData → ConnectionData
set_session_id session_id c = record c { session_id = session_id }
