-- ===== src/Interface/Code.antt =====
-- The join code that a host shows is one that a client can connect with.
use psychic_fiesta.Prelude.{ℕ, ◌<◌, some, ◌≡◌, refl, arith, length}
use psychic_fiesta.Prelude.{inl, inr, Bool-cases}
use psychic_fiesta.Prelude.Outcome.{done}
use psychic_fiesta.Prelude.Holds.{Holds, Holds-done}
use psychic_fiesta.Packet.Wire.{Bytes, IsU16}
use psychic_fiesta.Packet.Text.{IsText}
use psychic_fiesta.Status.{pending_connection}
use psychic_fiesta.Lan.{Hex, get_available_port, get_local_ip, hex_decode_ip}
use psychic_fiesta.Lan
use psychic_fiesta.Lan.Ports.{get_available_port_first}
use psychic_fiesta.Lan.JoinCode.{v4_addr, hex_decode_ip-encode}
use psychic_fiesta.Network.{Peer}
use psychic_fiesta.Interface.{Machine, bind_socket, start_lan_host}

bind_socket-IsU16 : (m : Machine) → Holds IsU16 (bind_socket m)
unfolding bind_socket
bind_socket-IsU16 m = elim (get_available_port_first m.bind) [
  | inl (k, small, found, _, _) ↦ elim (Bool-cases m.binds_again) [
    | inl q ↦ rw found (rw q (omega arith))
    | inr q ↦ rw found (rw q tt)
  ]
  | inr (e, _) ↦ rw e tt
]

-- A host that can bind a port and has an address of version 4 starts, and waits for a client. The
-- code that it shows, and compares requests with, is a text of twelve bytes, which decodes to that
-- address and port.
pub start_lan_host-joinable :
    (hex : Hex) (m : Machine) (port ip : ℕ) (p : Peer)
    → bind_socket m ≡ done port
    → get_local_ip m.netifas m.local_ip ≡ Lan.ok ip
    → ip < 4294967296
    → (code : Bytes) × (p' : Peer) × (start_lan_host hex m p ≡ done (code, p'))
      × (hex_decode_ip hex code ≡ Lan.ok (v4_addr ip port))
      × (length code ≡ 12)
      × IsText code
      × (p'.conn.join_code ≡ some code)
      × (p'.conn.status ≡ pending_connection)
      × (p'.conn.other_addr ≡ p.conn.other_addr)
unfolding start_lan_host
start_lan_host-joinable hex m port ip p binds local small =
    let fits = Holds-done IsU16 (bind_socket m) port (bind_socket-IsU16 m) binds in
    let (code, encodes, decodes, size, text) = hex_decode_ip-encode hex ip port small fits in
    (
      code,
      record p { conn = record p.conn { status = pending_connection; join_code = some code } },
      rw binds (rw local (rw encodes refl)),
      decodes,
      size,
      text,
      refl,
      refl,
      refl,
    )
