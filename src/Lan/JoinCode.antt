-- ===== src/Lan/JoinCode.antt =====
-- Join codes: a host's address in hexadecimal digits.
use psychic_fiesta.Prelude.{ℕ, ◌<◌, ◌≡◌, refl, arith, length, All}
use psychic_fiesta.Packet.Wire.{Bytes, IsByte, IsU16}
use psychic_fiesta.Packet.Text.{IsText}
use psychic_fiesta.Address.{v4, SocketAddr}
use psychic_fiesta.Lan.{Hex, ok, addr_bytes, addr_of, hex_encode_ip, hex_decode_ip}
use mathlib.Core.Path.{ap₂}

abbrev pub v4_addr : ℕ → ℕ → SocketAddr
v4_addr ip port = record { ip = v4 ip; port = port }

addr_of-addr_bytes :
    (ip port : ℕ)
    → ip < 4294967296
    → IsU16 port
    → addr_of (addr_bytes ip port) ≡ ok (v4_addr ip port)
addr_of-addr_bytes ip port small fits = ap₂ (λ i p. ok (v4_addr i p)) (omega arith) (omega arith)

-- An address of version 4 has a join code, which is decoded to the address again; it is a text of
-- twelve bytes, as a request to connect sends it.
pub hex_decode_ip-encode :
    (hex : Hex) (ip port : ℕ)
    → ip < 4294967296
    → IsU16 port
    → (code : Bytes) × (hex_encode_ip hex (v4_addr ip port) ≡ ok code)
      × (hex_decode_ip hex code ≡ ok (v4_addr ip port))
      × (length code ≡ 12)
      × IsText code
unfolding hex_encode_ip hex_decode_ip
hex_decode_ip-encode hex ip port small fits =
    let bs = addr_bytes ip port in
    let bytes : All IsByte bs = omega arith in
    (
      hex.encode bs,
      refl,
      rw (hex.decode-encode bs bytes, hex_decode_ip) (addr_of-addr_bytes ip port small fits),
      hex.length-encode bs,
      hex.encode-IsText bs bytes,
    )
