-- ===== src/Lan.antt =====
-- src/net/net_utils.rs: the port, the local address and the join code of a host on a LAN. The `hex`
-- crate, the sockets and the network interfaces are parameters.
pub mod Ports
pub mod JoinCode
pub mod Digits
mod Tests
use psychic_fiesta.Prelude.{
  ℕ, zero, suc, ◌+◌, ◌*◌, ◌/◌, ◌%◌, Bool, true, false, not, ◌&&◌, Option, none, some,
}
use psychic_fiesta.Prelude.{List, [], ◌∷◌, ◌++◌, ◌≡◌, if◌then◌else◌, ◌==◌, length, take, drop, All}
use psychic_fiesta.Packet.Wire.{Bytes, IsByte, to_be_bytes}
use psychic_fiesta.Packet.Text.{IsText}
use psychic_fiesta.Address.{IpAddr, v4, v6, SocketAddr}

-- `NetworkError`, and the two texts of `hex_decode_ip`.
pub data NetworkError : Type 0 where
  port_binding_error get_ip_v4_error response_type_error : NetworkError
  send_error recieve_error : Bytes → NetworkError
  bad_hex wrong_data_length : NetworkError

-- `anyhow::Result`, a panic, and the undefined behaviour of `unreachable_unchecked`.
pub data Attempt {ℓ} (A : Type ℓ) : Type ℓ where
  ok : A → Attempt A
  err : NetworkError → Attempt A
  panic : Attempt A
  undefined : Attempt A

-- The `hex` crate: two characters for each byte, which decode to the bytes.
pub record Hex : Type 0 where
  pub encode : Bytes → Bytes
  pub decode : Bytes → Option Bytes
  pub decode-encode : (bs : Bytes) → All IsByte bs → decode (encode bs) ≡ some bs
  pub length-encode : (bs : Bytes) → length (encode bs) ≡ 2 * length bs
  pub encode-IsText : (bs : Bytes) → All IsByte bs → IsText (encode bs)

-- `for port_id in 6000..=7000`, with the rounds left: whether a bind succeeds is the argument.
unfoldable pub port_loop : (ℕ → Bool) → ℕ → ℕ → Attempt ℕ
port_loop bind zero port_id = err port_binding_error
port_loop bind (suc n) port_id =
    let rest = port_loop bind n (port_id + 1) in if bind port_id then ok port_id else rest

unfoldable pub get_available_port : (ℕ → Bool) → Attempt ℕ
unfolding port_loop
get_available_port bind = port_loop bind 1001 6000

-- What `local_ip_address` reports of an interface: whether it is named "hamachi", and its address.
pub record Interface : Type 0 where
  pub is_hamachi : Bool
  pub ip : IpAddr

abbrev pub is_v4 : IpAddr → Bool
is_v4 (v4 _) = true
is_v4 (v6 _) = false

unfoldable pub find_hamachi : List Interface → Option IpAddr
find_hamachi [] = none
find_hamachi (i ∷ rest) = if is_v4 i.ip && i.is_hamachi then some i.ip else find_hamachi rest

-- The interface found is taken to be of version 4.
abbrev pub found_ip : IpAddr → Attempt ℕ
found_ip (v4 ip) = ok ip
found_ip (v6 ip) = undefined

abbrev pub v4_of : Option IpAddr → Attempt ℕ
v4_of (some (v4 ip)) = ok ip
v4_of _ = err get_ip_v4_error

-- The interfaces, if they can be listed, and the answer of `local_ip`.
unfoldable pub get_local_ip : Option (List Interface) → Option IpAddr → Attempt ℕ
unfolding find_hamachi
get_local_ip none local_ip = panic
get_local_ip (some netifas) local_ip = elim (find_hamachi netifas) [
  | some ip ↦ found_ip ip
  | none ↦ v4_of local_ip
]

-- `u32::to_be_bytes`.
abbrev pub u32_bytes : ℕ → Bytes
u32_bytes n = (n / 16777216 % 256) ∷ (n / 65536 % 256) ∷ (n / 256 % 256) ∷ (n % 256) ∷ []

abbrev pub addr_bytes : ℕ → ℕ → Bytes
addr_bytes ip port = u32_bytes ip ++ to_be_bytes port

abbrev pub encode_from : Hex → IpAddr → ℕ → Attempt Bytes
encode_from hex (v4 ip) port = ok (hex.encode (addr_bytes ip port))
encode_from hex (v6 ip) port = err get_ip_v4_error

unfoldable pub hex_encode_ip : Hex → SocketAddr → Attempt Bytes
hex_encode_ip hex addr = encode_from hex addr.ip addr.port

-- `from_be_bytes` on four bytes and on two, of six.
abbrev pub addr_of : Bytes → Attempt SocketAddr
addr_of (a ∷ b ∷ c ∷ d ∷ hi ∷ lo ∷ []) =
    ok (record { ip = v4 (a * 16777216 + b * 65536 + c * 256 + d); port = hi * 256 + lo })
addr_of _ = err wrong_data_length

unfoldable pub hex_decode_ip : Hex → Bytes → Attempt SocketAddr
hex_decode_ip hex text = elim (hex.decode text) [ none ↦ err bad_hex | some bytes ↦ addr_of bytes ]
