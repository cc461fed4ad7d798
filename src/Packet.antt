-- ===== src/Packet.antt =====
-- src/net/p2p/mod.rs: the packet format. A peer reads a datagram with `from_packet` and sends what
-- `to_packet` returns.
mod Tests
pub mod Wire
pub mod Text
pub mod Piece
pub mod Action
pub mod Request
pub mod Response
pub mod RoundTrip
pub mod Bodies
pub mod Accepted
pub mod Faults
use psychic_fiesta.Prelude.{ℕ, Bool, true, false, [], ◌∷◌, if◌then◌else◌, ◌==◌}
use Wire.{Bytes, Parsed, ok, err, panic, ◌>>=◌, invalid_type}
use Request
use Request.{P2pRequest}
use Response
use Response.{P2pResponse}

pub data P2pPacket : Type 0 where
  request : P2pRequest → P2pPacket
  response : P2pResponse → P2pPacket

unfoldable pub is_request : P2pPacket → Bool
is_request (request _) = true
is_request (response _) = false

unfoldable pub is_response : P2pPacket → Bool
is_response (request _) = false
is_response (response _) = true

unfoldable pub to_packet : P2pPacket → Bytes
unfolding Request.to_packet Response.to_packet
to_packet (request r) = Request.to_packet r
to_packet (response r) = Response.to_packet r

-- An empty datagram makes `packet[0]` panic.
unfoldable pub from_packet : Bytes → Parsed P2pPacket
from_packet [] = panic
from_packet (b ∷ bs) =
    if b == 0
    then (do r ← Request.from_packet (b ∷ bs); ok (request r))
    else if b == 1
    then (do r ← Response.from_packet (b ∷ bs); ok (response r))
    else err invalid_type
