-- ===== src/Packet/Response.antt =====
-- src/net/p2p/mod.rs: responses to and from bytes.
use psychic_fiesta.Prelude.{ℕ, not, List, [], ◌∷◌, ◌++◌, map, if◌then◌else◌, ltb}
use psychic_fiesta.Prelude.{length, ◌==◌}
use psychic_fiesta.Game.{PieceColor, PieceData}
use psychic_fiesta.Packet.Wire.{Bytes, Parsed, ok, err, ◌>>=◌, byte_at, slice, slice_from}
use psychic_fiesta.Packet.Wire.{to_be_bytes, from_be_bytes, invalid_length, invalid_type, empty}
use psychic_fiesta.Packet.Wire.{data_error, bad_packet_type}
use psychic_fiesta.Packet.Text.{from_utf8}
use psychic_fiesta.Packet.Piece.{P2pError, error_to_u8, error_try_from, color_to_u8, color_try_from}
use psychic_fiesta.Packet.Piece.{piece_to_u8, piece_try_from}

-- `Connect` and `Resync` carry other fields than the requests of the same name.
pub data P2pResponsePacket : Type 0 where
  error : P2pError → P2pResponsePacket
  pong : P2pResponsePacket
  connect : PieceColor → Bytes → P2pResponsePacket
  resync : List PieceData → P2pResponsePacket
  acknowledge : P2pResponsePacket

pub record P2pResponse : Type 0 where
  pub session_id : ℕ
  pub transaction_id : ℕ
  pub packet : P2pResponsePacket

unfoldable pub to_u8 : P2pResponsePacket → ℕ
to_u8 (error _) = 0
to_u8 pong = 1
to_u8 (connect _ _) = 2
to_u8 (resync _) = 3
to_u8 acknowledge = 4

unfoldable pub body_to_packet : P2pResponsePacket → Bytes
unfolding to_u8 error_to_u8 color_to_u8 piece_to_u8
body_to_packet (error kind) = to_u8 (error kind) ∷ error_to_u8 kind ∷ []
body_to_packet pong = to_u8 pong ∷ []
body_to_packet (connect client_color host_username) =
    to_u8 (connect client_color host_username) ∷ color_to_u8 client_color ∷ host_username
body_to_packet (resync board) = to_u8 (resync board) ∷ map piece_to_u8 board
body_to_packet acknowledge = to_u8 acknowledge ∷ []

unfoldable pub error_from_packet : Bytes → Parsed P2pResponsePacket
unfolding error_try_from
error_from_packet packet =
    if not (length packet == 2)
    then err (invalid_length 2 (length packet))
    else (do b ← byte_at packet 1; kind ← error_try_from b; ok (error kind))

unfoldable pub connect_from_packet : Bytes → Parsed P2pResponsePacket
unfolding color_try_from
connect_from_packet packet =
    if ltb (length packet) 3 then err (invalid_length 2 (length packet)) else (do
      b ← byte_at packet 1
      client_color ← color_try_from b
      name_bytes ← slice_from 2 packet
      host_username ← from_utf8 name_bytes
      ok (connect client_color host_username))

unfoldable pub pieces_from : Bytes → Parsed (List PieceData)
unfolding piece_try_from
pieces_from [] = ok []
pieces_from (b ∷ bs) = do piece ← piece_try_from b; rest ← pieces_from bs; ok (piece ∷ rest)

unfoldable pub resync_from_packet : Bytes → Parsed P2pResponsePacket
unfolding pieces_from
resync_from_packet packet =
    if ltb (length packet) 65
    then err (invalid_length 65 (length packet))
    else (do bytes ← slice_from 1 packet; board ← pieces_from bytes; ok (resync board))

unfoldable pub body_from_packet : Bytes → Parsed P2pResponsePacket
unfolding error_from_packet connect_from_packet resync_from_packet
body_from_packet [] = err empty
body_from_packet (b ∷ bs) =
    if b == 0
    then error_from_packet (b ∷ bs)
    else if b == 1
    then ok pong
    else if b == 2
    then connect_from_packet (b ∷ bs)
    else if b == 3
    then resync_from_packet (b ∷ bs)
    else if b == 4
    then ok acknowledge
    else err (data_error (bad_packet_type b))

unfoldable pub to_packet : P2pResponse → Bytes
unfolding body_to_packet
to_packet r =
    (1 ∷ [])
    ++ (to_be_bytes r.session_id ++ (to_be_bytes r.transaction_id ++ body_to_packet r.packet))

unfoldable pub from_packet : Bytes → Parsed P2pResponse
from_packet packet = if ltb (length packet) 6 then err (invalid_length 6 (length packet)) else (do
  kind ← byte_at packet 0
  if not (kind == 1) then err invalid_type else (do
    session_bytes ← slice 1 3 packet
    session_id ← from_be_bytes session_bytes
    transaction_bytes ← slice 3 5 packet
    transaction_id ← from_be_bytes transaction_bytes
    body_bytes ← slice_from 5 packet
    body ← body_from_packet body_bytes
    ok (record { session_id = session_id; transaction_id = transaction_id; packet = body })))
