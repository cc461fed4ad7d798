-- ===== src/Packet/Request.antt =====
-- src/net/p2p/mod.rs: requests to and from bytes.
use psychic_fiesta.Prelude.{ℕ, not, [], ◌∷◌, ◌++◌, if◌then◌else◌, ltb, ◌==◌}
use psychic_fiesta.Prelude.{length}
use psychic_fiesta.Game.{GameAction}
use psychic_fiesta.Packet.Wire.{Bytes, Parsed, ok, err, panic, ◌>>=◌, byte_at, slice, slice_from}
use psychic_fiesta.Packet.Wire.{to_be_bytes, from_be_bytes, invalid_length, invalid_type, empty}
use psychic_fiesta.Packet.Wire.{data_error, bad_packet_type}
use psychic_fiesta.Packet.Text.{from_utf8}
use psychic_fiesta.Packet.Action

pub data P2pRequestPacket : Type 0 where
  ping : P2pRequestPacket
  connect : Bytes → Bytes → P2pRequestPacket
  resync : P2pRequestPacket
  game_action : GameAction → P2pRequestPacket

pub record P2pRequest : Type 0 where
  pub session_id : ℕ
  pub transaction_id : ℕ
  pub packet : P2pRequestPacket

unfoldable pub to_u8 : P2pRequestPacket → ℕ
to_u8 ping = 1
to_u8 (connect _ _) = 2
to_u8 resync = 3
to_u8 (game_action _) = 4

unfoldable pub body_to_packet : P2pRequestPacket → Bytes
unfolding to_u8 Action.to_packet
body_to_packet ping = to_u8 ping ∷ []
body_to_packet (connect join_code username) =
    to_u8 (connect join_code username) ∷ join_code ++ username
body_to_packet resync = to_u8 resync ∷ []
body_to_packet (game_action action) = to_u8 (game_action action) ∷ Action.to_packet action

unfoldable pub connect_from_packet : Bytes → Parsed P2pRequestPacket
connect_from_packet packet =
    if ltb (length packet) 14 then err (invalid_length 14 (length packet)) else (do
      join_bytes ← slice 1 13 packet
      join_code ← from_utf8 join_bytes
      name_bytes ← slice_from 13 packet
      username ← from_utf8 name_bytes
      ok (connect join_code username))

-- `unwrap`.
abbrev pub unwrap {ℓ} : {A : Type ℓ} → Parsed A → Parsed A
unwrap (ok a) = ok a
unwrap (err _) = panic
unwrap panic = panic

unfoldable pub game_action_from_packet : Bytes → Parsed P2pRequestPacket
unfolding Action.from_packet
game_action_from_packet packet =
    if ltb (length packet) 2 then err (invalid_length 2 (length packet)) else (do
      bytes ← slice_from 1 packet
      action ← unwrap (Action.from_packet bytes)
      ok (game_action action))

unfoldable pub body_from_packet : Bytes → Parsed P2pRequestPacket
unfolding connect_from_packet game_action_from_packet
body_from_packet [] = err empty
body_from_packet (b ∷ bs) =
    if b == 1
    then ok ping
    else if b == 2
    then connect_from_packet (b ∷ bs)
    else if b == 3
    then ok resync
    else if b == 4
    then game_action_from_packet (b ∷ bs)
    else err (data_error (bad_packet_type b))

unfoldable pub to_packet : P2pRequest → Bytes
unfolding body_to_packet
to_packet r =
    (0 ∷ [])
    ++ (to_be_bytes r.session_id ++ (to_be_bytes r.transaction_id ++ body_to_packet r.packet))

unfoldable pub from_packet : Bytes → Parsed P2pRequest
from_packet packet = if ltb (length packet) 6 then err (invalid_length 6 (length packet)) else (do
  kind ← byte_at packet 0
  if not (kind == 0) then err invalid_type else (do
    session_bytes ← slice 1 3 packet
    session_id ← from_be_bytes session_bytes
    transaction_bytes ← slice 3 5 packet
    transaction_id ← from_be_bytes transaction_bytes
    body_bytes ← slice_from 5 packet
    body ← body_from_packet body_bytes
    ok (record { session_id = session_id; transaction_id = transaction_id; packet = body })))
