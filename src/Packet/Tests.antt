-- ===== src/Packet/Tests.antt =====
-- Packets written and read.
use psychic_fiesta.Prelude.{true, false, some, [], ◌∷◌, ◌≡◌, refl, arith, replicate}
use psychic_fiesta.Game.{black, PieceData, Move, move_piece}
use psychic_fiesta.Packet.Wire.{Bytes, ok, err, invalid_length}
use psychic_fiesta.Packet.Piece.{piece_to_u8, piece_try_from}
use psychic_fiesta.Packet.Request
use psychic_fiesta.Packet.Response
use psychic_fiesta.Packet.RoundTrip.{IsSendable, from_packet-to_packet}
use psychic_fiesta.Packet.Accepted.{from_packet-relayed}
use psychic_fiesta.Packet.Text.{is_utf8}
use psychic_fiesta.Packet.Faults.{piece_try_from-to_u8, resync_refused}
use psychic_fiesta.Packet.{P2pPacket, request, response, to_packet, from_packet}

abbrev capture : Move
capture = record { index = 22; end = 4; promoted = false; captured = some (9 ∷ 18 ∷ []) }

abbrev sent_move : P2pPacket
sent_move = request (record {
  session_id = 513;
  transaction_id = 7;
  packet = Request.game_action (move_piece capture);
})

sent_move_bytes : to_packet sent_move ≡ 0 ∷ 2 ∷ 1 ∷ 0 ∷ 7 ∷ 4 ∷ 0 ∷ 22 ∷ 4 ∷ 0 ∷ 9 ∷ 18 ∷ []
unfolding to_packet
sent_move_bytes = refl

from_packet-to_packet_example : from_packet (to_packet sent_move) ≡ ok sent_move
from_packet-to_packet_example = from_packet-to_packet sent_move (
  omega arith,
  omega arith,
  (omega arith, omega arith, ((omega arith, (omega arith, tt)), λ e. cc)),
)

-- A game action cut off after two of its fields.
abbrev short_move : Bytes
short_move = 0 ∷ 0 ∷ 1 ∷ 0 ∷ 1 ∷ 4 ∷ 0 ∷ 22 ∷ 18 ∷ []

abbrev black_king : PieceData
black_king = record { is_active = false; is_king = true; color = black }

piece_try_from-to_u8_example :
    piece_try_from (piece_to_u8 black_king)
    ≡ ok (record { is_active = true; is_king = true; color = black })
piece_try_from-to_u8_example = piece_try_from-to_u8 black_king

resync_refused_example :
    from_packet (
      to_packet (
        response (record {
          session_id = 1;
          transaction_id = 2;
          packet = Response.resync (replicate 32 black_king);
        })))
    ≡ err (invalid_length 65 33)
resync_refused_example = resync_refused 1 2 (replicate 32 black_king) (omega arith)

-- "code" twelve bytes long, and the name "B".
abbrev join_bytes : Bytes
join_bytes =
    0 ∷ 21 ∷ 244 ∷ 0 ∷ 7 ∷ 2 ∷ 48 ∷ 48 ∷ 48 ∷ 48 ∷ 48 ∷ 48 ∷ 48 ∷ 53 ∷ 49 ∷ 55 ∷ 55 ∷ 48 ∷ 66 ∷ []

abbrev join_packet : P2pPacket
join_packet = request (record {
  session_id = 5620;
  transaction_id = 7;
  packet =
      Request.connect (48 ∷ 48 ∷ 48 ∷ 48 ∷ 48 ∷ 48 ∷ 48 ∷ 53 ∷ 49 ∷ 55 ∷ 55 ∷ 48 ∷ []) (66 ∷ []);
})

join_read : from_packet join_bytes ≡ ok join_packet
unfolding from_packet Request.from_packet Request.body_from_packet is_utf8
join_read = refl

from_packet-relayed_example :
    IsSendable join_packet × (from_packet (to_packet join_packet) ≡ ok join_packet)
from_packet-relayed_example =
    from_packet-relayed join_bytes join_packet (ground arith) join_read (λ b. b)
