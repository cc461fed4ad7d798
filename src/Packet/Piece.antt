-- ===== src/Packet/Piece.antt =====
-- src/net/p2p/mod.rs: the one-byte codes of error kinds, colours and pieces.
use psychic_fiesta.Prelude.{ℕ, ◌+◌, ◌/◌, ◌%◌, true, false, if◌then◌else◌, ◌==◌, leb, not}
use psychic_fiesta.Game.{PieceColor, white, black, PieceData}
use psychic_fiesta.Packet.Wire.{Parsed, ok, err, data_error, bad_error_kind, bad_piece_color}
use psychic_fiesta.Packet.Wire.{bad_piece_byte}
use Prim.Native.Nat.{bit_and, bit_or}

pub data P2pError : Type 0 where
  invalid_board invalid_join_code invalid_session_id full_game_session wrong_direction : P2pError

unfoldable pub error_to_u8 : P2pError → ℕ
error_to_u8 invalid_board = 0
error_to_u8 invalid_join_code = 1
error_to_u8 invalid_session_id = 2
error_to_u8 full_game_session = 3
error_to_u8 wrong_direction = 4

-- `P2pError::try_from`, with its error wrapped as its one caller wraps it.
unfoldable pub error_try_from : ℕ → Parsed P2pError
error_try_from value =
    if value == 0
    then ok invalid_board
    else if value == 1
    then ok invalid_join_code
    else if value == 2
    then ok invalid_session_id
    else if value == 3
    then ok full_game_session
    else if value == 4
    then ok wrong_direction
    else err (data_error (bad_error_kind value))

unfoldable pub color_to_u8 : PieceColor → ℕ
color_to_u8 white = 1
color_to_u8 black = 2

unfoldable pub color_try_from : ℕ → Parsed PieceColor
color_try_from value =
    if value == 1
    then ok white
    else if value == 2
    then ok black
    else err (data_error (bad_piece_color value))

abbrev color_bit : PieceColor → ℕ
color_bit white = 0b001
color_bit black = 0b010

unfoldable pub piece_to_u8 : PieceData → ℕ
piece_to_u8 p =
    if p.is_active
    then 0
    else let byte = bit_or 0 (color_bit p.color) in if p.is_king then bit_or byte 0b100 else byte

-- `count_ones` of a number below 4.
abbrev count_ones : ℕ → ℕ
count_ones b = b % 2 + b / 2 % 2

unfoldable pub piece_try_from : ℕ → Parsed PieceData
piece_try_from value =
    if value == 0
    then ok (record { is_active = false; is_king = false; color = white })
    else if not (count_ones (bit_and value 0b11) == 1)
    then err (data_error bad_piece_byte)
    else ok (record {
      is_active = true;
      is_king = leb 0b100 (bit_and value 0b100);
      color = if bit_and value 0b01 == 1 then white else black;
    })
