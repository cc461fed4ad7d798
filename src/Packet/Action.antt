-- ===== src/Packet/Action.antt =====
-- src/net/p2p/mod.rs: game actions to and from bytes. `usize as u8` keeps the low eight bits.
use psychic_fiesta.Prelude.{ℕ, ◌%◌, Bool, false, not, Option, none, some, List, [], ◌∷◌}
use psychic_fiesta.Prelude.{map, if◌then◌else◌, ltb, ◌==◌, length, drop}
use psychic_fiesta.Game.{GameAction, move_piece, stalemate, surrender}
use psychic_fiesta.Packet.Wire.{Bytes, Parsed, ok, err, panic, ◌>>=◌, byte_at, invalid_length}

unfoldable pub to_u8 : GameAction → ℕ
to_u8 (move_piece _) = 0
to_u8 stalemate = 1
to_u8 surrender = 2

abbrev bool_to_u8 : Bool → ℕ
bool_to_u8 b = if b then 1 else 0

abbrev pub captured_bytes : Option (List ℕ) → Bytes
captured_bytes none = []
captured_bytes (some captured) = map (λ piece. piece % 256) captured

abbrev move_bytes : GameAction → Bytes
move_bytes (move_piece m) =
    (m.index % 256) ∷ (m.end % 256) ∷ bool_to_u8 m.promoted ∷ captured_bytes m.captured
move_bytes _ = []

unfoldable pub to_packet : GameAction → Bytes
unfolding to_u8
to_packet action = to_u8 action ∷ move_bytes action

-- `GameAction::from(u8)`, which makes up the fields of a move and panics on other values.
unfoldable pub from_u8 : ℕ → Parsed GameAction
from_u8 value =
    if value == 0
    then ok (move_piece (record { index = 0; end = 0; promoted = false; captured = none }))
    else if value == 1
    then ok stalemate
    else if value == 2
    then ok surrender
    else panic

-- The arm of a move: three bytes are asked for and four are read.
unfoldable pub move_from_packet : Bytes → Parsed GameAction
move_from_packet packet =
    if ltb (length packet) 3 then err (invalid_length 4 (length packet)) else (do
      index ← byte_at packet 1
      end ← byte_at packet 2
      promoted ← byte_at packet 3
      ok (
          move_piece (record {
            index = index;
            end = end;
            promoted = not (promoted == 0);
            captured = if ltb 4 (length packet) then some (drop 4 packet) else none;
          })))

-- The arms of the actions that are one byte.
abbrev only_byte : GameAction → Bytes → Parsed GameAction
only_byte action packet =
    if length packet == 1 then ok action else err (invalid_length 1 (length packet))

abbrev pub arm : GameAction → Bytes → Parsed GameAction
arm (move_piece _) packet = move_from_packet packet
arm surrender packet = only_byte surrender packet
arm stalemate packet = only_byte stalemate packet

unfoldable pub from_packet : Bytes → Parsed GameAction
unfolding from_u8 move_from_packet
from_packet [] = err (invalid_length 1 0)
from_packet (b ∷ bs) = do kind ← from_u8 b; arm kind (b ∷ bs)
