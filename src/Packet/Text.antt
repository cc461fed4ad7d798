-- ===== src/Packet/Text.antt =====
-- `String::from_utf8` of the standard library: which byte sequences are UTF-8. A `String` is its
-- bytes.
use psychic_fiesta.Prelude.{ℕ, zero, suc, Bool, true, false, ◌&&◌, Option, none, some, [], ◌∷◌}
use psychic_fiesta.Prelude.{ltb, leb, ◌==◌, if◌then◌else◌, ◌≡◌}
use psychic_fiesta.Packet.Wire.{Bytes, Parsed, ok, err, not_utf8, data_error}

-- How many continuation bytes are due, and the range of the next one.
pub record Due : Type 0 where
  pub count : ℕ
  pub low : ℕ
  pub high : ℕ

abbrev due : ℕ → ℕ → ℕ → Option Due
due count low high = some (record { count = count; low = low; high = high })

abbrev in_range : ℕ → ℕ → ℕ → Bool
in_range lo hi b = leb lo b && leb b hi

abbrev first_byte : ℕ → Option Due
first_byte b =
    if ltb b 0x80
    then due 0 0 0
    else if in_range 0xc2 0xdf b
    then due 1 0x80 0xbf
    else if b == 0xe0
    then due 2 0xa0 0xbf
    else if b == 0xed
    then due 2 0x80 0x9f
    else if in_range 0xe1 0xef b
    then due 2 0x80 0xbf
    else if b == 0xf0
    then due 3 0x90 0xbf
    else if in_range 0xf1 0xf3 b
    then due 3 0x80 0xbf
    else if b == 0xf4
    then due 3 0x80 0x8f
    else none

abbrev next_byte : ℕ → Due → ℕ → Option Due
next_byte zero d b = first_byte b
next_byte (suc n) d b = if in_range d.low d.high b then due n 0x80 0xbf else none

unfoldable pub utf8_from : Due → Bytes → Bool
utf8_from d [] = d.count == 0
utf8_from d (b ∷ bs) = elim (next_byte d.count d b) [ none ↦ false | some d' ↦ utf8_from d' bs ]

unfoldable pub is_utf8 : Bytes → Bool
unfolding utf8_from
is_utf8 bs = utf8_from (record { count = 0; low = 0; high = 0 }) bs

-- The bytes of a `String`.
abbrev pub IsText : Bytes → Type 0
IsText bs = is_utf8 bs ≡ true

abbrev pub from_utf8 : Bytes → Parsed Bytes
from_utf8 bs = if is_utf8 bs then ok bs else err (data_error not_utf8)
