-- ===== src/Lan/Digits.antt =====
-- Hexadecimal digits as the `hex` crate writes them: its assumptions can be met.
use psychic_fiesta.Prelude.{ℕ, ◌+◌, ◌-◌, ◌*◌, ◌/◌, ◌%◌, ◌<◌, ◌&&◌, Option, none, some}
use psychic_fiesta.Prelude.{[], ◌∷◌, ◌≡◌, refl, arith, if◌then◌else◌, ltb, leb, length, All}
use psychic_fiesta.Packet.Wire.{Bytes, IsByte}
use psychic_fiesta.Packet.Text.{IsText, Due, is_utf8, utf8_from}
use psychic_fiesta.Lan.{Hex}

abbrev digit : ℕ → ℕ
digit n = if ltb n 10 then b'0' + n else b'a' - 10 + n

abbrev value : ℕ → Option ℕ
value c =
    if leb b'0' c && leb c b'9'
    then some (c - b'0')
    else if leb b'a' c && leb c b'f'
    then some (c + 10 - b'a')
    else if leb b'A' c && leb c b'F'
    then some (c + 10 - b'A')
    else none

unfoldable pub encode : Bytes → Bytes
encode [] = []
encode (b ∷ bs) = digit (b / 16) ∷ digit (b % 16) ∷ encode bs

abbrev joined : Option ℕ → Option ℕ → Option Bytes → Option Bytes
joined (some a) (some b) (some bs) = some ((a * 16 + b) ∷ bs)
joined _ _ _ = none

unfoldable pub decode : Bytes → Option Bytes
decode [] = some []
decode (c ∷ []) = none
decode (c ∷ d ∷ rest) = joined (value c) (value d) (decode rest)

value-digit : (n : ℕ) → n < 16 → value (digit n) ≡ some n
value-digit n h = ground arith

pub decode-encode : (bs : Bytes) → All IsByte bs → decode (encode bs) ≡ some bs
unfolding decode encode
decode-encode [] h = refl
decode-encode (b ∷ bs) (hb, hs) = ground (
  arith,
  value-digit (b / 16) (omega arith),
  value-digit (b % 16) (omega arith),
  decode-encode bs hs,
)

pub length-encode : (bs : Bytes) → length (encode bs) ≡ 2 * length bs
unfolding encode
length-encode [] = refl
length-encode (b ∷ bs) = omega (arith, length-encode bs)

abbrev start : Due
start = record { count = 0; low = 0; high = 0 }

ascii : (c : ℕ) (bs : Bytes) → c < 128 → utf8_from start (c ∷ bs) ≡ utf8_from start bs
unfolding utf8_from
ascii c bs h = ground arith

digit-lt : (n : ℕ) → n < 16 → digit n < 128
digit-lt n h = ground arith

pub encode-IsText : (bs : Bytes) → All IsByte bs → IsText (encode bs)
unfolding encode is_utf8
encode-IsText [] h = refl
encode-IsText (b ∷ bs) (hb, hs) =
    rw
      (
        ascii (digit (b / 16)) _ (digit-lt (b / 16) (omega arith)),
        ascii (digit (b % 16)) _ (digit-lt (b % 16) (omega arith)),
      )
      (encode-IsText bs hs)

unfoldable pub hex_digits : Hex
unfolding encode decode
hex_digits = record {
  encode = encode;
  decode = decode;
  decode-encode = decode-encode;
  length-encode = length-encode;
  encode-IsText = encode-IsText;
}
