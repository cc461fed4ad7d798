-- ===== src/Packet/Wire.antt =====
-- Bytes, how decoding ends (src/net/net_utils.rs, `PacketError`), big-endian `u16`s, indexing and
-- slicing. A byte is a number below 256.
use psychic_fiesta.Prelude.{ℕ, ◌+◌, ◌-◌, ◌*◌, ◌/◌, ◌%◌, ◌<◌, none, some, List, [], ◌∷◌}
use psychic_fiesta.Prelude.{length, take, drop, get_elem?, leb, if◌then◌else◌}

abbrev pub Bytes : Type 0
Bytes = List ℕ

abbrev pub IsByte : ℕ → Type 0
IsByte b = b < 256

abbrev pub IsU16 : ℕ → Type 0
IsU16 n = n < 65536

-- The texts of `PacketError::DataError`, by what they report.
pub data Reason : Type 0 where
  not_utf8 : Reason
  bad_packet_type bad_error_kind bad_piece_color : ℕ → Reason
  bad_piece_byte : Reason

pub data PacketError : Type 0 where
  invalid_length : ℕ → ℕ → PacketError
  invalid_type : PacketError
  empty : PacketError
  data_error : Reason → PacketError

-- `anyhow::Result`, and a panic in the decoder.
pub data Parsed {ℓ} (A : Type ℓ) : Type ℓ where
  ok : A → Parsed A
  err : PacketError → Parsed A
  panic : Parsed A

infixl 5 ◌>>=◌
abbrev pub ◌>>=◌ {ℓ κ} : {A : Type ℓ} {B : Type κ} → Parsed A → (A → Parsed B) → Parsed B
ok a >>= f = f a
err e >>= f = err e
panic >>= f = panic

-- `packet[i]`.
abbrev pub byte_at : Bytes → ℕ → Parsed ℕ
byte_at bs i = elim (get_elem? bs i) [ none ↦ panic | some b ↦ ok b ]

-- `packet[a..b]` with a ≤ b, and `packet[a..]`.
abbrev pub slice : ℕ → ℕ → Bytes → Parsed Bytes
slice a b bs = if leb b (length bs) then ok (take (b - a) (drop a bs)) else panic

abbrev pub slice_from : ℕ → Bytes → Parsed Bytes
slice_from a bs = if leb a (length bs) then ok (drop a bs) else panic

-- `u16::to_be_bytes`.
abbrev pub to_be_bytes : ℕ → Bytes
to_be_bytes n = (n / 256 % 256) ∷ (n % 256) ∷ []

-- `u16::from_be_bytes(slice.try_into().unwrap())`.
abbrev pub from_be_bytes : Bytes → Parsed ℕ
from_be_bytes (hi ∷ lo ∷ []) = ok (hi * 256 + lo)
from_be_bytes _ = panic
