-- ===== src/Lan/Tests.antt =====
-- A join code written and read.
use psychic_fiesta.Prelude.{◌≡◌, arith, length}
use psychic_fiesta.Packet.Text.{IsText}
use psychic_fiesta.Packet.Wire.{Bytes}
use psychic_fiesta.Lan.{ok, hex_encode_ip, hex_decode_ip}
use psychic_fiesta.Lan.JoinCode.{v4_addr, hex_decode_ip-encode}
use psychic_fiesta.Lan.Digits.{hex_digits}

-- 192.168.1.10, port 6002.
hex_decode_ip-encode_example :
    (code : Bytes) × (hex_encode_ip hex_digits (v4_addr 3232235786 6002) ≡ ok code)
    × (hex_decode_ip hex_digits code ≡ ok (v4_addr 3232235786 6002))
    × (length code ≡ 12)
    × IsText code
hex_decode_ip-encode_example =
    hex_decode_ip-encode hex_digits 3232235786 6002 (omega arith) (omega arith)
