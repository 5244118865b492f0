-- ===== src/Hdlc/Crc.antt =====
-- `crc16_x25` of hdlc.py, the checksum of the fields HCS and FCS.
pub mod Bounds
pub mod Detect
use rise_sun.Common.{ℕ, zero, suc, ◌/◌, List, [], ◌∷◌, bit_and, bit_xor, ◌==◌, if◌then◌else◌}

-- One turn of the inner loop: `crc >> 1`, with the polynomial when the lowest bit is set.
pub crc_round : ℕ → ℕ
crc_round crc = if bit_and crc 1 == 0 then crc / 2 else bit_xor (crc / 2) 0x8408

-- `for _ in range(n)`.
pub crc_rounds : ℕ → ℕ → ℕ
unfolding crc_round
crc_rounds zero crc = crc
crc_rounds (suc n) crc = crc_rounds n (crc_round crc)

-- `for byte in data`.
pub crc_bytes : ℕ → List ℕ → ℕ
unfolding crc_rounds
crc_bytes crc [] = crc
crc_bytes crc (b ∷ bs) = crc_bytes (crc_rounds 8 (bit_xor crc b)) bs

unfoldable pub crc16_x25 : List ℕ → ℕ
unfolding crc_bytes
crc16_x25 bytes = bit_xor (crc_bytes 0xFFFF bytes) 0xFFFF
