-- ===== src/Hdlc/Crc/Bounds.antt =====
-- The checksum of bytes fits 16 bits, so it is always written as two bytes.
use rise_sun.Common.{ℕ, zero, suc, ◌/◌, ◌^◌, ◌<◌, List, [], ◌∷◌, bit_xor, arith}
use rise_sun.Common.Bits.{bit_xor-lt}
use rise_sun.Bytes.{IsBytes}
use rise_sun.Hdlc.Crc.{crc_round, crc_rounds, crc_bytes, crc16_x25}

pub crc_round-lt : (c : ℕ) → c < 2 ^ 16 → crc_round c < 2 ^ 16
unfolding crc_round
crc_round-lt c h = ground (arith, bit_xor-lt 16 (c / 2) 0x8408)

pub crc_rounds-lt : (n c : ℕ) → c < 2 ^ 16 → crc_rounds n c < 2 ^ 16
unfolding crc_rounds
crc_rounds-lt zero c h = h
crc_rounds-lt (suc n) c h = crc_rounds-lt n (crc_round c) (crc_round-lt c h)

pub crc_bytes-lt : (c : ℕ) (bs : List ℕ) → c < 2 ^ 16 → IsBytes bs → crc_bytes c bs < 2 ^ 16
unfolding crc_bytes
crc_bytes-lt c [] h k = h
crc_bytes-lt c (b ∷ bs) h k =
    crc_bytes-lt (crc_rounds 8 (bit_xor c b)) bs
      (crc_rounds-lt 8 (bit_xor c b) (bit_xor-lt 16 c b h (omega arith))) k.1

pub crc16_x25-lt : (bs : List ℕ) → IsBytes bs → crc16_x25 bs < 2 ^ 16
unfolding crc16_x25
crc16_x25-lt bs h =
    bit_xor-lt 16 (crc_bytes 0xFFFF bs) 0xFFFF (crc_bytes-lt 0xFFFF bs (omega arith) h)
      (omega arith)
