-- ===== src/Hdlc/Crc/Detect.antt =====
-- The checksum tells two texts of bytes apart that differ in one byte.
use rise_sun.Common.{ℕ, zero, suc, ◌/◌, ◌^◌, ◌<◌, ◌≡◌, ◌≢◌, refl, ap, sym, ◌∙◌, List, [], ◌∷◌}
use rise_sun.Common.{◌++◌, bit_xor, arith}
use rise_sun.Common.Bits.{bit_xor-lt, bit_xor_top, bit_xor_cancel, bit_xor_comm, bit_and_one}
use rise_sun.Bytes.{IsByte, IsBytes}
use rise_sun.Hdlc.Crc.{crc_round, crc_rounds, crc_bytes, crc16_x25}
use rise_sun.Hdlc.Crc.Bounds.{crc_round-lt, crc_rounds-lt, crc_bytes-lt}

-- What is mixed in on the right can be taken out again.
pub bit_xor_right : (c a b : ℕ) → bit_xor a c ≡ bit_xor b c → a ≡ b
bit_xor_right c a b e =
    sym (bit_xor_cancel a c) ∙ ap (λ (t : ℕ). bit_xor t c) e ∙ bit_xor_cancel b c

pub bit_xor_left : (c a b : ℕ) → bit_xor c a ≡ bit_xor c b → a ≡ b
bit_xor_left c a b e = bit_xor_right c a b (bit_xor_comm a c ∙ e ∙ bit_xor_comm c b)

-- The top bit of the outcome tells which way the round went.
crc_round-injective : (a b : ℕ) → a < 2 ^ 16 → b < 2 ^ 16 → crc_round a ≡ crc_round b → a ≡ b
unfolding crc_round
crc_round-injective a b p q e = ground (
  arith,
  bit_and_one a,
  bit_and_one b,
  bit_xor_top 15 (a / 2) 0x8408,
  bit_xor_top 15 (b / 2) 0x8408,
  bit_xor_right 0x8408 (a / 2) (b / 2),
)

crc_rounds-injective :
    (n a b : ℕ) → a < 2 ^ 16 → b < 2 ^ 16 → crc_rounds n a ≡ crc_rounds n b → a ≡ b
unfolding crc_rounds
crc_rounds-injective zero a b p q e = e
crc_rounds-injective (suc n) a b p q e =
    crc_round-injective a b p q
      (crc_rounds-injective n (crc_round a) (crc_round b) (crc_round-lt a p) (crc_round-lt b q) e)

-- From different states the same bytes lead to different states.
crc_bytes-injective :
    (a b : ℕ) (bs : List ℕ)
    → a < 2 ^ 16
    → b < 2 ^ 16
    → IsBytes bs
    → crc_bytes a bs ≡ crc_bytes b bs
    → a ≡ b
unfolding crc_bytes
crc_bytes-injective a b [] p q h e = e
crc_bytes-injective a b (x ∷ bs) p q h e = bit_xor_right x a b (
    crc_rounds-injective 8 (bit_xor a x) (bit_xor b x) pa pb (
      crc_bytes-injective (crc_rounds 8 (bit_xor a x)) (crc_rounds 8 (bit_xor b x)) bs
        (crc_rounds-lt 8 (bit_xor a x) pa) (crc_rounds-lt 8 (bit_xor b x) pb) h.1 e))
  where
    pa : bit_xor a x < 2 ^ 16
    pa = bit_xor-lt 16 a x p (omega arith)

    pb : bit_xor b x < 2 ^ 16
    pb = bit_xor-lt 16 b x q (omega arith)

crc_bytes_byte :
    (c x y : ℕ) (post : List ℕ)
    → c < 2 ^ 16
    → IsByte x
    → IsByte y
    → IsBytes post
    → crc_bytes c (x ∷ post) ≡ crc_bytes c (y ∷ post)
    → x ≡ y
unfolding crc_bytes
crc_bytes_byte c x y post p hx hy h e = bit_xor_left c x y (
    crc_rounds-injective 8 (bit_xor c x) (bit_xor c y) px py (
      crc_bytes-injective (crc_rounds 8 (bit_xor c x)) (crc_rounds 8 (bit_xor c y)) post
        (crc_rounds-lt 8 (bit_xor c x) px) (crc_rounds-lt 8 (bit_xor c y) py) h e))
  where
    px : bit_xor c x < 2 ^ 16
    px = bit_xor-lt 16 c x p (omega arith)

    py : bit_xor c y < 2 ^ 16
    py = bit_xor-lt 16 c y p (omega arith)

crc_bytes-append :
    (c : ℕ) (pre bs : List ℕ) → crc_bytes c (pre ++ bs) ≡ crc_bytes (crc_bytes c pre) bs
unfolding crc_bytes
crc_bytes-append c [] bs = refl
crc_bytes-append c (x ∷ pre) bs = crc_bytes-append (crc_rounds 8 (bit_xor c x)) pre bs

pub crc16_x25-injective_byte :
    (pre : List ℕ) (x y : ℕ) (post : List ℕ)
    → IsBytes pre
    → IsByte x
    → IsByte y
    → IsBytes post
    → crc16_x25 (pre ++ x ∷ post) ≡ crc16_x25 (pre ++ y ∷ post)
    → x ≡ y
unfolding crc16_x25
crc16_x25-injective_byte pre x y post hp hx hy h e =
    crc_bytes_byte (crc_bytes 0xFFFF pre) x y post (crc_bytes-lt 0xFFFF pre (omega arith) hp) hx hy
      h
      (rw (crc_bytes-append 0xFFFF pre (x ∷ post), crc_bytes-append 0xFFFF pre (y ∷ post)) at
        (bit_xor_right 0xFFFF (crc_bytes 0xFFFF (pre ++ x ∷ post))
          (crc_bytes 0xFFFF (pre ++ y ∷ post)) e))

-- Two texts of bytes that differ in one byte, at any position, have different checksums.
pub crc16_x25_detects :
    (pre : List ℕ) (x y : ℕ) (post : List ℕ)
    → IsBytes pre
    → IsByte x
    → IsByte y
    → IsBytes post
    → x ≢ y
    → crc16_x25 (pre ++ x ∷ post) ≢ crc16_x25 (pre ++ y ∷ post)
crc16_x25_detects pre x y post hp hx hy h ne e =
    ne (crc16_x25-injective_byte pre x y post hp hx hy h e)
