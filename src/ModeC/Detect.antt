-- ===== src/ModeC/Detect.antt =====
-- A readout with one damaged byte is refused.
use rise_sun.Common.{ℕ, ◌≡◌, ◌≢◌, sym, ◌∙◌, List, [], ◌∷◌, ◌++◌, arith, bit_xor}
use rise_sun.Errors.{ok}
use rise_sun.Hdlc.Crc.Detect.{bit_xor_left, bit_xor_right}
use rise_sun.ModeC.{bcc_from, compute_bcc, readout_text}

bcc_from-injective : (a b : ℕ) (bs : List ℕ) → bcc_from a bs ≡ bcc_from b bs → a ≡ b
unfolding bcc_from
bcc_from-injective a b [] e = e
bcc_from-injective a b (x ∷ bs) e =
    bit_xor_right x a b (bcc_from-injective (bit_xor a x) (bit_xor b x) bs e)

bcc_from-byte :
    (a : ℕ) (pre : List ℕ) (x y : ℕ) (post : List ℕ)
    → bcc_from a (pre ++ x ∷ post) ≡ bcc_from a (pre ++ y ∷ post)
    → x ≡ y
unfolding bcc_from
bcc_from-byte a [] x y post e =
    bit_xor_left a x y (bcc_from-injective (bit_xor a x) (bit_xor a y) post e)
bcc_from-byte a (p ∷ pre) x y post e = bcc_from-byte (bit_xor a p) pre x y post e

accepted :
    (stx body : List ℕ) (bcc : ℕ) (rest text : List ℕ)
    → readout_text stx body (bcc ∷ rest) ≡ ok text
    → bcc ≡ compute_bcc body
unfolding readout_text
accepted stx body bcc rest text e = ground arith

-- If a data readout passes the checks, then one that differs from it in one byte of its body, with
-- the same check byte, does not.
pub readout_one_byte :
    (stx pre : List ℕ) (x y : ℕ) (post : List ℕ) (bcc : ℕ) (rest text text' : List ℕ)
    → x ≢ y
    → readout_text stx (pre ++ x ∷ post) (bcc ∷ rest) ≡ ok text
    → readout_text stx (pre ++ y ∷ post) (bcc ∷ rest) ≢ ok text'
unfolding compute_bcc
readout_one_byte stx pre x y post bcc rest text text' ne e e' = ne (
    bcc_from-byte 0 pre x y post (
      sym (accepted stx (pre ++ x ∷ post) bcc rest text e)
      ∙ accepted stx (pre ++ y ∷ post) bcc rest text' e'))
