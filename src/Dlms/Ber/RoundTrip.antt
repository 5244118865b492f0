-- ===== src/Dlms/Ber/RoundTrip.antt =====
-- Reading a length back, wherever it stands.
use rise_sun.Common.{ℕ, ◌+◌, ◌/◌, ◌^◌, ◌≤◌, ◌<◌, ◌≡◌, refl, ap, List, [], ◌∷◌, ◌++◌, arith, bit_and}
use rise_sun.Common.{length, append_assoc, le→ltb, inl, inr, ne→==, Bool-cases, ltb, leb, ltb→lt}
use rise_sun.Common.Bits.{bit_and_mask, bit_and_below, bit_and_above}
use rise_sun.Errors.{ok}
use rise_sun.Bytes.{
  length-big_endian, byte_at_of, slice_of, lengths, big_endian, from_bytes_big-big_endian,
}
use rise_sun.Dlms.Ber.{encode_ber_length, decode_ber_length}

-- The bytes read as the length, at any position.
abbrev pub Length : ℕ → List ℕ → Type 0
Length n bs =
    (pre rest : List ℕ)
    → decode_ber_length (pre ++ (bs ++ rest)) (length pre) ≡ ok (n, length pre + length bs)

short_Length : (n : ℕ) → n < 0x80 → Length n (n ∷ [])
unfolding decode_ber_length
short_Length n h pre rest =
    simp (byte_at_of (pre ++ (n ∷ rest)) pre n rest (length pre) refl refl, low)
  where
    low : bit_and n 0x80 ≡ 0
    low = bit_and_below 7 n h

long_Length : (k n : ℕ) → 1 ≤ k → k < 0x80 → n < 256 ^ k → Length n ((0x80 + k) ∷ big_endian k n)
unfolding decode_ber_length
long_Length k n one small h pre rest =
    simp
      (
        byte_at_of whole pre (0x80 + k) (big_endian k n ++ rest) (length pre) refl refl,
        bit_and_above 7 k small,
        seven,
        ne→== k 0 (omega arith),
        le→ltb (length whole) (length pre + 1 + k) (omega (lengths, length-big_endian k n)),
        slice_of whole (pre ++ ((0x80 + k) ∷ [])) (big_endian k n) rest (length pre + 1)
            (length pre + 1 + k) (simp append_assoc) (omega lengths)
            (omega (lengths, length-big_endian k n)),
        from_bytes_big-big_endian k n h,
      )
      (ap (λ (t : ℕ). ok (n, t)) (omega (arith, length-big_endian k n)))
  where
    whole : List ℕ
    whole = pre ++ ((0x80 + k) ∷ (big_endian k n ++ rest))

    seven : bit_and (0x80 + k) 0x7F ≡ k
    seven = omega (arith, bit_and_mask 7 (0x80 + k))

-- A length up to 65535 is encoded, and wherever it stands, decoding it gives the length and the
-- position behind the field.
pub decode_ber_length-encode_ber_length :
    (n : ℕ)
    → n ≤ 0xFFFF
    → (bs : List ℕ) × (encode_ber_length n ≡ ok bs)
      × ((pre rest : List ℕ)
          → decode_ber_length (pre ++ (bs ++ rest)) (length pre) ≡ ok (n, length pre + length bs))
unfolding encode_ber_length
decode_ber_length-encode_ber_length n h = elim (Bool-cases (ltb n 0x80)) [
  | inl short ↦ (n ∷ [], rw short, short_Length n (ltb→lt n 0x80 short))
  | inr long ↦ elim (Bool-cases (leb n 0xFF)) [
    | inl one ↦ (0x81 ∷ n ∷ [], rw (long, one), short_form n (ground arith))
    | inr two ↦ (
      0x82 ∷ big_endian 2 n,
      ground arith,
      long_Length 2 n (omega arith) (omega arith) (omega arith),
    )
  ]
]
  where
    short_form : (n : ℕ) → n < 256 → Length n (0x81 ∷ n ∷ [])
    short_form n h = rw (one_byte n) at (long_Length 1 n (omega arith) (omega arith) (omega arith))
      where
        one_byte : (n : ℕ) → n / 1 ≡ n
        one_byte n = omega arith
