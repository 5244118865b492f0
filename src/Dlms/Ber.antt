-- ===== src/Dlms/Ber.antt =====
-- The lengths and the object identifiers of dlms.py, OBIS codes, and the header LLC.
pub mod RoundTrip
use rise_sun.Common.{
  ℕ, zero, suc, ◌+◌, ◌*◌, ◌/◌, ◌%◌, ◌^◌, List, [], ◌∷◌, ◌++◌, bit_and, bit_or, Bool, true, false,
}
use rise_sun.Common.{
  ltb, leb, ◌==◌, ◌&&◌, ◌||◌, not, if◌then◌else◌, length, drop, Option, none, some,
}
use rise_sun.Errors.{Result, ok, err, ◌>>=◌, ◌>>◌, guard, fail, plain, gateway_error, out_of_fuel}
use rise_sun.Bytes.{slice, byte_at, byte, to_bytes_big, from_bytes_big}

abbrev pub llc_command_header : List ℕ
llc_command_header = 0xE6 ∷ 0xE6 ∷ 0x00 ∷ []

abbrev pub llc_response_header : List ℕ
llc_response_header = 0xE6 ∷ 0xE7 ∷ 0x00 ∷ []

unfoldable pub wrap_llc_command : List ℕ → List ℕ
wrap_llc_command raw = llc_command_header ++ raw

unfoldable pub wrap_llc_response : List ℕ → List ℕ
wrap_llc_response raw = llc_response_header ++ raw

-- The three tests on `data[0]`, `data[1]` and `data[2]`.
abbrev is_llc_header : ℕ → ℕ → ℕ → Bool
is_llc_header a b c = a == 0xE6 && ((b == 0xE6 || b == 0xE7) && c == 0x00)

unfoldable pub unwrap_llc : List ℕ → Result (List ℕ)
unwrap_llc (a ∷ b ∷ c ∷ raw) = if is_llc_header a b c then ok raw else fail gateway_error
unwrap_llc _ = fail gateway_error

-- `_encode_ber_length`.
unfoldable pub encode_ber_length : ℕ → Result (List ℕ)
encode_ber_length n =
    if ltb n 0x80
    then ok (n ∷ [])
    else if leb n 0xFF
    then ok (0x81 ∷ n ∷ [])
    else if leb n 0xFFFF
    then (to_bytes_big 2 n >>= λ raw. ok (0x82 ∷ raw))
    else fail gateway_error

-- `_decode_ber_length(data, pos)`: the length, and the position after the field.
unfoldable pub decode_ber_length : List ℕ → ℕ → Result (ℕ × ℕ)
decode_ber_length raw at = do
  first ← byte_at raw at
  let n = bit_and first 0x7F
  let long =
      guard (not (n == 0 || ltb (length raw) (at + 1 + n))) (plain gateway_error)
      >> ok (from_bytes_big (slice (at + 1) (at + 1 + n) raw), at + 1 + n)
  if bit_and first 0x80 == 0 then ok (first, at + 1) else long

-- The loop of `_base128`: groups of seven bits, the highest first. Fuel bounds their number.
pub base128_chunks : ℕ → ℕ → List ℕ → List ℕ
base128_chunks zero n chunks = chunks
base128_chunks (suc fuel) n chunks =
    let more = base128_chunks fuel (n / 2 ^ 7) (bit_and n 0x7F ∷ chunks) in
    if n == 0 then chunks else more

-- All chunks but the last one get the continuation bit.
abbrev mark_first : ℕ → List ℕ → List ℕ
mark_first c [] = c ∷ []
mark_first c (d ∷ chunks) = bit_or c 0x80 ∷ mark_first d chunks

abbrev mark_chunks : List ℕ → List ℕ
mark_chunks [] = []
mark_chunks (c ∷ chunks) = mark_first c chunks

-- Each turn halves the number at least, so `n` turns are enough.
unfoldable pub base128 : ℕ → List ℕ
unfolding base128_chunks
base128 n = if n == 0 then 0 ∷ [] else mark_chunks (base128_chunks n n [])

abbrev pub base128_all : List ℕ → List ℕ
unfolding base128
base128_all [] = []
base128_all (c ∷ components) = base128 c ++ base128_all components

-- `encode_oid`, on the first two components and those after them.
unfoldable pub encode_oid : ℕ → ℕ → List ℕ → Result (List ℕ)
unfolding base128_all
encode_oid a b components = do first ← byte (a * 40 + b); ok (first ++ base128_all components)
