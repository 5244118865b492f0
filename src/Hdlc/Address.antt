-- ===== src/Hdlc/Address.antt =====
-- The address field of hdlc.py: one, two or four bytes with seven bits of the address each, and
-- a lowest bit that marks the last byte of the field. Addresses are natural numbers here, so the
-- refusal of a negative one has no counterpart.
pub mod RoundTrip
use rise_sun.Common.{ℕ, zero, suc, ◌+◌, ◌*◌, ◌/◌, ◌^◌, List, [], ◌∷◌, drop, bit_and, bit_or}
use rise_sun.Common.{◌==◌, ltb, leb, ◌&&◌, if◌then◌else◌}
use rise_sun.Errors.{Result, ok, err, fail, gateway_error, addressing_error, value_error}

abbrev pub address_lengths : List ℕ
address_lengths = 1 ∷ 2 ∷ 4 ∷ []

-- The last `k` bytes of the field: the byte with `k` bytes after it holds the bits from `7 * k` on.
unfoldable pub address_bytes : ℕ → ℕ → List ℕ
address_bytes zero value = []
address_bytes (suc k) value =
    bit_or (bit_and (value / 2 ^ (7 * k)) 0x7F * 2) (if k == 0 then 1 else 0)
    ∷ address_bytes k value

-- `for num_bytes in _ADDRESS_LENGTHS`.
pub encode_address_in : List ℕ → ℕ → Result (List ℕ)
encode_address_in [] value = err value_error
encode_address_in (n ∷ ns) value =
    if ltb value (2 ^ (7 * n)) then ok (address_bytes n value) else encode_address_in ns value

unfoldable pub encode_hdlc_address : ℕ → Result (List ℕ)
unfolding encode_address_in
encode_hdlc_address value = encode_address_in address_lengths value

-- The loop of `_decode_hdlc_address` over what is left of the body: the value and the length of
-- the field so far.
pub decode_address_loop : List ℕ → ℕ → ℕ → Result (ℕ × ℕ)
decode_address_loop [] value len = fail gateway_error
decode_address_loop (b ∷ bs) value len =
    let value' = bit_or (value * 128) (b / 2) in
    let more = decode_address_loop bs value' (len + 1) in
    if leb 4 len
    then fail gateway_error
    else if bit_and b 1 == 0
    then more
    else ok (value', len + 1)

unfoldable pub decode_hdlc_address : List ℕ → ℕ → Result (ℕ × ℕ)
unfolding decode_address_loop
decode_hdlc_address body offset = decode_address_loop (drop offset body) 0 0

-- The tail of `server_hdlc_address`, after `int(physical_address)` has given `lower`.
unfoldable pub join_address : ℕ → ℕ → Result ℕ
join_address logical_device lower =
    if ltb logical_device (2 ^ 14) && ltb lower (2 ^ 14)
    then ok (bit_or (logical_device * 2 ^ 14) lower)
    else fail addressing_error
