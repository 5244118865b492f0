-- ===== src/Hdlc/Address/RoundTrip.antt =====
-- Reading an address field back.
use rise_sun.Common.{
  ℕ, zero, suc, ◌+◌, ◌*◌, ◌/◌, ◌%◌, ◌^◌, ◌≤◌, ◌<◌, ◌≡◌, refl, List, ◌∷◌, ◌++◌, arith,
}
use rise_sun.Common.{
  bit_and, bit_or, length, if◌then◌else◌, ◌==◌, ltb, ◌⊎◌, inl, inr, ap, ◌∙◌, Bool-cases,
  drop-append,
}
use mathlib.Core.Path.{subst}
use rise_sun.Common.Bits.{bit_and_mask, bit_and_one, bit_or_field}
use rise_sun.Errors.{ok}
use rise_sun.Bytes.{IsByte, IsBytes}
use rise_sun.Hdlc.Address.{
  address_bytes, encode_hdlc_address, decode_address_loop, decode_hdlc_address, join_address,
}

group_last : (v : ℕ) → bit_or (bit_and v 0x7F * 2) 1 ≡ v % 128 * 2 + 1
group_last v = ground (arith, bit_and_mask 7 v, bit_or_field 1 (v % 128) 1)

group_inner : (v : ℕ) → bit_or (bit_and v 0x7F * 2) 0 ≡ v % 128 * 2
group_inner v = ground (arith, bit_and_mask 7 v, bit_or_field 1 (v % 128) 0)

-- One turn of the loop, on a last and on an inner byte.
read_last :
    (v value len : ℕ) (rest : List ℕ)
    → len < 4
    → decode_address_loop (bit_or (bit_and v 0x7F * 2) 1 ∷ rest) value len
      ≡ ok (value * 128 + v % 128, len + 1)
unfolding decode_address_loop
read_last v value len rest h =
    ground (arith, group_last v, bit_and_one (v % 128 * 2 + 1), bit_or_field 7 value (v % 128))

read_inner :
    (v value len : ℕ) (rest : List ℕ)
    → len < 4
    → decode_address_loop (bit_or (bit_and v 0x7F * 2) 0 ∷ rest) value len
      ≡ decode_address_loop rest (value * 128 + v % 128) (len + 1)
unfolding decode_address_loop
read_inner v value len rest h =
    ground (arith, group_inner v, bit_and_one (v % 128 * 2), bit_or_field 7 value (v % 128))

read_one :
    (v : ℕ) (rest : List ℕ)
    → v < 2 ^ 7
    → decode_address_loop (address_bytes 1 v ++ rest) 0 0 ≡ ok (v, 1)
unfolding address_bytes
read_one v rest h = ground (arith, read_last (v / 1) 0 0 rest)

read_two :
    (v : ℕ) (rest : List ℕ)
    → v < 2 ^ 14
    → decode_address_loop (address_bytes 2 v ++ rest) 0 0 ≡ ok (v, 2)
unfolding address_bytes
read_two v rest h = ground (
  arith,
  read_inner (v / 2 ^ 7) 0 0 (bit_or (bit_and (v / 1) 0x7F * 2) 1 ∷ rest),
  read_last (v / 1) (v / 2 ^ 7 % 128) 1 rest,
)

read_four :
    (v : ℕ) (rest : List ℕ)
    → v < 2 ^ 28
    → decode_address_loop (address_bytes 4 v ++ rest) 0 0 ≡ ok (v, 4)
unfolding address_bytes
read_four v rest h =
    read_inner (v / 2 ^ 21) 0 0 _ (omega arith)
    ∙ read_inner (v / 2 ^ 14) _ 1 _ (omega arith)
    ∙ read_inner (v / 2 ^ 7) _ 2 _ (omega arith)
    ∙ read_last (v / 1) _ 3 rest (omega arith)
    ∙ ap (λ (t : ℕ). ok (t, 4)) (omega arith)

group-IsByte : (v k : ℕ) → IsByte (bit_or (bit_and v 0x7F * 2) (if k == 0 then 1 else 0))
group-IsByte v k = ground (arith, group_last v, group_inner v)

address_bytes-IsBytes : (k v : ℕ) → IsBytes (address_bytes k v)
unfolding address_bytes
address_bytes-IsBytes zero v = tt
address_bytes-IsBytes (suc k) v = (group-IsByte (v / 2 ^ (7 * k)) k, address_bytes-IsBytes k v)

length-address_bytes : (k v : ℕ) → length (address_bytes k v) ≡ k
unfolding address_bytes
length-address_bytes zero v = refl
length-address_bytes (suc k) v = omega (arith, length-address_bytes k v)

-- What an encoded address must be for the reader of frames.
pub record Field (v : ℕ) (bs : List ℕ) : Type 0 where
  pub reads : (rest : List ℕ) → decode_address_loop (bs ++ rest) 0 0 ≡ ok (v, length bs)
  pub bytes : IsBytes bs
  pub short : length bs ≤ 4
  pub nonempty : 1 ≤ length bs

Field-of :
    (k v : ℕ)
    → 1 ≤ k
    → k ≤ 4
    → ((rest : List ℕ) → decode_address_loop (address_bytes k v ++ rest) 0 0 ≡ ok (v, k))
    → Field v (address_bytes k v)
Field-of k v lo hi h = record {
  reads = λ rest. rw (length-address_bytes k v) (h rest);
  bytes = address_bytes-IsBytes k v;
  short = omega (arith, length-address_bytes k v);
  nonempty = omega (arith, length-address_bytes k v);
}

encode_cases :
    (v : ℕ) (bs : List ℕ)
    → encode_hdlc_address v ≡ ok bs
    → ((v < 2 ^ 7) × (address_bytes 1 v ≡ bs))
      ⊎ (((v < 2 ^ 14) × (address_bytes 2 v ≡ bs)) ⊎ ((v < 2 ^ 28) × (address_bytes 4 v ≡ bs)))
unfolding encode_hdlc_address
encode_cases v bs e = ground arith

-- Whatever is encoded is a field that reads back as the address and leaves what follows it.
pub encode_hdlc_address-Field : (v : ℕ) (bs : List ℕ) → encode_hdlc_address v ≡ ok bs → Field v bs
encode_hdlc_address-Field v bs e = elim (encode_cases v bs e) [
  | inl (h, p) ↦
      subst (Field v) p (Field-of 1 v (omega arith) (omega arith) λ rest. read_one v rest h)
  | inr (inl (h, p)) ↦
      subst (Field v) p (Field-of 2 v (omega arith) (omega arith) λ rest. read_two v rest h)
  | inr (inr (h, p)) ↦
      subst (Field v) p (Field-of 4 v (omega arith) (omega arith) λ rest. read_four v rest h)
]

pub encode_total : (v : ℕ) → v < 2 ^ 28 → (bs : List ℕ) × (encode_hdlc_address v ≡ ok bs)
unfolding encode_hdlc_address
encode_total v h = elim (Bool-cases (ltb v (2 ^ 7))) [
  | inl one ↦ (address_bytes 1 v, rw one)
  | inr wide ↦ elim (Bool-cases (ltb v (2 ^ 14))) [
    | inl two ↦ (address_bytes 2 v, rw (wide, two))
    | inr wider ↦ (address_bytes 4 v, ground arith)
  ]
]

-- An address below 2 ^ 28 has a field of one to four bytes, and wherever that field stands in a
-- body the decoder returns the address and the length of the field.
pub decode_hdlc_address-encode_hdlc_address :
    (v : ℕ) (pre rest : List ℕ)
    → v < 2 ^ 28
    → (bs : List ℕ) × (encode_hdlc_address v ≡ ok bs)
      × (decode_hdlc_address (pre ++ (bs ++ rest)) (length pre) ≡ ok (v, length bs))
      × (1 ≤ length bs)
      × (length bs ≤ 4)
unfolding decode_hdlc_address
decode_hdlc_address-encode_hdlc_address v pre rest h =
    let (bs, e) = encode_total v h in
    let field = encode_hdlc_address-Field v bs e in
    (bs, e, rw (drop-append pre (bs ++ rest)) (field.reads rest), field.nonempty, field.short)

-- The address of a meter: two components of 14 bits, which both come back from it.
pub join_address_lem :
    (upper lower a : ℕ)
    → join_address upper lower ≡ ok a
    → (a / 2 ^ 14 ≡ upper) × (a % 2 ^ 14 ≡ lower) × (a < 2 ^ 28)
unfolding join_address
join_address_lem upper lower a e = ground (arith, bit_or_field 14 upper lower)
