-- ===== src/DataTypes/RoundTrip.antt =====
-- What the encoders write, `decode_value` reads back, whatever stands behind it.
use mathlib.Core.Path.{subst}
use rise_sun.Common.{
  ℕ, zero, suc, ◌+◌, ◌/◌, ◌^◌, ◌≤◌, ◌<◌, ◌≡◌, refl, ap, ◌∙◌, List, [], ◌∷◌, ◌++◌, arith,
}
use rise_sun.Common.{
  length, take, false, le→leb, append_assoc, take-append, drop-append, true, ℤ, pos, Bool,
}
use rise_sun.Errors.{Result, ok, ◌>>=◌}
use rise_sun.Bytes.{
  length-append_bytes, big_endian, length-big_endian, from_bytes_big-big_endian, to_bytes_big,
  to_bytes_signed, from_bytes_signed, from_bytes_signed-complement, complement, lengths, slice_of,
  magnitude,
}
use rise_sun.DataTypes.Date.{
  DateTime, is_valid, encode_cosem_date_time, decode_cosem_date_time, datetime,
}
use rise_sun.DataTypes.Encode.{
  encode_null, encode_double_long_unsigned, encode_double_long, encode_long_unsigned, encode_long,
  encode_unsigned, encode_integer, encode_octet_string, encode_visible_string, is_ascii, join,
  encode_structure, encode_array, encode_date_time,
}
use rise_sun.DataTypes.Decode.{
  Value, Values, none_value, int_value, bytes_value, str_value, list_value, date_value, no_values,
  more_values, fixed, unsigned_value, text_value, decode_text, decode_list, decode_items,
  decode_tag, decode_from, decode_value,
}

-- What the encoders can build: scalars, texts, dates, and lists of what they built before.
mutual
  pub data Encoded : List ℕ → Value → Type 0 where
    from_null : Encoded encode_null none_value
    from_double_long_unsigned :
        (v : ℕ) (bs : List ℕ)
        → encode_double_long_unsigned v ≡ ok bs
        → Encoded bs (int_value (pos v))
    from_double_long :
        (v : ℤ) (bs : List ℕ) → encode_double_long v ≡ ok bs → Encoded bs (int_value v)
    from_long_unsigned :
        (v : ℕ) (bs : List ℕ) → encode_long_unsigned v ≡ ok bs → Encoded bs (int_value (pos v))
    from_long : (v : ℤ) (bs : List ℕ) → encode_long v ≡ ok bs → Encoded bs (int_value v)
    from_unsigned :
        (v : ℕ) (bs : List ℕ) → encode_unsigned v ≡ ok bs → Encoded bs (int_value (pos v))
    from_integer : (v : ℤ) (bs : List ℕ) → encode_integer v ≡ ok bs → Encoded bs (int_value v)
    from_octet_string :
        (v : List ℕ) (bs : List ℕ) → encode_octet_string v ≡ ok bs → Encoded bs (bytes_value v)
    from_visible_string :
        (v : List ℕ) (bs : List ℕ) → encode_visible_string v ≡ ok bs → Encoded bs (str_value v)
    from_date_time :
        (d : DateTime) → is_valid d ≡ true → Encoded (encode_date_time d) (date_value d)
    from_structure :
        (items : List (List ℕ)) (vs : Values) (bs : List ℕ)
        → AllEncoded items vs
        → encode_structure items ≡ ok bs
        → Encoded bs (list_value vs)
    from_array :
        (items : List (List ℕ)) (vs : Values) (bs : List ℕ)
        → AllEncoded items vs
        → encode_array items ≡ ok bs
        → Encoded bs (list_value vs)

  pub data AllEncoded : List (List ℕ) → Values → Type 0 where
    none_more : AllEncoded [] no_values
    one_more :
        (bs : List ℕ) (v : Value) (items : List (List ℕ)) (vs : Values)
        → Encoded bs v
        → AllEncoded items vs
        → AllEncoded (bs ∷ items) (more_values v vs)

-- With fuel for their length at least the bytes decode to the value, and nothing behind them is
-- touched.
abbrev pub Reads : List ℕ → Value → Type 0
Reads bs v =
    (fuel : ℕ) (rest : List ℕ)
    → length bs ≤ fuel
    → decode_from fuel (bs ++ rest) ≡ ok (v, length bs)

-- A tag and what is behind it.
Reads-tag :
    (tag : ℕ) (raw : List ℕ) (v : Value)
    → ((decode_next : List ℕ → Result (Value × ℕ)) (rest : List ℕ)
        → decode_tag decode_next tag (raw ++ rest) ≡ ok (v, suc (length raw)))
    → Reads (tag ∷ raw) v
unfolding decode_from
Reads-tag tag raw v h zero rest p = absurd (omega arith)
Reads-tag tag raw v h (suc fuel) rest p = h (decode_from fuel) rest

fixed_lem :
    (n : ℕ) (convert : List ℕ → ℤ) (v : ℤ) (raw rest : List ℕ)
    → length raw ≡ n
    → convert raw ≡ v
    → fixed n convert (raw ++ rest) ≡ ok (int_value v, suc (length raw))
fixed_lem n convert v raw rest len e =
    simp (le→leb n (length (raw ++ rest)) (omega lengths), taken, e)
      (ap (λ (t : ℕ). ok (int_value v, t)) (omega arith))
  where
    taken : take n (raw ++ rest) ≡ raw
    taken = rw len at (take-append raw rest)

unsigned_lem :
    (n v : ℕ) (rest : List ℕ)
    → v < 256 ^ n
    → fixed n unsigned_value (big_endian n v ++ rest)
      ≡ ok (int_value (pos v), suc (length (big_endian n v)))
unsigned_lem n v rest h =
    fixed_lem n unsigned_value (pos v) (big_endian n v) rest (length-big_endian n v)
      (ap pos (from_bytes_big-big_endian n v h))

signed_lem :
    (n : ℕ) (v : ℤ) (rest : List ℕ)
    → magnitude v < 256 ^ suc n / 2
    → fixed (suc n) from_bytes_signed (big_endian (suc n) (complement (suc n) v) ++ rest)
      ≡ ok (int_value v, suc (length (big_endian (suc n) (complement (suc n) v))))
signed_lem n v rest h =
    fixed_lem (suc n) from_bytes_signed v (big_endian (suc n) (complement (suc n) v)) rest
      (length-big_endian (suc n) (complement (suc n) v)) (from_bytes_signed-complement n v h)

to_bytes_big-ok :
    (n v tag : ℕ) (bs : List ℕ)
    → (to_bytes_big n v >>= λ raw. ok (tag ∷ raw)) ≡ ok bs
    → (v < 256 ^ n) × (tag ∷ big_endian n v ≡ bs)
to_bytes_big-ok n v tag bs e = ground arith

to_bytes_signed-ok :
    (n : ℕ) (v : ℤ) (tag : ℕ) (bs : List ℕ)
    → (to_bytes_signed n v >>= λ raw. ok (tag ∷ raw)) ≡ ok bs
    → (magnitude v < 256 ^ n / 2) × (tag ∷ big_endian n (complement n v) ≡ bs)
to_bytes_signed-ok n v tag bs e = ground arith

unsigned_Reads :
    (n v tag : ℕ) (bs : List ℕ)
    → ((decode_next : List ℕ → Result (Value × ℕ)) (rest : List ℕ)
        → decode_tag decode_next tag rest ≡ fixed n unsigned_value rest)
    → (to_bytes_big n v >>= λ raw. ok (tag ∷ raw)) ≡ ok bs
    → Reads bs (int_value (pos v))
unsigned_Reads n v tag bs h e =
    let (small, shape) = to_bytes_big-ok n v tag bs e in
    subst (λ (t : List ℕ). Reads t (int_value (pos v))) shape
      (Reads-tag tag (big_endian n v) (int_value (pos v))
        λ next rest. h next _ ∙ unsigned_lem n v rest small)

signed_Reads :
    (n : ℕ) (v : ℤ) (tag : ℕ) (bs : List ℕ)
    → ((decode_next : List ℕ → Result (Value × ℕ)) (rest : List ℕ)
        → decode_tag decode_next tag rest ≡ fixed (suc n) from_bytes_signed rest)
    → (to_bytes_signed (suc n) v >>= λ raw. ok (tag ∷ raw)) ≡ ok bs
    → Reads bs (int_value v)
signed_Reads n v tag bs h e =
    let (small, shape) = to_bytes_signed-ok (suc n) v tag bs e in
    subst (λ (t : List ℕ). Reads t (int_value v)) shape
      (Reads-tag tag (big_endian (suc n) (complement (suc n) v)) (int_value v)
        λ next rest. h next _ ∙ signed_lem n v rest small)

text_lem :
    (visible : Bool) (v : List ℕ) (value : Value) (rest : List ℕ)
    → text_value visible v ≡ ok value
    → decode_text visible ((length v ∷ v) ++ rest) ≡ ok (value, suc (length (length v ∷ v)))
text_lem visible v value rest e =
    simp
      (
        le→leb 1 (length ((length v ∷ v) ++ rest)) (omega lengths),
        le→leb (1 + length v) (length ((length v ∷ v) ++ rest))
            (omega (arith, length-append_bytes v rest)),
        slice_of ((length v ∷ v) ++ rest) (length v ∷ []) v rest 1 (1 + length v) refl refl refl,
        e,
      )
      (ap (λ (t : ℕ). ok (value, t)) (omega arith))

octet_Reads : (v bs : List ℕ) → encode_octet_string v ≡ ok bs → Reads bs (bytes_value v)
unfolding encode_octet_string decode_tag
octet_Reads v bs e =
    subst (λ (t : List ℕ). Reads t (bytes_value v)) shape
      (Reads-tag 0x09 (length v ∷ v) (bytes_value v)
        λ next rest. text_lem false v (bytes_value v) rest refl)
  where
    shape : 0x09 ∷ length v ∷ v ≡ bs
    shape = ground arith

visible_Reads : (v bs : List ℕ) → encode_visible_string v ≡ ok bs → Reads bs (str_value v)
unfolding encode_visible_string decode_tag
visible_Reads v bs e =
    let (ascii, shape) = parts in
    subst (λ (t : List ℕ). Reads t (str_value v)) shape
      (Reads-tag 0x0A (length v ∷ v) (str_value v)
        λ next rest. text_lem true v (str_value v) rest (rw ascii))
  where
    parts : (is_ascii v ≡ true) × (0x0A ∷ length v ∷ v ≡ bs)
    parts = ground arith

year_fits : (d : DateTime) → is_valid d ≡ true → d.year < 65536
unfolding is_valid
year_fits d h = ground arith

date_Reads : (d : DateTime) → is_valid d ≡ true → Reads (encode_date_time d) (date_value d)
unfolding encode_date_time encode_cosem_date_time decode_cosem_date_time datetime decode_tag
date_Reads d h = Reads-tag 0x19 (encode_cosem_date_time d) (date_value d) λ next rest. simp (
  le→leb 12 (length (encode_cosem_date_time d ++ rest)) (omega lengths),
  from_bytes_big-big_endian 2 d.year (year_fits d h),
  same,
)
  where
    same :
        is_valid (record {
          year = d.year;
          month = d.month;
          day = d.day;
          hour = d.hour;
          minute = d.minute;
          second = d.second;
        })
        ≡ true
    same = h

list_Reads :
    (tag : ℕ) (items : List (List ℕ)) (vs : Values)
    → ((decode_next : List ℕ → Result (Value × ℕ)) (rest : List ℕ)
        → decode_tag decode_next tag rest ≡ decode_list decode_next rest)
    → ((fuel : ℕ) (pre rest : List ℕ)
        → length (join items) ≤ fuel
        → decode_items (decode_from fuel) (length items) (pre ++ (join items ++ rest)) (length pre)
          ≡ ok (vs, length pre + length (join items)))
    → Reads (tag ∷ length items ∷ join items) (list_value vs)
unfolding decode_from
list_Reads tag items vs h read zero rest p = absurd (omega arith)
list_Reads tag items vs h read (suc fuel) rest p =
    h (decode_from fuel) ((length items ∷ join items) ++ rest)
    ∙ simp
        (
          le→leb 1 (length ((length items ∷ join items) ++ rest)) (omega lengths),
          read fuel [] rest (omega arith),
        )
        (ap (λ (t : ℕ). ok (list_value vs, t)) (omega arith))

structure_shape :
    (items : List (List ℕ)) (bs : List ℕ)
    → encode_structure items ≡ ok bs
    → 0x02 ∷ length items ∷ join items ≡ bs
unfolding encode_structure
structure_shape items bs e = ground arith

array_shape :
    (items : List (List ℕ)) (bs : List ℕ)
    → encode_array items ≡ ok bs
    → 0x01 ∷ length items ∷ join items ≡ bs
unfolding encode_array
array_shape items bs e = ground arith

-- One turn of the loop over the items.
next_item :
    (bs : List ℕ) (v : Value) (items : List (List ℕ)) (vs : Values) (fuel : ℕ) (pre rest : List ℕ)
    → Reads bs v
    → ((pre rest : List ℕ)
        → decode_items (decode_from fuel) (length items) (pre ++ (join items ++ rest)) (length pre)
          ≡ ok (vs, length pre + length (join items)))
    → length bs ≤ fuel
    → decode_items
        (decode_from fuel)
        (suc (length items))
        (pre ++ ((bs ++ join items) ++ rest))
        (length pre)
      ≡ ok (more_values v vs, length pre + length (bs ++ join items))
unfolding decode_items
next_item bs v items vs fuel pre rest read more h =
    simp
      (
        append_assoc bs (join items) rest,
        drop-append pre (bs ++ (join items ++ rest)),
        read fuel (join items ++ rest) h,
        later,
      )
      (ap (λ (t : ℕ). ok (more_values v vs, t)) (omega lengths))
  where
    later :
        decode_items
          (decode_from fuel)
          (length items)
          (pre ++ (bs ++ (join items ++ rest)))
          (length pre + length bs)
        ≡ ok (vs, length pre + length bs + length (join items))
    later =
        rw (append_assoc pre bs (join items ++ rest), length-append_bytes pre bs) at
          (more (pre ++ bs) rest)

mutual
  unfolding decode_tag encode_null encode_double_long_unsigned encode_double_long
      encode_long_unsigned encode_long encode_unsigned encode_integer decode_items

  Encoded-Reads : (bs : List ℕ) (v : Value) → Encoded bs v → Reads bs v
  Encoded-Reads bs v from_null = Reads-tag 0 [] none_value λ next rest. refl
  Encoded-Reads bs v (from_double_long_unsigned n _ e) =
      unsigned_Reads 4 n 6 bs (λ next rest. refl) e
  Encoded-Reads bs v (from_double_long n _ e) = signed_Reads 3 n 5 bs (λ next rest. refl) e
  Encoded-Reads bs v (from_long_unsigned n _ e) = unsigned_Reads 2 n 0x12 bs (λ next rest. refl) e
  Encoded-Reads bs v (from_long n _ e) = signed_Reads 1 n 0x10 bs (λ next rest. refl) e
  Encoded-Reads bs v (from_unsigned n _ e) = unsigned_Reads 1 n 0x11 bs (λ next rest. refl) e
  Encoded-Reads bs v (from_integer n _ e) = signed_Reads 0 n 0x0F bs (λ next rest. refl) e
  Encoded-Reads bs v (from_octet_string t _ e) = octet_Reads t bs e
  Encoded-Reads bs v (from_visible_string t _ e) = visible_Reads t bs e
  Encoded-Reads bs v (from_date_time d h) = date_Reads d h
  Encoded-Reads bs v (from_structure items vs _ all e) =
      subst (λ (t : List ℕ). Reads t (list_value vs)) (structure_shape items bs e)
        (list_Reads 0x02 items vs (λ next rest. refl) (items_Reads items vs all))
  Encoded-Reads bs v (from_array items vs _ all e) =
      subst (λ (t : List ℕ). Reads t (list_value vs)) (array_shape items bs e)
        (list_Reads 0x01 items vs (λ next rest. refl) (items_Reads items vs all))

  items_Reads :
      (items : List (List ℕ)) (vs : Values)
      → AllEncoded items vs
      → (fuel : ℕ) (pre rest : List ℕ) → length (join items) ≤ fuel
      → decode_items (decode_from fuel) (length items) (pre ++ (join items ++ rest)) (length pre)
        ≡ ok (vs, length pre + length (join items))
  items_Reads items vs none_more fuel pre rest h = ap (λ (t : ℕ). ok (no_values, t)) (omega arith)
  items_Reads items vs (one_more bs v items' vs' one all) fuel pre rest h =
      next_item bs v items' vs' fuel pre rest (Encoded-Reads bs v one)
        (λ pre' rest'. items_Reads items' vs' all fuel pre' rest' (omega (lengths, h)))
        (omega (lengths, h))

-- Whatever the encoders build, wherever it stands, `decode_value` reads back at its offset, and
-- says how long it is. A visible string must be ASCII of at most 127 characters, a list may have
-- 255 items, and lists may be nested.
pub decode_value-Encoded :
    (pre bs rest : List ℕ) (v : Value)
    → Encoded bs v
    → decode_value (pre ++ (bs ++ rest)) (length pre) ≡ ok (v, length bs)
unfolding decode_value
decode_value-Encoded pre bs rest v h =
    rw (drop-append pre (bs ++ rest))
      (Encoded-Reads bs v h (suc (length (pre ++ (bs ++ rest)))) rest (omega lengths))
