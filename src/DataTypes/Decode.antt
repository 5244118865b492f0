-- ===== src/DataTypes/Decode.antt =====
-- `decode_value` of datatypes.py. It reads `data` from `offset` on and looks at nothing before
-- that, so the model works on the bytes from there.
use rise_sun.Common.{
  ℕ, zero, suc, ◌+◌, List, [], ◌∷◌, Bool, true, false, leb, ◌==◌, ◌||◌, if◌then◌else◌,
}
use rise_sun.Common.{length, take, drop, ℤ, pos}
use rise_sun.Errors.{
  Result, ok, err, ◌>>=◌, ◌>>◌, guard, dlms_data_error, unicode_error, out_of_fuel,
}
use rise_sun.Bytes.{slice, byte_at, from_bytes_big, from_bytes_signed}
use rise_sun.DataTypes.Date.{DateTime, decode_cosem_date_time}
use rise_sun.DataTypes.Encode.{is_ascii}

-- The Python objects that come out: `None`, `int`, `bytes`, `str`, `list` and `datetime`.
mutual
  pub data Value : Type 0 where
    none_value : Value
    int_value : ℤ → Value
    bytes_value : List ℕ → Value
    str_value : List ℕ → Value
    list_value : Values → Value
    date_value : DateTime → Value

  pub data Values : Type 0 where
    no_values : Values
    more_values : Value → Values → Values

-- `_require(data, pos, length)`, with the bytes from `pos` on.
abbrev pub require : List ℕ → ℕ → Result (Unit {0})
require rest n = guard (leb n (length rest)) dlms_data_error

-- A number of `n` bytes after the tag.
abbrev pub fixed : ℕ → (List ℕ → ℤ) → List ℕ → Result (Value × ℕ)
fixed n convert rest = do require rest n; ok (int_value (convert (take n rest)), n + 1)

abbrev pub unsigned_value : List ℕ → ℤ
unsigned_value raw = pos (from_bytes_big raw)

-- `raw.decode("ascii")` for a visible string, the bytes for an octet string.
abbrev pub text_value : Bool → List ℕ → Result Value
text_value true raw = if is_ascii raw then ok (str_value raw) else err unicode_error
text_value false raw = ok (bytes_value raw)

abbrev pub decode_text : Bool → List ℕ → Result (Value × ℕ)
decode_text visible rest = do
  require rest 1
  size ← byte_at rest 0
  require rest (1 + size)
  value ← text_value visible (slice 1 (1 + size) rest)
  ok (value, 2 + size)

abbrev pub decode_date : List ℕ → Result (Value × ℕ)
decode_date rest = do
  require rest 12
  date ← decode_cosem_date_time (take 12 rest)
  ok (date_value date, 13)

-- `for _ in range(count)`, from position `pos` of `data`.
unfoldable pub decode_items : (List ℕ → Result (Value × ℕ)) → ℕ → List ℕ → ℕ → Result (Values × ℕ)
decode_items decode_next zero raw at = ok (no_values, at)
decode_items decode_next (suc count) raw at = do
  (item, consumed) ← decode_next (drop at raw)
  (items, end) ← decode_items decode_next count raw (at + consumed)
  ok (more_values item items, end)

abbrev pub decode_list : (List ℕ → Result (Value × ℕ)) → List ℕ → Result (Value × ℕ)
decode_list decode_next rest = do
  require rest 1
  count ← byte_at rest 0
  (items, consumed) ← decode_items decode_next count (drop 1 rest) 0
  ok (list_value items, 2 + consumed)

-- The branches on the tag, over the bytes behind it; the first argument is the recursive call.
unfoldable pub decode_tag : (List ℕ → Result (Value × ℕ)) → ℕ → List ℕ → Result (Value × ℕ)
unfolding decode_items
decode_tag decode_next tag rest =
    if tag == 0x00
    then ok (none_value, 1)
    else if tag == 0x06
    then fixed 4 unsigned_value rest
    else if tag == 0x05
    then fixed 4 from_bytes_signed rest
    else if tag == 0x15
    then fixed 8 unsigned_value rest
    else if tag == 0x14
    then fixed 8 from_bytes_signed rest
    else if tag == 0x12
    then fixed 2 unsigned_value rest
    else if tag == 0x10
    then fixed 2 from_bytes_signed rest
    else if tag == 0x11 || tag == 0x16
    then fixed 1 unsigned_value rest
    else if tag == 0x0F
    then fixed 1 from_bytes_signed rest
    else if tag == 0x09
    then decode_text false rest
    else if tag == 0x0A
    then decode_text true rest
    else if tag == 0x01 || tag == 0x02
    then decode_list decode_next rest
    else if tag == 0x19
    then decode_date rest
    else err dlms_data_error

-- Fuel bounds the depth of the nesting.
unfoldable pub decode_from : ℕ → List ℕ → Result (Value × ℕ)
unfolding decode_tag
decode_from zero rest = err out_of_fuel
decode_from (suc fuel) [] = err dlms_data_error
decode_from (suc fuel) (tag ∷ rest) = decode_tag (decode_from fuel) tag rest

unfoldable pub decode_value : List ℕ → ℕ → Result (Value × ℕ)
unfolding decode_from
decode_value raw offset = decode_from (suc (length raw)) (drop offset raw)
