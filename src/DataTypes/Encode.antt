-- ===== src/DataTypes/Encode.antt =====
-- The encoders of datatypes.py.
use rise_sun.Common.{ℕ, List, [], ◌∷◌, ◌++◌, Bool, true, ltb, leb, ◌&&◌, length, ℤ}
use rise_sun.Errors.{Result, ok, ◌>>=◌, ◌>>◌, guard, dlms_data_error, unicode_error}
use rise_sun.Bytes.{to_bytes_big, to_bytes_signed}
use rise_sun.DataTypes.Date.{DateTime, encode_cosem_date_time}

unfoldable pub encode_null : List ℕ
encode_null = 0x00 ∷ []

unfoldable pub encode_double_long_unsigned : ℕ → Result (List ℕ)
encode_double_long_unsigned value = do raw ← to_bytes_big 4 value; ok (0x06 ∷ raw)

unfoldable pub encode_double_long : ℤ → Result (List ℕ)
encode_double_long value = do raw ← to_bytes_signed 4 value; ok (0x05 ∷ raw)

unfoldable pub encode_long_unsigned : ℕ → Result (List ℕ)
encode_long_unsigned value = do raw ← to_bytes_big 2 value; ok (0x12 ∷ raw)

unfoldable pub encode_long : ℤ → Result (List ℕ)
encode_long value = do raw ← to_bytes_signed 2 value; ok (0x10 ∷ raw)

unfoldable pub encode_unsigned : ℕ → Result (List ℕ)
encode_unsigned value = do raw ← to_bytes_big 1 value; ok (0x11 ∷ raw)

unfoldable pub encode_integer : ℤ → Result (List ℕ)
encode_integer value = do raw ← to_bytes_signed 1 value; ok (0x0F ∷ raw)

unfoldable pub encode_octet_string : List ℕ → Result (List ℕ)
encode_octet_string value = do
  guard (leb (length value) 0x7F) dlms_data_error
  ok (0x09 ∷ length value ∷ value)

-- A text is the list of its code points.
abbrev pub is_ascii : List ℕ → Bool
is_ascii [] = true
is_ascii (c ∷ cs) = ltb c 128 && is_ascii cs

unfoldable pub encode_visible_string : List ℕ → Result (List ℕ)
encode_visible_string value = do
  guard (is_ascii value) unicode_error
  guard (leb (length value) 0x7F) dlms_data_error
  ok (0x0A ∷ length value ∷ value)

-- `b"".join(items)`.
abbrev pub join : List (List ℕ) → List ℕ
join [] = []
join (item ∷ items) = item ++ join items

unfoldable pub encode_structure : List (List ℕ) → Result (List ℕ)
encode_structure items = do
  guard (leb (length items) 0xFF) dlms_data_error
  ok (0x02 ∷ length items ∷ join items)

unfoldable pub encode_array : List (List ℕ) → Result (List ℕ)
encode_array items = do
  guard (leb (length items) 0xFF) dlms_data_error
  ok (0x01 ∷ length items ∷ join items)

unfoldable pub encode_date_time : DateTime → List ℕ
encode_date_time d = 0x19 ∷ encode_cosem_date_time d
