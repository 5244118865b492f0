-- ===== src/Dlms/Blocks.antt =====
-- The load profile in dlms.py: requests for a range of dates and for the next block, blocks of a
-- response, and the rows of the buffer.
pub mod RoundTrip
pub mod Rows
use rise_sun.Common.{
  ℕ, zero, suc, ◌+◌, ◌*◌, ◌/◌, ◌%◌, ◌^◌, ℤ, pos, List, [], ◌∷◌, ◌++◌, Bool, true, false, Option,
  none, some,
}
use rise_sun.Common.{ltb, leb, ◌==◌, ◌&&◌, ◌||◌, not, if◌then◌else◌, length, take, drop}
use rise_sun.Errors.{Result, ok, err, ◌>>=◌, ◌>>◌, guard, fail, plain, gateway_error, out_of_fuel}
use rise_sun.Bytes.{slice, byte_at, byte, to_bytes_big, from_bytes_big}
use rise_sun.DataTypes.Date.{DateTime}
use rise_sun.DataTypes.Encode.{
  encode_structure, encode_array, encode_long_unsigned, encode_octet_string, encode_integer,
  encode_date_time,
}
use rise_sun.Dlms.Ber.{encode_ber_length, decode_ber_length}
use rise_sun.Dlms.Attribute.{Target, descriptor, expect}

-- A column of the buffer: its class, OBIS code, attribute and data index.
pub record Column : Type 0 where
  pub class_id : ℕ
  pub obis : List ℕ
  pub attribute_index : ℤ
  pub data_index : ℕ

unfoldable pub encode_column : Column → Result (List ℕ)
encode_column c = do
  class_id ← encode_long_unsigned c.class_id
  obis ← encode_octet_string c.obis
  attribute_index ← encode_integer c.attribute_index
  data_index ← encode_long_unsigned c.data_index
  encode_structure (class_id ∷ obis ∷ attribute_index ∷ data_index ∷ [])

pub encode_columns : List Column → Result (List (List ℕ))
unfolding encode_column
encode_columns [] = ok []
encode_columns (c ∷ columns) = do
  first ← encode_column c
  others ← encode_columns columns
  ok (first ∷ others)

abbrev pub clock : Column
clock = record {
  class_id = 8;
  obis = 0 ∷ 0 ∷ 1 ∷ 0 ∷ 0 ∷ 0xFF ∷ [];
  attribute_index = pos 2;
  data_index = 0;
}

-- The access parameters of a range of dates.
unfoldable pub access_parameters : DateTime → DateTime → List Column → Result (List ℕ)
unfolding encode_columns
access_parameters from_dt to_dt selected_values = do
  restricting_object ← encode_column clock
  columns ← encode_columns selected_values
  selected_values_encoded ← encode_array columns
  encode_structure (
      restricting_object
      ∷ encode_date_time from_dt
      ∷ encode_date_time to_dt
      ∷ selected_values_encoded
      ∷ [])

unfoldable pub build_get_request_range :
    Target → DateTime → DateTime → ℕ → List Column → Result (List ℕ)
unfolding access_parameters
build_get_request_range t from_dt to_dt invoke_id selected_values = do
  about ← descriptor t
  parameters ← access_parameters from_dt to_dt selected_values
  invoke ← byte invoke_id
  ok (0xC0 ∷ 0x01 ∷ (invoke ++ (about ++ (0x01 ∷ 0x01 ∷ parameters))))

unfoldable pub build_get_request_next : ℕ → ℕ → Result (List ℕ)
build_get_request_next block_number invoke_id = do
  invoke ← byte invoke_id
  number ← to_bytes_big 4 block_number
  ok (0xC0 ∷ 0x02 ∷ (invoke ++ number))

pub record DatablockResult : Type 0 where
  pub last_block : Bool
  pub block_number : ℕ
  pub raw_data : List ℕ

unfoldable pub build_get_response_datablock : ℕ → DatablockResult → Result (List ℕ)
build_get_response_datablock invoke_id b = do
  invoke ← byte invoke_id
  number ← to_bytes_big 4 b.block_number
  size ← encode_ber_length (length b.raw_data)
  let last = if b.last_block then 1 else 0
  ok (0xC4 ∷ 0x02 ∷ (invoke ++ (last ∷ (number ++ (0x00 ∷ (size ++ b.raw_data))))))

-- The choice 1 is a data-access error; any other one is read as data.
unfoldable pub parse_get_response_datablock : List ℕ → Result DatablockResult
parse_get_response_datablock raw = do
  expect 9 0xC4 0x02 raw
  last ← byte_at raw 3
  let block_number = from_bytes_big (slice 4 8 raw)
  result_choice ← byte_at raw 8
  guard (not (result_choice == 0x01)) (plain gateway_error)
  (size, data_start) ← decode_ber_length raw 9
  ok (record {
    last_block = not (last == 0);
    block_number = block_number;
    raw_data = slice data_start (data_start + size) raw;
  })

-- `buf.find(b"\xa0\xa0", start)`, as the positions of all markers, overlapping ones too.
abbrev pub starts_with_marker : List ℕ → Bool
starts_with_marker (a ∷ b ∷ bs) = a == 0xA0 && b == 0xA0
starts_with_marker _ = false

pub markers_from : ℕ → List ℕ → List ℕ
markers_from at [] = []
markers_from at (b ∷ bs) =
    let more = markers_from (suc at) bs in if starts_with_marker (b ∷ bs) then at ∷ more else more

-- The texts between neighbouring markers, and the text from the last one on.
pub rows_between : List ℕ → ℕ → List ℕ → List (List ℕ) × List ℕ
rows_between buf first [] = ([], drop first buf)
rows_between buf first (second ∷ others) =
    let (rows, remainder) = rows_between buf second others in
    (slice first second buf ∷ rows, remainder)

abbrev pub split_at : List ℕ → List ℕ → List (List ℕ) × List ℕ
split_at buf [] = ([], buf)
split_at buf (only ∷ []) = ([], buf)
split_at buf (first ∷ second ∷ others) = rows_between buf first (second ∷ others)

unfoldable pub split_load_profile_rows : List ℕ → List (List ℕ) × List ℕ
unfolding markers_from rows_between
split_load_profile_rows buf = split_at buf (markers_from 0 buf)
