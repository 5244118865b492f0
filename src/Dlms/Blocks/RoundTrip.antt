-- ===== src/Dlms/Blocks/RoundTrip.antt =====
-- Blocks of a response, and the parameters of a range of dates.
use rise_sun.Common.{ℕ, ◌+◌, ◌^◌, ◌≤◌, ◌<◌, ◌≡◌, refl, List, [], ◌∷◌, ◌++◌, arith}
use rise_sun.Common.{
  length, append_assoc, append-nil, le→ltb, lt→ltb, Bool, true, false, not, ◌==◌, if◌then◌else◌,
  pos,
}
use mathlib.Core.Path.{subst}
use rise_sun.Errors.{ok}
use rise_sun.Bytes.{slice_of, lengths, big_endian, from_bytes_big-big_endian}
use rise_sun.DataTypes.Date.{DateTime, is_valid}
use rise_sun.DataTypes.Encode.{
  encode_long_unsigned, encode_octet_string, encode_integer, encode_array,
}
use rise_sun.DataTypes.Decode.{
  Value, Values, int_value, bytes_value, list_value, date_value, no_values, more_values,
  decode_value,
}
use rise_sun.DataTypes.RoundTrip.{
  Encoded, AllEncoded, none_more, one_more, from_structure, from_array, from_long_unsigned,
  from_octet_string, from_integer, from_date_time, decode_value-Encoded,
}
use rise_sun.DataTypes.Totality.{bind-ok}
use rise_sun.Dlms.Ber.RoundTrip.{decode_ber_length-encode_ber_length}
use rise_sun.Dlms.Blocks.{
  Column, encode_column, encode_columns, clock, access_parameters, DatablockResult,
  build_get_response_datablock, parse_get_response_datablock,
}

-- A block of up to 65535 bytes with a number below 2 ^ 32 is built, and parsing it gives back the
-- number, the bytes, and whether it is the last one.
pub parse_get_response_datablock-build :
    (invoke_id : ℕ) (b : DatablockResult)
    → invoke_id < 256
    → b.block_number < 2 ^ 32
    → length b.raw_data ≤ 0xFFFF
    → (raw : List ℕ) × (build_get_response_datablock invoke_id b ≡ ok raw)
      × (parse_get_response_datablock raw ≡ ok b)
unfolding build_get_response_datablock parse_get_response_datablock
parse_get_response_datablock-build invoke_id b hi hn hl =
    let (size, built, read) = decode_ber_length-encode_ber_length (length b.raw_data) hl in
    let before = 0xC4 ∷ 0x02 ∷ invoke_id ∷ last ∷ (big_endian 4 b.block_number ++ (0x00 ∷ [])) in
    (
      before ++ (size ++ b.raw_data),
      simp (lt→ltb invoke_id 256 hi, lt→ltb b.block_number (256 ^ 4) hn, built),
      simp (
        le→ltb (length (before ++ (size ++ b.raw_data))) 9 (omega arith),
        read before b.raw_data,
        from_bytes_big-big_endian 4 b.block_number hn,
        slice_of (before ++ (size ++ b.raw_data)) (before ++ size) b.raw_data [] (9 + length size)
            (9 + length size + length b.raw_data) (simp (append_assoc, append-nil)) (omega lengths)
            (omega lengths),
        last_read b.last_block,
      ),
    )
  where
    last : ℕ
    last = if b.last_block then 1 else 0

    last_read : (c : Bool) → not ((if c then 1 else 0) == 0) ≡ c
    last_read true = refl
    last_read false = refl

-- The value that a column stands for.
abbrev pub column_value : Column → Value
column_value c = list_value (
    more_values (int_value (pos c.class_id)) (
      more_values (bytes_value c.obis) (
        more_values (int_value c.attribute_index)
          (more_values (int_value (pos c.data_index)) no_values))))

abbrev pub column_values : List Column → Values
column_values [] = no_values
column_values (c ∷ columns) = more_values (column_value c) (column_values columns)

column-Encoded : (c : Column) (bs : List ℕ) → encode_column c ≡ ok bs → Encoded bs (column_value c)
unfolding encode_column
column-Encoded c bs e =
    let (b₁, e₁, r₁) = bind-ok (encode_long_unsigned c.class_id) _ bs e in
    let (b₂, e₂, r₂) = bind-ok (encode_octet_string c.obis) _ bs r₁ in
    let (b₃, e₃, r₃) = bind-ok (encode_integer c.attribute_index) _ bs r₂ in
    let (b₄, e₄, r₄) = bind-ok (encode_long_unsigned c.data_index) _ bs r₃ in
    from_structure _ _ bs
      (one_more b₁ _ _ _ (from_long_unsigned c.class_id b₁ e₁) (
        one_more b₂ _ _ _ (from_octet_string c.obis b₂ e₂) (
          one_more b₃ _ _ _ (from_integer c.attribute_index b₃ e₃)
            (one_more b₄ _ _ _ (from_long_unsigned c.data_index b₄ e₄) none_more))))
      r₄

columns-Encoded :
    (columns : List Column) (items : List (List ℕ))
    → encode_columns columns ≡ ok items
    → AllEncoded items (column_values columns)
unfolding encode_columns
columns-Encoded [] items e =
    subst (λ (t : List (List ℕ)). AllEncoded t no_values) (ground arith) none_more
columns-Encoded (c ∷ columns) items e =
    let (first, e₁, r₁) = bind-ok (encode_column c) _ items e in
    let (others, e₂, r₂) = bind-ok (encode_columns columns) _ items r₁ in
    subst (λ (t : List (List ℕ)). AllEncoded t (column_values (c ∷ columns))) (ground arith)
      (one_more first _ others _ (column-Encoded c first e₁) (columns-Encoded columns others e₂))

-- The access parameters of a range, if they are built, read as a structure of the clock's column,
-- the two dates, and an array of the selected columns.
pub decode_value-access_parameters :
    (from_dt to_dt : DateTime) (columns : List Column) (bs : List ℕ)
    → is_valid from_dt ≡ true
    → is_valid to_dt ≡ true
    → access_parameters from_dt to_dt columns ≡ ok bs
    → decode_value bs 0
      ≡ ok (
        list_value (
            more_values (column_value clock) (
              more_values (date_value from_dt) (
                more_values
                  (date_value to_dt)
                  (more_values (list_value (column_values columns)) no_values)))),
        length bs,
      )
unfolding access_parameters
decode_value-access_parameters from_dt to_dt columns bs hf ht e =
    let (b₁, e₁, r₁) = bind-ok (encode_column clock) _ bs e in
    let (items, e₂, r₂) = bind-ok (encode_columns columns) _ bs r₁ in
    let (b₃, e₃, r₃) = bind-ok (encode_array items) _ bs r₂ in
    rw (append-nil bs) at (
      decode_value-Encoded [] bs [] _ (
        from_structure _ _ bs
          (one_more b₁ _ _ _ (column-Encoded clock b₁ e₁) (
            one_more _ _ _ _ (from_date_time from_dt hf) (
              one_more _ _ _ _ (from_date_time to_dt ht) (
                one_more b₃ _ _ _ (from_array items _ b₃ (columns-Encoded columns items e₂) e₃)
                  none_more))))
          r₃))
