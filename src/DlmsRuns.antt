-- ===== src/DlmsRuns.antt =====
-- The theorems on datatypes.py and dlms.py at concrete inputs.
use rise_sun.Common.{
  ℕ, ◌+◌, ◌-◌, ◌≤◌, ◌≡◌, ◌≢◌, refl, List, [], ◌∷◌, ◌++◌, length, drop, arith, true, negsuc, none,
  some,
}
use rise_sun.Errors.{ok, err, out_of_fuel}
use rise_sun.DataTypes.Date.{DateTime, is_valid, encode_cosem_date_time, isoweekday}
use rise_sun.DataTypes.Encode.{
  encode_structure, encode_octet_string, encode_integer, encode_long_unsigned, encode_array,
  encode_date_time,
}
use rise_sun.DataTypes.Decode.{
  Value, int_value, bytes_value, date_value, list_value, more_values, no_values, decode_value,
}
use rise_sun.DataTypes.RoundTrip.{
  Encoded, from_structure, from_octet_string, from_integer, one_more, none_more,
  decode_value-Encoded,
}
use rise_sun.DataTypes.Totality.{decode_value_bounded}
use rise_sun.Dlms.Ber.{encode_ber_length, decode_ber_length}
use rise_sun.Dlms.Ber.RoundTrip.{decode_ber_length-encode_ber_length}
use rise_sun.Dlms.Association.{build_aarq, parse_aarq}
use rise_sun.Dlms.Association.RoundTrip.{parse_aarq-build_aarq}
use rise_sun.Dlms.Attribute.{
  Target, build_get_request, parse_get_request, build_set_request, parse_set_request,
  build_action_request, parse_action_request,
}
use rise_sun.Dlms.Attribute.RoundTrip.{
  IsTarget, parse_get_request-build_get_request, parse_set_request-build_set_request,
  parse_action_request-build_action_request,
}
use rise_sun.Dlms.Blocks.{
  encode_column, clock, access_parameters, DatablockResult, build_get_response_datablock,
  parse_get_response_datablock, split_load_profile_rows, starts_with_marker,
}
use rise_sun.Dlms.Blocks.RoundTrip.{
  column_value, parse_get_response_datablock-build, decode_value-access_parameters,
}
use rise_sun.Dlms.Blocks.Rows.{reassembled, split_load_profile_rows-join}

-- A structure of an octet string and a negative number.
abbrev pair_text : List ℕ
pair_text = 0x02 ∷ 2 ∷ 0x09 ∷ 3 ∷ 7 ∷ 8 ∷ 9 ∷ 0x0F ∷ 0xFE ∷ []

abbrev pair_value : Value
pair_value =
    list_value
      (more_values (bytes_value (7 ∷ 8 ∷ 9 ∷ [])) (more_values (int_value (negsuc 1)) no_values))

octets : encode_octet_string (7 ∷ 8 ∷ 9 ∷ []) ≡ ok (0x09 ∷ 3 ∷ 7 ∷ 8 ∷ 9 ∷ [])
unfolding encode_octet_string
octets = refl

minus_two : encode_integer (negsuc 1) ≡ ok (0x0F ∷ 0xFE ∷ [])
unfolding encode_integer
minus_two = refl

pair : encode_structure ((0x09 ∷ 3 ∷ 7 ∷ 8 ∷ 9 ∷ []) ∷ (0x0F ∷ 0xFE ∷ []) ∷ []) ≡ ok pair_text
unfolding encode_structure
pair = refl

pair-Encoded : Encoded pair_text pair_value
pair-Encoded =
    from_structure _ _ pair_text
      (one_more _ _ _ _ (from_octet_string (7 ∷ 8 ∷ 9 ∷ []) (0x09 ∷ 3 ∷ 7 ∷ 8 ∷ 9 ∷ []) octets)
        (one_more _ _ _ _ (from_integer (negsuc 1) (0x0F ∷ 0xFE ∷ []) minus_two) none_more))
      pair

decode_value-Encoded_example :
    decode_value ((1 ∷ 2 ∷ []) ++ (pair_text ++ (5 ∷ []))) 2 ≡ ok (pair_value, 9)
decode_value-Encoded_example =
    decode_value-Encoded (1 ∷ 2 ∷ []) pair_text (5 ∷ []) pair_value pair-Encoded

decode_value_bounded_example :
    (decode_value (0x01 ∷ 1 ∷ 0x01 ∷ 1 ∷ 0x01 ∷ []) 1 ≢ err out_of_fuel)
    × ((v : Value) (n : ℕ)
        → decode_value (0x01 ∷ 1 ∷ 0x01 ∷ 1 ∷ 0x01 ∷ []) 1 ≡ ok (v, n)
        → (1 ≤ n) × (n ≤ 5 - 1))
decode_value_bounded_example = decode_value_bounded (0x01 ∷ 1 ∷ 0x01 ∷ 1 ∷ 0x01 ∷ []) 1

decode_ber_length-encode_ber_length_example :
    (bs : List ℕ) × (encode_ber_length 300 ≡ ok bs)
    × ((pre rest : List ℕ)
        → decode_ber_length (pre ++ (bs ++ rest)) (length pre) ≡ ok (300, length pre + length bs))
decode_ber_length-encode_ber_length_example = decode_ber_length-encode_ber_length 300 (omega arith)

parse_aarq-build_aarq_example :
    (raw : List ℕ) × (build_aarq (b'1' ∷ b'2' ∷ b'3' ∷ []) 1 none ≡ ok raw)
    × (parse_aarq raw ≡ ok (b'1' ∷ b'2' ∷ b'3' ∷ []))
parse_aarq-build_aarq_example = parse_aarq-build_aarq (b'1' ∷ b'2' ∷ b'3' ∷ []) (omega arith)

-- The register of active energy.
abbrev energy : Target
energy = record { class_id = 3; obis = 1 ∷ 1 ∷ 1 ∷ 8 ∷ 0 ∷ 255 ∷ []; member = 2 }

energy-IsTarget : IsTarget energy
energy-IsTarget = record { obis = refl; class_id = omega arith; member = omega arith }

parse_get_request-build_get_request_example :
    (raw : List ℕ) × (build_get_request energy 1 ≡ ok raw)
    × (parse_get_request raw ≡ ok (record { invoke_id = 1; target = energy }))
parse_get_request-build_get_request_example =
    parse_get_request-build_get_request energy energy-IsTarget 1 (omega arith)

parse_set_request-build_set_request_example :
    (raw : List ℕ) × (build_set_request energy pair_text 1 ≡ ok raw)
    × (parse_set_request raw
        ≡ ok (record {
          request = record { invoke_id = 1; target = energy };
          value = pair_value;
          encoded_value = pair_text;
        }))
parse_set_request-build_set_request_example =
    parse_set_request-build_set_request energy energy-IsTarget 1 (omega arith) pair_text pair_value
      pair-Encoded

parse_action_request-build_action_request_example :
    (raw : List ℕ) × (build_action_request energy 1 (some (0x0F ∷ 0x00 ∷ [])) ≡ ok raw)
    × (parse_action_request raw
        ≡ ok (record {
          request = record { invoke_id = 1; target = energy };
          parameters = some (0x0F ∷ 0x00 ∷ []);
        }))
parse_action_request-build_action_request_example =
    parse_action_request-build_action_request energy energy-IsTarget 1 (omega arith)
      (some (0x0F ∷ 0x00 ∷ []))

abbrev block : DatablockResult
block = record { last_block = true; block_number = 2; raw_data = 9 ∷ 8 ∷ [] }

parse_get_response_datablock-build_example :
    (raw : List ℕ) × (build_get_response_datablock 1 block ≡ ok raw)
    × (parse_get_response_datablock raw ≡ ok block)
parse_get_response_datablock-build_example =
    parse_get_response_datablock-build 1 block (omega arith) (omega arith) (omega arith)

abbrev new_year : DateTime
new_year = record { year = 2026; month = 1; day = 1; hour = 0; minute = 0; second = 0 }

abbrev leap_day : DateTime
leap_day = record { year = 2028; month = 2; day = 29; hour = 23; minute = 59; second = 59 }

new_year-is_valid : is_valid new_year ≡ true
unfolding is_valid
new_year-is_valid = refl

leap_day-is_valid : is_valid leap_day ≡ true
unfolding is_valid
leap_day-is_valid = refl

abbrev range_text : List ℕ
range_text =
    2 ∷ 4 ∷ 2 ∷ 4 ∷ 18 ∷ 0 ∷ 8 ∷ 9 ∷ 6 ∷ 0 ∷ 0 ∷ 1 ∷ 0 ∷ 0 ∷ 255 ∷ 15 ∷ 2 ∷ 18 ∷ 0 ∷ 0 ∷ 25 ∷ 7
    ∷ 234 ∷ 1 ∷ 1 ∷ 4 ∷ 0 ∷ 0 ∷ 0 ∷ 255 ∷ 128 ∷ 0 ∷ 255 ∷ 25 ∷ 7 ∷ 236 ∷ 2 ∷ 29 ∷ 2 ∷ 23 ∷ 59 ∷ 59
    ∷ 255 ∷ 128 ∷ 0 ∷ 255 ∷ 1 ∷ 0 ∷ []

range_built : access_parameters new_year leap_day [] ≡ ok range_text
unfolding access_parameters encode_structure encode_octet_string encode_integer encode_long_unsigned
    encode_array encode_date_time encode_cosem_date_time encode_column isoweekday
range_built = refl

decode_value-access_parameters_example :
    decode_value range_text 0
    ≡ ok (
      list_value (
          more_values (column_value clock) (
            more_values
              (date_value new_year)
              (more_values (date_value leap_day) (more_values (list_value no_values) no_values)))),
      48,
    )
decode_value-access_parameters_example =
    decode_value-access_parameters new_year leap_day [] range_text new_year-is_valid
      leap_day-is_valid range_built

split_load_profile_rows-join_example :
    (n : ℕ) × (reassembled (split_load_profile_rows (0xA0 ∷ 0xA0 ∷ 1 ∷ 0xA0 ∷ 0xA0 ∷ 2 ∷ []))
      ≡ drop n (0xA0 ∷ 0xA0 ∷ 1 ∷ 0xA0 ∷ 0xA0 ∷ 2 ∷ []))
    × (starts_with_marker (0xA0 ∷ 0xA0 ∷ 1 ∷ 0xA0 ∷ 0xA0 ∷ 2 ∷ []) ≡ true
        → reassembled (split_load_profile_rows (0xA0 ∷ 0xA0 ∷ 1 ∷ 0xA0 ∷ 0xA0 ∷ 2 ∷ []))
          ≡ 0xA0 ∷ 0xA0 ∷ 1 ∷ 0xA0 ∷ 0xA0 ∷ 2 ∷ [])
split_load_profile_rows-join_example =
    split_load_profile_rows-join (0xA0 ∷ 0xA0 ∷ 1 ∷ 0xA0 ∷ 0xA0 ∷ 2 ∷ [])
