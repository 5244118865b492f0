-- ===== src/Dlms/Attribute/RoundTrip.antt =====
-- What is built as a request or a response is parsed back.
use rise_sun.Common.{
  ℕ, ◌+◌, ◌≤◌, ◌<◌, ◌≡◌, ◌≢◌, refl, sym, ap, ◌∙◌, List, [], ◌∷◌, ◌++◌, arith, Option, none, some,
}
use rise_sun.Common.{length, drop, lt→ltb, le→ltb, eq→==, ne→==, append_assoc, append-nil}
use rise_sun.Errors.{ok, err, plain, gateway_error}
use rise_sun.Bytes.{
  big_endian, from_bytes_big-big_endian, length-append_bytes, drop_at, slice_of, byte_at_of,
  byte_at, slice,
}
use rise_sun.DataTypes.Decode.{Value, decode_value}
use rise_sun.DataTypes.RoundTrip.{Encoded, decode_value-Encoded}
use rise_sun.Dlms.Attribute.{
  Target, descriptor, build_get_request, parse_get_request, ParsedRequest, parse_target, expect,
  build_get_response_data, build_get_response_error, parse_get_response, build_set_request,
  parse_set_request, build_set_response, parse_set_response, build_action_request,
  parse_action_request, build_action_response, parse_action_response, params_field,
}

-- What the code can put into a message: an OBIS code of six bytes, and numbers that fit.
pub record IsTarget (t : Target) : Type 0 where
  pub obis : length t.obis ≡ 6
  pub class_id : t.class_id < 65536
  pub member : t.member < 256

-- The parameters of an ACTION that are seen on the other side.
abbrev pub nonempty : Option (List ℕ) → Option (List ℕ)
nonempty none = none
nonempty (some []) = none
nonempty (some (b ∷ bs)) = some (b ∷ bs)

module _ (t : Target) (h : IsTarget t) (invoke_id : ℕ) (hi : invoke_id < 256) where
  abbrev about : List ℕ
  about = big_endian 2 t.class_id ++ (t.obis ++ (t.member ∷ []))

  descriptor_of : descriptor t ≡ ok about
  unfolding descriptor
  descriptor_of = simp (eq→== _ _ h.obis, lt→ltb _ _ h.class_id, lt→ltb _ _ h.member)

  abbrev parsed : ParsedRequest
  parsed = record { invoke_id = invoke_id; target = t }

  abbrev message : ℕ → List ℕ → List ℕ
  message tag tail = tag ∷ 0x01 ∷ invoke_id ∷ (about ++ tail)

  member_of : (tag : ℕ) (tail : List ℕ) → byte_at (message tag tail) 11 ≡ ok t.member
  member_of tag tail =
      byte_at_of (message tag tail) (tag ∷ 1 ∷ invoke_id ∷ (big_endian 2 t.class_id ++ t.obis))
        t.member tail 11 (simp append_assoc) (omega (arith, h.obis))

  obis_of : (tag : ℕ) (tail : List ℕ) → slice 5 11 (message tag tail) ≡ t.obis
  obis_of tag tail =
      slice_of (message tag tail) (tag ∷ 1 ∷ invoke_id ∷ big_endian 2 t.class_id) t.obis
        (t.member ∷ tail) 5 11 (simp append_assoc) refl (omega (arith, h.obis))

  parse_target_of : (tag : ℕ) (tail : List ℕ) → parse_target (message tag tail) ≡ ok parsed
  parse_target_of tag tail =
      simp (member_of tag tail, obis_of tag tail, from_bytes_big-big_endian 2 t.class_id h.class_id)

  length-message : (tag : ℕ) (tail : List ℕ) → length (message tag tail) ≡ 12 + length tail
  length-message tag tail = omega (
    arith,
    h.obis,
    length-append_bytes (t.obis ++ (t.member ∷ [])) tail,
    length-append_bytes t.obis (t.member ∷ []),
  )

  expect_of :
      (size tag : ℕ) (tail : List ℕ)
      → size ≤ 12 + length tail
      → expect size tag 0x01 (message tag tail) ≡ ok tt
  expect_of size tag tail p =
      simp (length-message tag tail, le→ltb (12 + length tail) size p, eq→== tag tag refl)

  get_built : build_get_request t invoke_id ≡ ok (message 0xC0 (0x00 ∷ []))
  unfolding build_get_request
  get_built = simp (descriptor_of, lt→ltb invoke_id 256 hi)

  -- A GET request for an OBIS code of six bytes and numbers that fit is built, and parsing it gives
  -- back its number, class, OBIS code and attribute.
  pub parse_get_request-build_get_request :
      (raw : List ℕ) × (build_get_request t invoke_id ≡ ok raw)
      × (parse_get_request raw ≡ ok (record { invoke_id = invoke_id; target = t }))
  unfolding parse_get_request
  parse_get_request-build_get_request = (
    message 0xC0 (0x00 ∷ []),
    get_built,
    simp (expect_of 3 0xC0 (0x00 ∷ []) (omega arith), parse_target_of 0xC0 (0x00 ∷ [])),
  )

  set_built : (bs : List ℕ) → build_set_request t bs invoke_id ≡ ok (message 0xC1 (0x00 ∷ bs))
  unfolding build_set_request
  set_built bs = simp (descriptor_of, lt→ltb invoke_id 256 hi) (simp append_assoc)

  -- A SET request with a value that the encoders built is parsed back to the same number, class,
  -- OBIS code and attribute, the value, and its bytes.
  pub parse_set_request-build_set_request :
      (bs : List ℕ) (v : Value)
      → Encoded bs v
      → (raw : List ℕ) × (build_set_request t bs invoke_id ≡ ok raw)
        × (parse_set_request raw
            ≡ ok (record {
              request = record { invoke_id = invoke_id; target = t };
              value = v;
              encoded_value = bs;
            }))
  unfolding parse_set_request
  parse_set_request-build_set_request bs v e = (
    message 0xC1 (0x00 ∷ bs),
    set_built bs,
    simp (
      expect_of 13 0xC1 (0x00 ∷ bs) (omega arith),
      parse_target_of 0xC1 (0x00 ∷ bs),
      value_read,
      slice_of (message 0xC1 (0x00 ∷ bs)) before bs [] 13 (13 + length bs) shape (sym length-before)
          (omega (arith, length-before)),
    ),
  )
    where
      before : List ℕ
      before = 0xC1 ∷ 0x01 ∷ invoke_id ∷ (about ++ 0x00 ∷ [])

      length-before : length before ≡ 13
      length-before = length-message 0xC1 (0x00 ∷ [])

      shape : message 0xC1 (0x00 ∷ bs) ≡ before ++ (bs ++ [])
      shape = simp (append_assoc, append-nil)

      value_read : decode_value (message 0xC1 (0x00 ∷ bs)) 13 ≡ ok (v, length bs)
      value_read = rw (sym shape, length-before) at (decode_value-Encoded before bs [] v e)

  action_built :
      (p : Option (List ℕ))
      → build_action_request t invoke_id p ≡ ok (message 0xC3 (params_field p))
  unfolding build_action_request
  action_built p = simp (descriptor_of, lt→ltb invoke_id 256 hi)

  presence_of : (b : ℕ) (bs : List ℕ) → byte_at (message 0xC3 (b ∷ bs)) 12 ≡ ok b
  presence_of b bs =
      byte_at_of (message 0xC3 (b ∷ bs)) (message 0xC3 []) b bs 12 (simp (append_assoc, append-nil))
        (sym (length-message 0xC3 []))

  parameters_of : (b : ℕ) (bs : List ℕ) → drop 13 (message 0xC3 (b ∷ bs)) ≡ bs
  parameters_of b bs =
      ap (drop 13) shape
      ∙ drop_at (message 0xC3 (b ∷ [])) bs 13 (sym (length-message 0xC3 (b ∷ [])))
    where
      shape : message 0xC3 (b ∷ bs) ≡ message 0xC3 (b ∷ []) ++ bs
      shape = simp append_assoc

  action_parsed :
      (p : Option (List ℕ))
      → parse_action_request (message 0xC3 (params_field p))
        ≡ ok (record {
          request = record { invoke_id = invoke_id; target = t };
          parameters = nonempty p;
        })
  unfolding parse_action_request
  action_parsed none = simp (
    expect_of 13 0xC3 (0x00 ∷ []) (omega arith),
    parse_target_of 0xC3 (0x00 ∷ []),
    presence_of 0x00 [],
  )
  action_parsed (some []) = simp (
    expect_of 13 0xC3 (0x01 ∷ []) (omega arith),
    parse_target_of 0xC3 (0x01 ∷ []),
    presence_of 0x01 [],
    length-message 0xC3 (0x01 ∷ []),
  )
  action_parsed (some (b ∷ bs)) = simp (
    expect_of 13 0xC3 (0x01 ∷ b ∷ bs) (omega arith),
    parse_target_of 0xC3 (0x01 ∷ b ∷ bs),
    presence_of 0x01 (b ∷ bs),
    lt→ltb 13 (length (message 0xC3 (0x01 ∷ b ∷ bs)))
        (omega (arith, length-message 0xC3 (0x01 ∷ b ∷ bs))),
    parameters_of 0x01 (b ∷ bs),
  )

  -- An ACTION request is parsed back to its number, class, OBIS code and method. Its parameters
  -- come back too, except that an empty text of parameters comes back as none.
  pub parse_action_request-build_action_request :
      (p : Option (List ℕ))
      → (raw : List ℕ) × (build_action_request t invoke_id p ≡ ok raw)
        × (parse_action_request raw
            ≡ ok (record {
              request = record { invoke_id = invoke_id; target = t };
              parameters = nonempty p;
            }))
  unfolding parse_action_request
  parse_action_request-build_action_request p =
      (message 0xC3 (params_field p), action_built p, action_parsed p)

-- The responses to GET: data that the encoders built is decoded, and an access error is a
-- `GatewayError`.
pub parse_get_response_lem :
    (invoke_id : ℕ) (bs : List ℕ) (v : Value) (code : ℕ)
    → invoke_id < 256
    → code < 256
    → Encoded bs v
    → ((raw : List ℕ) × (build_get_response_data invoke_id bs ≡ ok raw)
        × (parse_get_response raw ≡ ok v))
      × ((raw : List ℕ) × (build_get_response_error invoke_id code ≡ ok raw)
          × (parse_get_response raw ≡ err (plain gateway_error)))
unfolding build_get_response_data build_get_response_error parse_get_response
parse_get_response_lem invoke_id bs v code hi hc e = (
  (
    0xC4 ∷ 0x01 ∷ invoke_id ∷ 0x00 ∷ bs,
    simp (lt→ltb invoke_id 256 hi),
    simp (le→ltb (length (0xC4 ∷ 0x01 ∷ invoke_id ∷ 0x00 ∷ bs)) 4 (omega arith), read),
  ),
  (
    0xC4 ∷ 0x01 ∷ invoke_id ∷ 0x01 ∷ code ∷ [],
    simp (lt→ltb invoke_id 256 hi, lt→ltb code 256 hc),
    refl,
  ),
)
  where
    read : decode_value (0xC4 ∷ 0x01 ∷ invoke_id ∷ 0x00 ∷ bs) 4 ≡ ok (v, length bs)
    read = rw append-nil at (decode_value-Encoded (0xC4 ∷ 0x01 ∷ invoke_id ∷ 0x00 ∷ []) bs [] v e)

-- The responses to SET and to ACTION: the parsers return for the result 0 and raise a
-- `GatewayError` for every other result.
pub parse_responses_lem :
    (invoke_id result : ℕ)
    → invoke_id < 256
    → result < 256
    → (set : List ℕ) × (action : List ℕ) × (build_set_response invoke_id result ≡ ok set)
      × (build_action_response invoke_id result ≡ ok action)
      × (result ≡ 0 → (parse_set_response set ≡ ok tt) × (parse_action_response action ≡ ok tt))
      × (result ≢ 0
          → (parse_set_response set ≡ err (plain gateway_error))
            × (parse_action_response action ≡ err (plain gateway_error)))
unfolding build_set_response build_action_response parse_set_response parse_action_response
parse_responses_lem invoke_id result hi hr = (
  0xC5 ∷ 0x01 ∷ invoke_id ∷ result ∷ [],
  0xC7 ∷ 0x01 ∷ invoke_id ∷ result ∷ 0x00 ∷ [],
  simp (lt→ltb invoke_id 256 hi, lt→ltb result 256 hr),
  simp (lt→ltb invoke_id 256 hi, lt→ltb result 256 hr),
  λ zero_result. (simp (eq→== result 0 zero_result), simp (eq→== result 0 zero_result)),
  λ other. (simp (ne→== result 0 other), simp (ne→== result 0 other)),
)
