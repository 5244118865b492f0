-- ===== src/Dlms/Attribute.antt =====
-- GET, SET and ACTION of dlms.py for one attribute or method.
pub mod RoundTrip
use rise_sun.Common.{ℕ, ◌+◌, List, [], ◌∷◌, ◌++◌, Bool, Option, none, some}
use rise_sun.Common.{ltb, leb, ◌==◌, ◌&&◌, ◌||◌, not, if◌then◌else◌, length, drop}
use rise_sun.Errors.{Result, ok, err, ◌>>=◌, ◌>>◌, guard, fail, plain, gateway_error}
use rise_sun.Bytes.{slice, byte_at, byte, to_bytes_big, from_bytes_big}
use rise_sun.DataTypes.Decode.{Value, decode_value}

-- The first two bytes of a message of at least `size` bytes.
abbrev pub expect : ℕ → ℕ → ℕ → List ℕ → Result (Unit {0})
expect size tag kind raw = do
  guard (not (ltb (length raw) size)) (plain gateway_error)
  a ← byte_at raw 0
  guard (a == tag) (plain gateway_error)
  b ← byte_at raw 1
  guard (b == kind) (plain gateway_error)

-- What a request is about: a class, an OBIS code, and an attribute or a method of it.
pub record Target : Type 0 where
  pub class_id : ℕ
  pub obis : List ℕ
  pub member : ℕ

-- `class_id.to_bytes(2, "big") + obis + bytes([attribute_id])`, after the check of the OBIS code.
unfoldable pub descriptor : Target → Result (List ℕ)
descriptor t = do
  guard (length t.obis == 6) (plain gateway_error)
  class_id ← to_bytes_big 2 t.class_id
  member ← byte t.member
  ok (class_id ++ (t.obis ++ member))

unfoldable pub build_get_request : Target → ℕ → Result (List ℕ)
unfolding descriptor
build_get_request t invoke_id = do
  about ← descriptor t
  invoke ← byte invoke_id
  ok (0xC0 ∷ 0x01 ∷ (invoke ++ (about ++ (0x00 ∷ []))))

-- A parsed request: its number and what it is about.
pub record ParsedRequest : Type 0 where
  pub invoke_id : ℕ
  pub target : Target

abbrev pub parse_target : List ℕ → Result ParsedRequest
parse_target raw = do
  invoke_id ← byte_at raw 2
  let class_id = from_bytes_big (slice 3 5 raw)
  let obis = slice 5 11 raw
  member ← byte_at raw 11
  ok (record {
    invoke_id = invoke_id;
    target = record { class_id = class_id; obis = obis; member = member };
  })

unfoldable pub parse_get_request : List ℕ → Result ParsedRequest
parse_get_request raw = do expect 3 0xC0 0x01 raw; parse_target raw

unfoldable pub build_get_response_data : ℕ → List ℕ → Result (List ℕ)
build_get_response_data invoke_id encoded_value = do
  invoke ← byte invoke_id
  ok (0xC4 ∷ 0x01 ∷ (invoke ++ (0x00 ∷ encoded_value)))

unfoldable pub build_get_response_error : ℕ → ℕ → Result (List ℕ)
build_get_response_error invoke_id data_access_result = do
  invoke ← byte invoke_id
  code ← byte data_access_result
  ok (0xC4 ∷ 0x01 ∷ (invoke ++ (0x01 ∷ code)))

-- Both choices but "data" raise a `GatewayError`.
unfoldable pub parse_get_response : List ℕ → Result Value
parse_get_response raw = do
  expect 4 0xC4 0x01 raw
  result ← byte_at raw 3
  guard (not (result == 0x01)) (plain gateway_error)
  guard (result == 0x00) (plain gateway_error)
  (value, consumed) ← decode_value raw 4
  ok value

unfoldable pub build_set_request : Target → List ℕ → ℕ → Result (List ℕ)
unfolding descriptor
build_set_request t encoded_value invoke_id = do
  about ← descriptor t
  invoke ← byte invoke_id
  ok (0xC1 ∷ 0x01 ∷ (invoke ++ (about ++ (0x00 ∷ encoded_value))))

pub record ParsedSetRequest : Type 0 where
  pub request : ParsedRequest
  pub value : Value
  pub encoded_value : List ℕ

unfoldable pub parse_set_request : List ℕ → Result ParsedSetRequest
parse_set_request raw = do
  expect 13 0xC1 0x01 raw
  request ← parse_target raw
  (value, consumed) ← decode_value raw 13
  ok (record { request = request; value = value; encoded_value = slice 13 (13 + consumed) raw })

unfoldable pub build_set_response : ℕ → ℕ → Result (List ℕ)
build_set_response invoke_id result = do
  invoke ← byte invoke_id
  code ← byte result
  ok (0xC5 ∷ 0x01 ∷ (invoke ++ code))

unfoldable pub parse_set_response : List ℕ → Result (Unit {0})
parse_set_response raw = do
  expect 4 0xC5 0x01 raw
  result ← byte_at raw 3
  guard (result == 0) (plain gateway_error)

abbrev pub params_field : Option (List ℕ) → List ℕ
params_field none = 0x00 ∷ []
params_field (some parameters) = 0x01 ∷ parameters

unfoldable pub build_action_request : Target → ℕ → Option (List ℕ) → Result (List ℕ)
unfolding descriptor
build_action_request t invoke_id parameters = do
  about ← descriptor t
  invoke ← byte invoke_id
  ok (0xC3 ∷ 0x01 ∷ (invoke ++ (about ++ params_field parameters)))

pub record ParsedActionRequest : Type 0 where
  pub request : ParsedRequest
  pub parameters : Option (List ℕ)

unfoldable pub parse_action_request : List ℕ → Result ParsedActionRequest
parse_action_request raw = do
  expect 13 0xC3 0x01 raw
  request ← parse_target raw
  presence ← byte_at raw 12
  let parameters = if presence == 0x01 && ltb 13 (length raw) then some (drop 13 raw) else none
  ok (record { request = request; parameters = parameters })

unfoldable pub build_action_response : ℕ → ℕ → Result (List ℕ)
build_action_response invoke_id result = do
  invoke ← byte invoke_id
  code ← byte result
  ok (0xC7 ∷ 0x01 ∷ (invoke ++ (code ++ (0x00 ∷ []))))

unfoldable pub parse_action_response : List ℕ → Result (Unit {0})
parse_action_response raw = do
  expect 4 0xC7 0x01 raw
  result ← byte_at raw 3
  guard (result == 0) (plain gateway_error)
