-- ===== src/Dlms/Association.antt =====
-- The requests and responses of an association in dlms.py: AARQ and AARE.
pub mod RoundTrip
use rise_sun.Common.{ℕ, zero, suc, ◌+◌, List, [], ◌∷◌, ◌++◌, Bool, true, false, Option, none, some}
use rise_sun.Common.{ltb, leb, ◌==◌, ◌&&◌, not, if◌then◌else◌, length}
use rise_sun.Errors.{
  Result, ok, err, ◌>>=◌, ◌>>◌, guard, fail, plain, gateway_error, auth_failed, out_of_fuel,
}
use rise_sun.Bytes.{slice, byte_at, byte}
use rise_sun.Dlms.Ber.{encode_oid}

abbrev pub aarq_tag : ℕ
aarq_tag = 0x60

abbrev pub aare_tag : ℕ
aare_tag = 0x61

abbrev pub aare_result_accepted : ℕ
aare_result_accepted = 0

abbrev pub aare_result_rejected_permanent : ℕ
aare_result_rejected_permanent = 1

abbrev pub aare_diagnostic_auth_failure : ℕ
aare_diagnostic_auth_failure = 13

abbrev pub aare_result_tag : ℕ
aare_result_tag = 0xA2

abbrev pub sender_acse_requirements : List ℕ
sender_acse_requirements = 0x8A ∷ 0x02 ∷ 0x07 ∷ 0x80 ∷ []

abbrev pub user_information_initiate : List ℕ
user_information_initiate =
    0xBE ∷ 0x10 ∷ 0x04 ∷ 0x0E ∷ 0x01 ∷ 0x00 ∷ 0x00 ∷ 0x00 ∷ 0x06 ∷ 0x5F ∷ 0x1F ∷ 0x04 ∷ 0x00 ∷ 0x00
    ∷ 0x08 ∷ 0x1D ∷ 0x08 ∷ 0x00 ∷ []

-- `bytes([tag, len(content)]) + content`.
unfoldable pub field : ℕ → List ℕ → Result (List ℕ)
field tag content = do size ← byte (length content); ok (tag ∷ (size ++ content))

abbrev pub user_information_or : Option (List ℕ) → List ℕ
user_information_or none = user_information_initiate
user_information_or (some information) = information

-- `build_aarq(password, mechanism_id=…, user_information=…)`.
unfoldable pub build_aarq : List ℕ → ℕ → Option (List ℕ) → Result (List ℕ)
unfolding field
build_aarq password mechanism_id user_information = do
  context_oid ← encode_oid 2 16 (756 ∷ 5 ∷ 8 ∷ 1 ∷ 1 ∷ [])
  inner_context ← field 0x06 context_oid
  application_context ← field 0xA1 inner_context
  mechanism_oid ← encode_oid 2 16 (756 ∷ 5 ∷ 8 ∷ 2 ∷ mechanism_id ∷ [])
  mechanism_name ← field 0x8B mechanism_oid
  auth_value ← field 0x80 password
  calling_auth ← field 0xAC auth_value
  let body =
      application_context
      ++ (sender_acse_requirements
          ++ (mechanism_name ++ (calling_auth ++ user_information_or user_information)))
  guard (leb (length body) 0x7F) (plain gateway_error)
  field aarq_tag body

-- The password of `[0x80, len, password]`, or what was found before.
abbrev pub password_of : List ℕ → List ℕ → Result (List ℕ)
password_of [] found = ok found
password_of (tag ∷ content) found =
    let read = byte_at content 0 >>= λ size. ok (slice 1 (1 + size) content) in
    if tag == 0x80 then read else ok found

-- The loop of `parse_aarq`: `while pos < len(body)`.
pub parse_aarq_loop : ℕ → List ℕ → ℕ → List ℕ → Result (List ℕ)
parse_aarq_loop zero body at password =
    if ltb at (length body) then err out_of_fuel else ok password
parse_aarq_loop (suc fuel) body at password =
    let turn = do
      tag ← byte_at body at
      size ← byte_at body (at + 1)
      let content = slice (at + 2) (at + 2 + size) body
      let found = password_of content password
      password' ← if tag == 0xAC then found else ok password
      parse_aarq_loop fuel body (at + (2 + size)) password'
    in if ltb at (length body) then turn else ok password

-- `data[2 : 2 + data[1]]`, once the tag has been checked.
abbrev pub body_of : ℕ → List ℕ → Result (List ℕ)
body_of tag [] = fail gateway_error
body_of tag (t ∷ raw) =
    let body = byte_at raw 0 >>= λ size. ok (slice 1 (1 + size) raw) in
    if t == tag then body else fail gateway_error

-- Each turn takes two bytes at least.
unfoldable pub parse_aarq : List ℕ → Result (List ℕ)
unfolding parse_aarq_loop
parse_aarq raw = do body ← body_of aarq_tag raw; parse_aarq_loop (length body) body 0 []

unfoldable pub build_aare : Bool → Result (List ℕ)
unfolding field
build_aare true = field aare_tag (0xA2 ∷ 0x03 ∷ 0x02 ∷ 0x01 ∷ aare_result_accepted ∷ [])
build_aare false = field aare_tag (
    0xA2 ∷ 0x03 ∷ 0x02 ∷ 0x01 ∷ aare_result_rejected_permanent ∷ 0xA3 ∷ 0x05 ∷ 0xA1 ∷ 0x03 ∷ 0x02
    ∷ 0x01 ∷ aare_diagnostic_auth_failure ∷ [])

-- `content[2]`, if the field is a result and is long enough; what was found before otherwise.
abbrev pub result_of : ℕ → List ℕ → Option ℕ → Option ℕ
result_of tag (a ∷ b ∷ c ∷ content) found = if tag == aare_result_tag then some c else found
result_of tag _ found = found

-- The loop of `parse_aare`: `while pos + 1 < len(body)`.
pub parse_aare_loop : ℕ → List ℕ → ℕ → Option ℕ → Result (Option ℕ)
parse_aare_loop zero body at result =
    if ltb (at + 1) (length body) then err out_of_fuel else ok result
parse_aare_loop (suc fuel) body at result =
    let turn = do
      tag ← byte_at body at
      size ← byte_at body (at + 1)
      let content = slice (at + 2) (at + 2 + size) body
      parse_aare_loop fuel body (at + (2 + size)) (result_of tag content result)
    in if ltb (at + 1) (length body) then turn else ok result

abbrev pub accept_if : Option ℕ → Result Bool
accept_if none = fail gateway_error
accept_if (some result) = if result == aare_result_accepted then ok true else fail auth_failed

unfoldable pub parse_aare : List ℕ → Result Bool
unfolding parse_aare_loop
parse_aare raw = do
  body ← body_of aare_tag raw
  result ← parse_aare_loop (length body) body 0 none
  accept_if result
