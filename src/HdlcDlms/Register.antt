-- ===== src/HdlcDlms/Register.antt =====
-- Reading registers over an association in hdlc_dlms.py: `_read_one_register_via_established_link`
-- and the loop of `read_registers_via_established_link`. A scaled value is kept as the number that
-- was read and the power of ten, in place of the float that the code rounds it to.
pub mod Scale
use rise_sun.Common.{ℕ, zero, suc, ◌+◌, ◌-◌, ℤ, pos, negsuc, List, [], ◌∷◌, ◌++◌, Bool, true, false}
use rise_sun.Common.{ltb, leb, ◌==◌, ◌&&◌, if◌then◌else◌, Option, none, some}
use rise_sun.Errors.{
  Error, ErrorCode, GatewayError, Result, ok, err, raised, dlms_data_error, timeout,
  connection_lost, plain, gateway_error,
}
use rise_sun.Transport.{Socket, Link}
use rise_sun.Hdlc.Frame.{HdlcFrame, encode, control_information_frame}
use rise_sun.DataTypes.Decode.{
  Value, Values, none_value, int_value, list_value, no_values, more_values,
}
use rise_sun.Addressing.{codes}
use rise_sun.Dlms.Ber.{wrap_llc_command, unwrap_llc}
use rise_sun.Dlms.Attribute.{build_get_request, parse_get_response}
use rise_sun.HdlcDlms.{recv_i_frame}
use rise_sun.HdlcDlms.Obis.{parse_obis}

-- The two sides of a transport: what the socket will deliver, and what was sent, the last first.
pub record Wire : Type 0 where
  pub socket : Socket
  pub sent : List (List ℕ)

abbrev pub Wired {ℓ} : Type ℓ → Type ℓ
Wired A = Wire → Result A × Wire

module _ {ℓ κ} {A : Type ℓ} {B : Type κ} where
  abbrev pub continue : (A → Wired B) → Result A × Wire → Result B × Wire
  continue next (ok a, w) = next a w
  continue next (err e, w) = (err e, w)

  infixl 5 ◌>>=◌
  abbrev pub ◌>>=◌ : Wired A → (A → Wired B) → Wired B
  ◌>>=◌ m next w = continue next (m w)

abbrev pub pure {ℓ} : {A : Type ℓ} → A → Wired A
pure a w = (ok a, w)

abbrev pub lift {ℓ} : {A : Type ℓ} → Result A → Wired A
lift r w = (r, w)

-- A call that only receives.
abbrev received {ℓ} : {A : Type ℓ} → List (List ℕ) → Result A × Socket → Result A × Wire
received sent (r, s) = (r, record { socket = s; sent = sent })

abbrev pub receive {ℓ} : {A : Type ℓ} → Link A → Wired A
receive m w = received w.sent (m w.socket)

-- `transport.send(frame)`; the model's socket takes everything.
abbrev pub send : List ℕ → Wired (Unit {0})
send frame w = (ok tt, record { socket = w.socket; sent = frame ∷ w.sent })

unfoldable pub send_i_frame : ℕ → ℕ → ℕ → ℕ → List ℕ → Wired (Unit {0})
send_i_frame server_addr client_addr send_seq recv_seq information = do
  frame ← lift (
      encode (record {
        destination = server_addr;
        source = client_addr;
        control = control_information_frame send_seq recv_seq;
        information = information;
      }))
  send frame

abbrev pub register_class_id : ℕ
register_class_id = 3

-- The keys and values of `VALUE_OBIS_OVERRIDES`.
abbrev same_text : List ℕ → List ℕ → Bool
same_text [] [] = true
same_text (a ∷ as_) (b ∷ bs) = a == b && same_text as_ bs
same_text _ _ = false

abbrev pub value_obis_of : List ℕ → List ℕ
value_obis_of obis = if same_text obis (codes "1.1.1.8.0.ff") then codes "1.1.60.50.0.ff" else obis

-- What a reading comes to: a value as it was sent, or a number times a power of ten.
pub data Reading : Type 0 where
  plain_reading : Value → Reading
  scaled_reading : ℤ → ℤ → Reading

-- The first and the last component of the tuple that the code returns: a value or an error.
pub data Outcome : Type 0 where
  success : Reading → Outcome
  failure : Error → Outcome

abbrev pub minus_three : ℤ → ℤ
minus_three (pos k) = if leb 3 k then pos (k - 3) else negsuc (2 - k)
minus_three (negsuc k) = negsuc (k + 3)

-- A unit of 30, watt-hours, is turned into kilowatt-hours.
abbrev pub effective_scaler : ℤ → Value → ℤ
effective_scaler scaler (int_value (pos unit)) = if unit == 30 then minus_three scaler else scaler
effective_scaler scaler _ = scaler

abbrev pub apply_scaler : ℤ → ℤ → Reading
apply_scaler raw (pos zero) = plain_reading (int_value raw)
apply_scaler raw exponent = scaled_reading raw exponent

-- A number of a register is only good with a scaler and a unit.
abbrev pub scale : Value → ℤ → Outcome
scale (list_value (more_values (int_value scaler) (more_values unit no_values))) raw =
    success (apply_scaler raw (effective_scaler scaler unit))
scale _ raw = failure (plain gateway_error)

-- What is made of the answer to the GET of the value.
abbrev interpret_register : Value → Value → Outcome
interpret_register scaler_unit none_value = failure (plain gateway_error)
interpret_register scaler_unit (int_value raw) = scale scaler_unit raw
interpret_register scaler_unit raw_value = success (plain_reading raw_value)

unfoldable pub interpret : ℕ → Value → Value → Outcome
interpret class_id scaler_unit raw_value =
    if class_id == register_class_id
    then interpret_register scaler_unit raw_value
    else success (plain_reading raw_value)

-- `try: parse_get_response(unwrap_llc(...))` with its two `except` clauses: an answer, an error that
-- counts for this register, or an exception that none of them catches.
abbrev unwrapped : Result (List ℕ) → Result Value
unwrapped (ok response) = parse_get_response response
unwrapped (err e) = err e

unfoldable pub parse_answer : List ℕ → Result Value
parse_answer information = unwrapped (unwrap_llc information)

-- For the scaler both kinds of errors leave `None`.
unfoldable pub scaler_answer : Result Value → Result Value
scaler_answer (err (raised e)) = ok none_value
scaler_answer (err dlms_data_error) = ok none_value
scaler_answer answer = answer

unfoldable pub value_answer : ℕ → Value → Result Value → Result Outcome
unfolding interpret
value_answer class_id scaler_unit (ok raw_value) = ok (interpret class_id scaler_unit raw_value)
value_answer class_id scaler_unit (err (raised e)) = ok (failure (raised e))
value_answer class_id scaler_unit (err dlms_data_error) = ok (failure (plain gateway_error))
value_answer class_id scaler_unit (err e) = err e

-- One GET: the request out, the I-frame in.
unfoldable pub get_attribute : ℕ → ℕ → ℕ → ℕ → ℕ → List ℕ → ℕ → Wired (Result Value)
get_attribute server_addr client_addr send_seq class_id attribute_id obis invoke_id = do
  request ← lift (
      build_get_request (record { class_id = class_id; obis = obis; member = attribute_id })
        invoke_id)
  done ← send_i_frame server_addr client_addr send_seq send_seq (wrap_llc_command request)
  frame ← receive recv_i_frame
  pure (parse_answer frame.information)

-- The GET of `scaler_unit`, for a register only.
abbrev read_scaler_unit : Bool → ℕ → ℕ → ℕ → ℕ → List ℕ → ℕ → Wired Value
read_scaler_unit false server_addr client_addr send_seq class_id obis invoke_id = pure none_value
read_scaler_unit true server_addr client_addr send_seq class_id obis invoke_id = do
  answer ← get_attribute server_addr client_addr send_seq class_id 3 obis invoke_id
  lift (scaler_answer answer)

unfoldable pub read_one_register : ℕ → ℕ → ℕ → List ℕ → ℕ → ℕ → Wired (Outcome × ℕ)
read_one_register server_addr client_addr send_seq obis class_id invoke_id = do
  parsed_obis ← lift (parse_obis obis)
  parsed_value_obis ← lift (parse_obis (value_obis_of obis))
  let is_register = class_id == register_class_id
  scaler_unit ←
      read_scaler_unit is_register server_addr client_addr send_seq class_id parsed_obis invoke_id
  let value_send_seq = if is_register then send_seq + 1 else send_seq
  let value_invoke_id = if is_register then invoke_id + 1 else invoke_id
  answer ←
      get_attribute server_addr client_addr value_send_seq class_id 2 parsed_value_obis
        value_invoke_id
  outcome ← lift (value_answer class_id scaler_unit answer)
  pure (outcome, value_send_seq + 1)

-- `invoke_id += …; if invoke_id > 14: invoke_id = 1`.
unfoldable pub next_invoke_id : ℕ → ℕ → ℕ
next_invoke_id class_id invoke_id =
    let next = if class_id == register_class_id then invoke_id + 2 else invoke_id + 1 in
    if ltb 14 next then 1 else next

-- `raw_class_id or REGISTER_CLASS_ID`.
unfoldable pub class_or_register : ℕ → ℕ
class_or_register zero = register_class_id
class_or_register (suc n) = suc n

-- The error classes that end the loop and keep what was read.
abbrev pub ends_loop : Error → Bool
ends_loop (raised e) = lost e.code
  where
    lost : ErrorCode → Bool
    lost timeout = true
    lost connection_lost = true
    lost _ = false
ends_loop _ = false

abbrev pub Outcomes : Type 0
Outcomes = List (List ℕ × Outcome)

-- One turn of the loop, given the rest of it.
abbrev pub after_register :
    List ℕ → (ℕ → Wired Outcomes) → Result (Outcome × ℕ) × Wire → Result Outcomes × Wire
after_register obis rest (ok (outcome, send_seq), w) =
    continue (λ others. pure ((obis, outcome) ∷ others)) (rest send_seq w)
after_register obis rest (err e, w) = if ends_loop e then (ok [], w) else (err e, w)

pub read_registers_loop : ℕ → ℕ → List (List ℕ × ℕ) → ℕ → ℕ → Wired Outcomes
read_registers_loop server_addr client_addr [] send_seq invoke_id w = (ok [], w)
read_registers_loop server_addr client_addr ((obis, raw_class_id) ∷ specs) send_seq invoke_id w =
    let class_id = class_or_register raw_class_id in
    after_register obis
      (λ send_seq'.
        read_registers_loop server_addr client_addr specs send_seq'
          (next_invoke_id class_id invoke_id))
      (read_one_register server_addr client_addr send_seq obis class_id invoke_id w)
