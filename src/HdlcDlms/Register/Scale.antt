-- ===== src/HdlcDlms/Register/Scale.antt =====
-- What a read of registers may return.
use rise_sun.Common.{
  ℕ, ◌<◌, ◌≡◌, refl, ap, ℤ, List, [], ◌∷◌, ◌++◌, Bool, true, false, bit_and, length, if◌then◌else◌,
}
use rise_sun.Common.{◌+◌, pos, negsuc, ◌≢◌}
use rise_sun.Errors.{Error, Result, ok, err, plain, gateway_error}
use rise_sun.Transport.{Socket}
use rise_sun.Transport.Delivery.{delivered}
use rise_sun.Hdlc.Frame.{HdlcFrame, encode, control_information_frame}
use rise_sun.Hdlc.Frame.RoundTrip.{IsSendable}
use rise_sun.Dlms.Ber.{wrap_llc_command, wrap_llc_response, unwrap_llc}
use rise_sun.Dlms.Attribute.{build_get_request, parse_get_response}
use rise_sun.DataTypes.Decode.{Value, int_value, list_value, no_values, more_values}
use rise_sun.HdlcDlms.Receive.{Supervisory, recv_i_frame_skips}
use rise_sun.HdlcDlms.Register.{
  Wire, Wired, continue, pure, ends_loop, Outcome, Outcomes, Reading, plain_reading, scaled_reading,
  success, failure, get_attribute, send_i_frame, parse_answer, read_registers_loop, after_register,
  read_one_register, next_invoke_id, class_or_register,
}

-- The answer to the GET of `scaler_unit` that a number needs.
abbrev pub scaler_and_unit : ℤ → Value → Value
scaler_and_unit scaler unit =
    list_value (more_values (int_value scaler) (more_values unit no_values))

-- The second number is the first less three, where `negsuc e` is -(e + 1).
pub data ThreeLess : ℤ → ℤ → Type 0 where
  from_above : (n e : ℕ) → e + 3 ≡ n → ThreeLess (pos n) (pos e)
  from_near : (n e : ℕ) → n + e ≡ 2 → ThreeLess (pos n) (negsuc e)
  from_below : (n : ℕ) → ThreeLess (negsuc n) (negsuc (n + 3))

-- The power of ten: watt-hours, whose unit is 30, come as kilowatt-hours.
pub data Exponent (scaler : ℤ) (unit : Value) (exponent : ℤ) : Type 0 where
  kilowatt_hours :
      unit ≡ int_value (pos 30) → ThreeLess scaler exponent → Exponent scaler unit exponent
  other_unit : unit ≢ int_value (pos 30) → exponent ≡ scaler → Exponent scaler unit exponent

-- A number with a power of ten, or as it was sent where the power is zero.
pub data Scaled (raw : ℤ) (exponent : ℤ) (reading : Reading) : Type 0 where
  with_power :
      exponent ≢ pos 0 → reading ≡ scaled_reading raw exponent → Scaled raw exponent reading
  as_sent : exponent ≡ pos 0 → reading ≡ plain_reading (int_value raw) → Scaled raw exponent reading

-- What the answer to the GET of the scaler makes of a number.
pub data Interpreted (raw : ℤ) (answer : Value) (outcome : Outcome) : Type 0 where
  with_scaler :
      (scaler : ℤ) (unit : Value) (exponent : ℤ) (reading : Reading)
      → answer ≡ scaler_and_unit scaler unit
      → Exponent scaler unit exponent
      → Scaled raw exponent reading
      → outcome ≡ success reading
      → Interpreted raw answer outcome
  without_scaler :
      ((scaler : ℤ) (unit : Value) → answer ≢ scaler_and_unit scaler unit)
      → outcome ≡ failure (plain gateway_error)
      → Interpreted raw answer outcome

-- The OBIS codes of a list of outcomes and of what was asked for.
abbrev pub firsts {ℓ} : {A : Type ℓ} → List (List ℕ × A) → List (List ℕ)
firsts [] = []
firsts ((obis, rest) ∷ others) = obis ∷ firsts others

-- A GET of an attribute, after fewer than twenty supervisory frames, returns the value in the
-- meter's answer and leaves what follows it; the one frame that was sent carries the request.
pub get_attribute_answered :
    (server_addr client_addr send_seq class_id attribute_id : ℕ) (obis : List ℕ) (invoke_id : ℕ)
    (w : Wire) (request raw : List ℕ) (fs : List HdlcFrame) (g : HdlcFrame)
    (text answer more response : List ℕ) (v : Value)
    → build_get_request
        (record { class_id = class_id; obis = obis; member = attribute_id })
        invoke_id
      ≡ ok request
    → encode (record {
      destination = server_addr;
      source = client_addr;
      control = control_information_frame send_seq send_seq;
      information = wrap_llc_command request;
    })
      ≡ ok raw
    → Supervisory fs text
    → length fs < 20
    → IsSendable g
    → encode g ≡ ok answer
    → bit_and g.control 0x01 ≡ 0
    → g.information ≡ wrap_llc_response response
    → parse_get_response response ≡ ok v
    → delivered w.socket ≡ text ++ (answer ++ more)
    → (s' : Socket) × (get_attribute server_addr client_addr send_seq class_id attribute_id obis
          invoke_id w
        ≡ (ok (ok v), record { socket = s'; sent = raw ∷ w.sent }))
      × (delivered s' ≡ more)
unfolding get_attribute send_i_frame parse_answer wrap_llc_response unwrap_llc
get_attribute_answered server_addr client_addr send_seq class_id attribute_id obis invoke_id w
      request raw fs g text answer more response v built sent hs few hg eg even info parsed d =
    let (s', run, left, same) =
      recv_i_frame_skips fs g w.socket text answer more hs hg eg even d few in
    (s', simp (built, sent, run, info, parsed), left)

-- What a run returns, and nothing where it raises.
abbrev pub returned : Result Outcomes × Wire → Outcomes
returned (ok outcomes, w) = outcomes
returned (err e, w) = []

-- The first list is the second one with more behind it.
abbrev pub Extends : List (List ℕ) → List (List ℕ) → Type 0
Extends all some_ = (unread : List (List ℕ)) × (all ≡ some_ ++ unread)

one_more :
    (obis : List ℕ) (outcome : Outcome) (asked : List (List ℕ)) (q : Result Outcomes × Wire)
    → Extends asked (firsts (returned q))
    → Extends
        (obis ∷ asked)
        (firsts (returned (continue (λ others. pure ((obis, outcome) ∷ others)) q)))
one_more obis outcome asked (ok outcomes, w) (unread, p) =
    (unread, ap (λ (t : List (List ℕ)). obis ∷ t) p)
one_more obis outcome asked (err e, w) h = (obis ∷ asked, refl)

stopped :
    (b : Bool) (e : Error) (asked : List (List ℕ)) (w : Wire)
    → Extends asked (firsts (returned (if b then (ok [], w) else (err e, w))))
stopped true e asked w = (asked, refl)
stopped false e asked w = (asked, refl)

after-Extends :
    (obis : List ℕ) (asked : List (List ℕ)) (rest : ℕ → Wired Outcomes)
    (r : Result (Outcome × ℕ) × Wire)
    → ((n : ℕ) (w : Wire) → Extends asked (firsts (returned (rest n w))))
    → Extends (obis ∷ asked) (firsts (returned (after_register obis rest r)))
after-Extends obis asked rest (ok (outcome, n), w) h =
    one_more obis outcome asked (rest n w) (h n w)
after-Extends obis asked rest (err e, w) h = stopped (ends_loop e) e (obis ∷ asked) w

-- The outcomes that a read of several registers returns belong to the first of the registers that
-- were asked for, in their order and one for each.
pub read_registers_prefix :
    (server_addr client_addr : ℕ) (specs : List (List ℕ × ℕ)) (send_seq invoke_id : ℕ) (w : Wire)
    → (unread : List (List ℕ)) × (firsts specs
        ≡ firsts (returned (read_registers_loop server_addr client_addr specs send_seq invoke_id w))
          ++ unread)
unfolding read_registers_loop
read_registers_prefix server_addr client_addr [] send_seq invoke_id w = ([], refl)
read_registers_prefix server_addr client_addr ((obis, class_id) ∷ specs) send_seq invoke_id w =
    after-Extends obis (firsts specs)
      (λ n.
        read_registers_loop server_addr client_addr specs n
          (next_invoke_id (class_or_register class_id) invoke_id))
      (read_one_register server_addr client_addr send_seq obis (class_or_register class_id)
        invoke_id w)
      λ n w'.
        read_registers_prefix server_addr client_addr specs n
          (next_invoke_id (class_or_register class_id) invoke_id) w'
