-- ===== src/HdlcDlms/Exchange.antt =====
-- The exchanges of hdlc_dlms.py on a whole link: SNRM, AARQ with its repetitions, and then one GET,
-- SET or ACTION. The transport is a plain `TcpTransport`, whose socket has no deadline to narrow.
pub mod Repeat
use rise_sun.Common.{
  ℕ, zero, suc, List, [], ◌∷◌, Bool, true, false, ◌==◌, ◌&&◌, if◌then◌else◌, Option, none, some,
}
use rise_sun.Errors.{
  Error, ErrorCode, GatewayError, Result, ok, err, raised, timeout, plain, gateway_error,
  assertion_error, guard,
}
use rise_sun.Hdlc.Frame.{
  HdlcFrame, encode, default_client_address, control_snrm, control_ua, control_disc,
}
use rise_sun.Addressing.{meter_address}
use rise_sun.Dlms.Ber.{wrap_llc_command, unwrap_llc}
use rise_sun.Dlms.Association.{build_aarq, parse_aare}
use rise_sun.Dlms.Attribute.{
  build_set_request, parse_set_response, build_action_request, parse_action_response,
}
use rise_sun.HdlcDlms.{recv_i_frame, recv_frame}
use rise_sun.HdlcDlms.Obis.{parse_obis}
use rise_sun.HdlcDlms.Register.{
  Wire, Wired, ◌>>=◌, pure, lift, receive, send, send_i_frame, Outcome, Outcomes, Reading, success,
  failure, read_one_register, read_registers_loop,
}

-- The parameters that the client proposes with SNRM.
abbrev snrm_parameter_negotiation : List ℕ
snrm_parameter_negotiation =
    0x81 ∷ 0x80 ∷ 0x12 ∷ 0x05 ∷ 0x01 ∷ 0xFF ∷ 0x06 ∷ 0x01 ∷ 0xFF ∷ 0x07 ∷ 0x04 ∷ 0x00 ∷ 0x00 ∷ 0x00
    ∷ 0x01 ∷ 0x08 ∷ 0x04 ∷ 0x00 ∷ 0x00 ∷ 0x00 ∷ 0x01 ∷ []

abbrev pub link_frame : ℕ → ℕ → ℕ → List ℕ → HdlcFrame
link_frame server_addr client_addr control information = record {
  destination = server_addr;
  source = client_addr;
  control = control;
  information = information;
}

-- `_establish_link`.
unfoldable pub establish_link_to : ℕ → ℕ → Wired (Unit {0})
establish_link_to server_addr client_addr = do
  frame ← lift (encode (link_frame server_addr client_addr control_snrm snrm_parameter_negotiation))
  done ← send frame
  response ← receive recv_frame
  lift (guard (response.control == control_ua) (plain gateway_error))

unfoldable pub establish_link : List ℕ → Wired (Unit {0})
establish_link serial = do
  server_addr ← lift (meter_address serial)
  establish_link_to server_addr default_client_address

-- The choices of `_send_aarq_and_await_aare`.
pub record Options : Type 0 where
  pub max_attempts : ℕ
  pub send_disc_before_retry : Bool
  pub send_heartbeat_probe : Bool

abbrev pub default_options : Options
default_options = record {
  max_attempts = 20;
  send_disc_before_retry = true;
  send_heartbeat_probe = false;
}

-- What is sent on a condition.
abbrev send_if : Bool → List ℕ → Wired (Unit {0})
send_if true frame = send frame
send_if false frame = pure tt

abbrev send_disc : Bool → ℕ → ℕ → Wired (Unit {0})
send_disc true server_addr client_addr = do
  frame ← lift (encode (link_frame server_addr client_addr control_disc []))
  send frame
send_disc false server_addr client_addr = pure tt

abbrev is_timeout : ErrorCode → Bool
is_timeout timeout = true
is_timeout _ = false

-- After one attempt: only a timeout leads to the next.
abbrev pub unless_timeout :
    (Error → Wired HdlcFrame) → Result HdlcFrame × Wire → Result HdlcFrame × Wire
unless_timeout next (ok frame, w) = (ok frame, w)
unless_timeout next (err (raised e), w) =
    if is_timeout e.code then next (raised e) w else (err (raised e), w)
unless_timeout next (err e, w) = (err e, w)

-- What is sent in one attempt; the flag tells whether it is a repetition.
unfoldable pub send_attempt : Options → Bool → ℕ → ℕ → List ℕ → Wired (Unit {0})
send_attempt options again server_addr client_addr aarq_information = do
  disc ← send_disc (again && options.send_disc_before_retry) server_addr client_addr
  probe ← send_if options.send_heartbeat_probe (0 ∷ 0 ∷ 0 ∷ [])
  send_i_frame server_addr client_addr 0 0 aarq_information

-- An error of the sending is no timeout of the receiving, and goes through.
abbrev after_sending :
    Wired HdlcFrame → Result (Unit {0}) × Wire → (Error → Wired HdlcFrame) → Result HdlcFrame × Wire
after_sending await (ok sent, w) next = unless_timeout next (await w)
after_sending await (err e, w) next = (err e, w)

-- The loop with the attempts that are left, and the last error.
pub send_aarq_loop : ℕ → Options → Bool → Error → ℕ → ℕ → List ℕ → Wired HdlcFrame
send_aarq_loop zero options again last server_addr client_addr aarq_information w = (err last, w)
send_aarq_loop (suc left) options again last server_addr client_addr aarq_information w =
    after_sending (receive recv_i_frame)
      (send_attempt options again server_addr client_addr aarq_information w)
      (λ e. send_aarq_loop left options true e server_addr client_addr aarq_information)

unfoldable pub send_aarq_and_await_aare : Options → ℕ → ℕ → List ℕ → Wired HdlcFrame
unfolding send_aarq_loop
send_aarq_and_await_aare options server_addr client_addr aarq_information =
    send_aarq_loop options.max_attempts options false (plain timeout) server_addr client_addr
      aarq_information

-- The association, as every operation opens it.
unfoldable pub associate : Options → ℕ → List ℕ → ℕ → Option (List ℕ) → Wired (Unit {0})
unfolding send_aarq_and_await_aare
associate options server_addr password mechanism_id user_information = do
  aarq ← lift (build_aarq password mechanism_id user_information)
  aare_frame ←
      send_aarq_and_await_aare options server_addr default_client_address (wrap_llc_command aarq)
  aare ← lift (unwrap_llc aare_frame.information)
  accepted ← lift (parse_aare aare)
  pure tt

abbrev reading_of : Outcome × ℕ → Result Reading
reading_of (success reading, send_seq) = ok reading
reading_of (failure e, send_seq) = err e

unfoldable pub read_register_via_established_link : List ℕ → List ℕ → List ℕ → ℕ → ℕ → Wired Reading
unfolding associate
read_register_via_established_link serial password obis class_id mechanism_id = do
  server_addr ← lift (meter_address serial)
  done ← associate default_options server_addr password mechanism_id none
  answer ← read_one_register server_addr default_client_address 1 obis class_id 1
  lift (reading_of answer)

unfoldable pub read_register : List ℕ → List ℕ → List ℕ → ℕ → Wired Reading
unfolding read_register_via_established_link
read_register serial password obis class_id = do
  done ← establish_link serial
  read_register_via_established_link serial password obis class_id 1

unfoldable pub read_registers_via_established_link :
    List ℕ → List ℕ → List (List ℕ × ℕ) → Option (List ℕ) → Options → Wired Outcomes
unfolding associate
read_registers_via_established_link serial password obis_specs user_information options = do
  server_addr ← lift (meter_address serial)
  done ← associate options server_addr password 1 user_information
  read_registers_loop server_addr default_client_address obis_specs 1 1

unfoldable pub write_register_via_established_link :
    List ℕ → List ℕ → List ℕ → List ℕ → ℕ → Wired (Unit {0})
unfolding associate
write_register_via_established_link serial password obis encoded_value class_id = do
  server_addr ← lift (meter_address serial)
  done ← associate default_options server_addr password 1 none
  parsed_obis ← lift (parse_obis obis)
  request ← lift (
      build_set_request (record { class_id = class_id; obis = parsed_obis; member = 2 })
        encoded_value 1)
  sent ← send_i_frame server_addr default_client_address 1 1 (wrap_llc_command request)
  response_frame ← receive recv_i_frame
  response ← lift (unwrap_llc response_frame.information)
  lift (parse_set_response response)

unfoldable pub write_register : List ℕ → List ℕ → List ℕ → List ℕ → ℕ → Wired (Unit {0})
unfolding write_register_via_established_link
write_register serial password obis encoded_value class_id = do
  done ← establish_link serial
  write_register_via_established_link serial password obis encoded_value class_id

unfoldable pub execute_action_via_established_link :
    List ℕ → List ℕ → List ℕ → ℕ → ℕ → Option (List ℕ) → Wired (Unit {0})
unfolding associate
execute_action_via_established_link serial password obis method_id class_id parameters = do
  server_addr ← lift (meter_address serial)
  done ← associate default_options server_addr password 1 none
  parsed_obis ← lift (parse_obis obis)
  request ← lift (
      build_action_request (record { class_id = class_id; obis = parsed_obis; member = method_id })
        1 parameters)
  sent ← send_i_frame server_addr default_client_address 1 1 (wrap_llc_command request)
  response_frame ← receive recv_i_frame
  response ← lift (unwrap_llc response_frame.information)
  lift (parse_action_response response)

unfoldable pub execute_action :
    List ℕ → List ℕ → List ℕ → ℕ → ℕ → Option (List ℕ) → Wired (Unit {0})
unfolding execute_action_via_established_link
execute_action serial password obis method_id class_id parameters = do
  done ← establish_link serial
  execute_action_via_established_link serial password obis method_id class_id parameters
