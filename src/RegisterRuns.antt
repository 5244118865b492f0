-- ===== src/RegisterRuns.antt =====
-- The theorems on reading registers at concrete inputs.
use rise_sun.Common.{ℕ, ◌≡◌, refl, List, [], ◌∷◌, ◌++◌, drop, arith, pos}
use rise_sun.Errors.{ok}
use rise_sun.Transport.{Socket, chunk}
use rise_sun.Transport.Delivery.{delivered}
use rise_sun.Addressing.{codes}
use rise_sun.Hdlc.Crc.{crc16_x25}
use rise_sun.Hdlc.Address.{encode_hdlc_address, address_bytes}
use rise_sun.Hdlc.Frame.{HdlcFrame, encode, control_information_frame}
use rise_sun.Hdlc.Frame.RoundTrip.{IsSendable}
use rise_sun.DataTypes.Decode.{
  Value, int_value, list_value, more_values, no_values, decode_value, decode_from, decode_tag,
}
use rise_sun.Dlms.Ber.{wrap_llc_command, wrap_llc_response}
use rise_sun.Dlms.Attribute.{descriptor, build_get_request, parse_get_response}
use rise_sun.Hdlc.Frame.{control_disc, decode, decode_body}
use rise_sun.Hdlc.Address.{decode_hdlc_address}
use rise_sun.Hdlc.Stream.{read_frame_from_transport}
use rise_sun.Transport.{recv_exact}
use rise_sun.HdlcDlms.{recv_frame, recv_i_frame}
use rise_sun.HdlcDlms.Exchange.{link_frame, send_aarq_and_await_aare}
use rise_sun.HdlcDlms.Exchange.Repeat.{attempts, silences, send_aarq_repeats}
use rise_sun.HdlcDlms.Register.{Wire, get_attribute, read_registers_loop}
use rise_sun.HdlcDlms.Register.Scale.{
  firsts, returned, get_attribute_answered, read_registers_prefix,
}

abbrev request_text : List ℕ
request_text = 0xC0 ∷ 0x01 ∷ 1 ∷ 0 ∷ 3 ∷ 1 ∷ 1 ∷ 1 ∷ 8 ∷ 0 ∷ 255 ∷ 2 ∷ 0 ∷ []

request-built :
    build_get_request (record { class_id = 3; obis = 1 ∷ 1 ∷ 1 ∷ 8 ∷ 0 ∷ 255 ∷ []; member = 2 }) 1
    ≡ ok request_text
unfolding build_get_request descriptor
request-built = refl

-- The answer with the number 66051.
abbrev response_text : List ℕ
response_text = 0xC4 ∷ 0x01 ∷ 1 ∷ 0 ∷ 0x06 ∷ 0 ∷ 1 ∷ 2 ∷ 3 ∷ []

response-parsed : parse_get_response response_text ≡ ok (int_value (pos 66051))
unfolding parse_get_response decode_value decode_from decode_tag
response-parsed = refl

abbrev answer_frame : HdlcFrame
answer_frame = record {
  destination = 0x30;
  source = 0x4321;
  control = 0x52;
  information = 0xE6 ∷ 0xE7 ∷ 0x00 ∷ response_text;
}

abbrev request_frame : HdlcFrame
request_frame = record {
  destination = 0x4321;
  source = 0x30;
  control = 0x32;
  information = 0xE6 ∷ 0xE6 ∷ 0x00 ∷ request_text;
}

abbrev answer_text : List ℕ
answer_text =
    126 ∷ 160 ∷ 24 ∷ 97 ∷ 0 ∷ 2 ∷ 12 ∷ 67 ∷ 82 ∷ 146 ∷ 151 ∷ 230 ∷ 231 ∷ 0 ∷ 196 ∷ 1 ∷ 1 ∷ 0 ∷ 6 ∷ 0
    ∷ 1 ∷ 2 ∷ 3 ∷ 145 ∷ 2 ∷ 126 ∷ []

abbrev request_frame_text : List ℕ
request_frame_text =
    126 ∷ 160 ∷ 28 ∷ 0 ∷ 2 ∷ 12 ∷ 67 ∷ 97 ∷ 50 ∷ 128 ∷ 252 ∷ 230 ∷ 230 ∷ 0 ∷ 192 ∷ 1 ∷ 1 ∷ 0 ∷ 3 ∷ 1
    ∷ 1 ∷ 1 ∷ 8 ∷ 0 ∷ 255 ∷ 2 ∷ 0 ∷ 249 ∷ 168 ∷ 126 ∷ []

answer-encode : encode answer_frame ≡ ok answer_text
unfolding encode encode_hdlc_address address_bytes crc16_x25
answer-encode = refl

request_frame-encode :
    encode (record {
      destination = 0x4321;
      source = 0x30;
      control = control_information_frame 1 1;
      information = wrap_llc_command request_text;
    })
    ≡ ok request_frame_text
unfolding encode encode_hdlc_address address_bytes crc16_x25 control_information_frame
    wrap_llc_command
request_frame-encode = refl

answer-information : answer_frame.information ≡ wrap_llc_response response_text
unfolding wrap_llc_response
answer-information = refl

answer-IsSendable : IsSendable answer_frame
answer-IsSendable = record {
  destination = omega arith;
  source = omega arith;
  control = omega arith;
  information = (
    omega arith,
    (
      omega arith,
      (
        omega arith,
        (
          omega arith,
          (
            omega arith,
            (
              omega arith,
              (
                omega arith,
                (omega arith, (omega arith, (omega arith, (omega arith, (omega arith, tt))))),
              ),
            ),
          ),
        ),
      ),
    ),
  );
  short = omega arith;
}

abbrev wire : Wire
wire = record { socket = chunk 126 (drop 1 answer_text) ∷ []; sent = [] }

get_attribute_answered_example :
    (s' : Socket) × (get_attribute 0x4321 0x30 1 3 2 (1 ∷ 1 ∷ 1 ∷ 8 ∷ 0 ∷ 255 ∷ []) 1 wire
      ≡ (ok (ok (int_value (pos 66051))), record { socket = s'; sent = request_frame_text ∷ [] }))
    × (delivered s' ≡ [])
get_attribute_answered_example =
    get_attribute_answered 0x4321 0x30 1 3 2 (1 ∷ 1 ∷ 1 ∷ 8 ∷ 0 ∷ 255 ∷ []) 1 wire request_text
      request_frame_text [] answer_frame [] answer_text [] response_text (int_value (pos 66051))
      request-built request_frame-encode refl (omega arith) answer-IsSendable answer-encode refl
      answer-information response-parsed refl

-- A scaler of 1 and the unit watt-hours.
abbrev watt_hours : Value
watt_hours =
    list_value (more_values (int_value (pos 1)) (more_values (int_value (pos 30)) no_values))

read_registers_prefix_example :
    (unread : List (List ℕ)) × (codes "1.1.1.8.0.ff" ∷ codes "0.0.60.a.1.ff" ∷ []
      ≡ firsts (
          returned (
            read_registers_loop 0x4321 0x30
              ((codes "1.1.1.8.0.ff", 0) ∷ (codes "0.0.60.a.1.ff", 1) ∷ [])
              1
              1
              wire))
        ++ unread)
read_registers_prefix_example =
    read_registers_prefix 0x4321 0x30 ((codes "1.1.1.8.0.ff", 0) ∷ (codes "0.0.60.a.1.ff", 1) ∷ [])
      1 1 wire

abbrev disc_text : List ℕ
disc_text = 126 ∷ 160 ∷ 12 ∷ 0 ∷ 2 ∷ 12 ∷ 67 ∷ 97 ∷ 83 ∷ 198 ∷ 59 ∷ 71 ∷ 15 ∷ 126 ∷ []

abbrev aarq_text : List ℕ
aarq_text = 126 ∷ 160 ∷ 14 ∷ 0 ∷ 2 ∷ 12 ∷ 67 ∷ 97 ∷ 16 ∷ 226 ∷ 124 ∷ 1 ∷ 2 ∷ 20 ∷ 198 ∷ 126 ∷ []

disc-encode : encode (link_frame 0x4321 0x30 control_disc []) ≡ ok disc_text
unfolding encode encode_hdlc_address address_bytes crc16_x25
disc-encode = refl

aarq-encode :
    encode (link_frame 0x4321 0x30 (control_information_frame 0 0) (1 ∷ 2 ∷ [])) ≡ ok aarq_text
unfolding encode encode_hdlc_address address_bytes crc16_x25 control_information_frame
aarq-encode = refl

answer-received : recv_i_frame wire.socket ≡ (ok answer_frame, [])
unfolding recv_i_frame recv_frame read_frame_from_transport recv_exact decode decode_body
    decode_hdlc_address crc16_x25
answer-received = refl

-- Two silences, and then the answer.
send_aarq_repeats_example :
    send_aarq_and_await_aare
      (attempts 20)
      0x4321
      0x30
      (1 ∷ 2 ∷ [])
      (record { socket = silences 2 wire.socket; sent = [] })
    ≡ (
      ok answer_frame,
      record { socket = []; sent = aarq_text ∷ disc_text ∷ aarq_text ∷ disc_text ∷ aarq_text ∷ [] },
    )
send_aarq_repeats_example =
    send_aarq_repeats 0x4321 0x30 (1 ∷ 2 ∷ []) disc_text aarq_text disc-encode aarq-encode 2 20
      wire.socket [] [] answer_frame answer-received (omega arith)
