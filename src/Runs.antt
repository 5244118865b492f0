-- ===== src/Runs.antt =====
-- The theorems at concrete inputs.
use rise_sun.Common.{
  ℕ, zero, suc, ◌/◌, ◌%◌, ◌^◌, ◌≤◌, ◌<◌, ◌≡◌, ◌≢◌, refl, List, [], ◌∷◌, ◌++◌, length, arith,
}
use rise_sun.Common.{drop}
use rise_sun.Errors.{Result, ok, err, plain, timeout, index_error}
use rise_sun.Transport.{Socket, chunk, silence, recv_exact, partial}
use rise_sun.Transport.Delivery.{delivered, ending, recv_exact_delivers, recv_exact_short}
use rise_sun.Hdlc.Crc.{crc16_x25}
use rise_sun.Hdlc.Address.{encode_hdlc_address, address_bytes, decode_hdlc_address, join_address}
use rise_sun.Hdlc.Address.RoundTrip.{
  encode_hdlc_address-Field, decode_hdlc_address-encode_hdlc_address, join_address_lem,
}
use rise_sun.Hdlc.Frame.{HdlcFrame, encode, decode, decode_body}
use rise_sun.Hdlc.Frame.RoundTrip.{IsSendable, decode-encode}
use rise_sun.Hdlc.Frame.Detect.{decode_one_byte, decode_no_control}
use rise_sun.Hdlc.Stream.{read_frame_from_transport}
use rise_sun.Hdlc.Stream.Delivery.{Takes, read_frame-encode}
use rise_sun.HdlcDlms.{recv_i_frame}
use rise_sun.HdlcDlms.Receive.{recv_i_frame_skips}
use rise_sun.ModeC.{compute_bcc, readout_text}
use rise_sun.ModeC.Detect.{readout_one_byte}
use rise_sun.Session.{run_with_retries}
use rise_sun.Session.Retries.{
  Fails, none_yet, once_more, run_with_retries_final, run_with_retries_exhausted,
}

-- An I-frame and a "receiver ready" frame, with their texts.
abbrev two_bytes : HdlcFrame
two_bytes = record { destination = 0x30; source = 0x4321; control = 0x10; information = 1 ∷ 2 ∷ [] }

abbrev ready : HdlcFrame
ready = record { destination = 0x30; source = 3; control = 0x31; information = [] }

two_bytes-IsSendable : IsSendable two_bytes
two_bytes-IsSendable = record {
  destination = omega arith;
  source = omega arith;
  control = omega arith;
  information = (omega arith, (omega arith, tt));
  short = omega arith;
}

ready-IsSendable : IsSendable ready
ready-IsSendable = record {
  destination = omega arith;
  source = omega arith;
  control = omega arith;
  information = tt;
  short = omega arith;
}

abbrev two_bytes_text : List ℕ
two_bytes_text = 126 ∷ 160 ∷ 14 ∷ 97 ∷ 0 ∷ 2 ∷ 12 ∷ 67 ∷ 16 ∷ 128 ∷ 27 ∷ 1 ∷ 2 ∷ 20 ∷ 198 ∷ 126 ∷ []

abbrev ready_text : List ℕ
ready_text = 126 ∷ 160 ∷ 9 ∷ 97 ∷ 7 ∷ 49 ∷ 67 ∷ 238 ∷ 71 ∷ 15 ∷ 126 ∷ []

two_bytes-encode : encode two_bytes ≡ ok two_bytes_text
unfolding encode encode_hdlc_address address_bytes crc16_x25
two_bytes-encode = refl

ready-encode : encode ready ≡ ok ready_text
unfolding encode encode_hdlc_address address_bytes crc16_x25
ready-encode = refl

two_bytes-decode : decode two_bytes_text ≡ ok two_bytes
unfolding decode decode_body decode_hdlc_address crc16_x25
two_bytes-decode = refl

decode_hdlc_address-encode_hdlc_address_example :
    (bs : List ℕ) × (encode_hdlc_address 0x4321 ≡ ok bs)
    × (decode_hdlc_address ((9 ∷ 9 ∷ []) ++ (bs ++ 8 ∷ [])) 2 ≡ ok (0x4321, length bs))
    × (1 ≤ length bs)
    × (length bs ≤ 4)
decode_hdlc_address-encode_hdlc_address_example =
    decode_hdlc_address-encode_hdlc_address 0x4321 (9 ∷ 9 ∷ []) (8 ∷ []) (omega arith)

joined : join_address 1 801 ≡ ok 17185
unfolding join_address
joined = refl

join_address_lem_example : (17185 / 2 ^ 14 ≡ 1) × (17185 % 2 ^ 14 ≡ 801) × (17185 < 2 ^ 28)
join_address_lem_example = join_address_lem 1 801 17185 joined

decode-encode_example : (raw : List ℕ) × (encode two_bytes ≡ ok raw) × (decode raw ≡ ok two_bytes)
decode-encode_example = decode-encode two_bytes two_bytes-IsSendable

-- One bit of the control byte is changed.
decode_one_byte_example :
    decode (126 ∷ 160 ∷ 14 ∷ 97 ∷ 0 ∷ 2 ∷ 12 ∷ 67 ∷ 18 ∷ 128 ∷ 27 ∷ 1 ∷ 2 ∷ 20 ∷ 198 ∷ 126 ∷ [])
    ≢ ok ready
decode_one_byte_example =
    decode_one_byte (160 ∷ 14 ∷ 97 ∷ 0 ∷ 2 ∷ 12 ∷ 67 ∷ []) 16 18 (128 ∷ 27 ∷ 1 ∷ 2 ∷ []) 20 198
      two_bytes ready
      (
        omega arith,
        (
          omega arith,
          (omega arith, (omega arith, (omega arith, (omega arith, (omega arith, tt))))),
        ),
      )
      (omega arith) (omega arith) (omega arith, (omega arith, (omega arith, (omega arith, tt))))
      (omega arith) (omega arith) two_bytes-decode

four_bytes : encode_hdlc_address 0x4321 ≡ ok (0 ∷ 2 ∷ 12 ∷ 67 ∷ [])
unfolding encode_hdlc_address address_bytes
four_bytes = refl

one_byte : encode_hdlc_address 0x30 ≡ ok (97 ∷ [])
unfolding encode_hdlc_address address_bytes
one_byte = refl

decode_no_control_example :
    decode (126 ∷ 160 ∷ 7 ∷ 97 ∷ 0 ∷ 2 ∷ 12 ∷ 67 ∷ 126 ∷ []) ≡ err index_error
decode_no_control_example =
    decode_no_control 160 7 0x30 0x4321 (97 ∷ []) (0 ∷ 2 ∷ 12 ∷ 67 ∷ [])
      (encode_hdlc_address-Field 0x30 (97 ∷ []) one_byte)
      (encode_hdlc_address-Field 0x4321 (0 ∷ 2 ∷ 12 ∷ 67 ∷ []) four_bytes) (omega arith) refl

-- The ready frame in two pieces, then the other with a byte of what follows, then silence.
abbrev both : Socket
both =
    chunk 126 (160 ∷ 9 ∷ 97 ∷ [])
    ∷ chunk 7 (49 ∷ 67 ∷ 238 ∷ 71 ∷ 15 ∷ 126 ∷ [])
    ∷ chunk 126 (160 ∷ 14 ∷ 97 ∷ 0 ∷ 2 ∷ 12 ∷ 67 ∷ 16 ∷ 128 ∷ 27 ∷ 1 ∷ 2 ∷ 20 ∷ 198 ∷ 126 ∷ 5 ∷ [])
    ∷ silence
    ∷ []

recv_exact_delivers_example :
    (s' : Socket) × (recv_exact 6 both ≡ (ok (126 ∷ 160 ∷ 9 ∷ 97 ∷ 7 ∷ 49 ∷ []), s'))
    × (delivered s' ≡ drop 6 (delivered both))
    × (ending s' ≡ timeout)
recv_exact_delivers_example = recv_exact_delivers 6 both (omega arith)

recv_exact_short_example :
    (s' : Socket) × (recv_exact 100 both
      ≡ (err (partial timeout (ready_text ++ (two_bytes_text ++ 5 ∷ []))), s'))
recv_exact_short_example = recv_exact_short 100 both (omega arith)

read_frame-encode_example :
    Takes read_frame_from_transport both ready_text (two_bytes_text ++ 5 ∷ [])
    × (decode ready_text ≡ ok ready)
read_frame-encode_example =
    read_frame-encode ready both ready_text (two_bytes_text ++ 5 ∷ []) ready-IsSendable ready-encode
      refl

recv_i_frame_skips_example : Takes recv_i_frame both two_bytes (5 ∷ [])
recv_i_frame_skips_example =
    recv_i_frame_skips (ready ∷ []) two_bytes both ready_text two_bytes_text (5 ∷ [])
      (ready_text, [], ready-IsSendable, ready-encode, refl, refl, refl) two_bytes-IsSendable
      two_bytes-encode refl refl (omega arith)

-- The state counts the attempts: the first two time out.
abbrev flaky : ℕ → Result ℕ × ℕ
flaky zero = (err (plain timeout), 1)
flaky (suc zero) = (err (plain timeout), 2)
flaky (suc (suc n)) = (ok 42, 3)

two_failures : Fails flaky 2 0 2
two_failures =
    once_more (plain timeout) refl refl (once_more (plain timeout) refl refl (none_yet 2))

run_with_retries_final_example :
    run_with_retries 3 flaky 0 ≡ record { result = ok 42; state = 3; sleeps = 500 ∷ 1000 ∷ [] }
run_with_retries_final_example =
    run_with_retries_final flaky 2 3 (ok 42) two_failures refl tt (omega arith)

run_with_retries_exhausted_example :
    run_with_retries 2 flaky 0
    ≡ record { result = err (plain timeout); state = 2; sleeps = 500 ∷ [] }
run_with_retries_exhausted_example =
    run_with_retries_exhausted flaky 1 (plain timeout)
      (once_more (plain timeout) refl refl (none_yet 1)) refl

one_letter : readout_text (2 ∷ []) (65 ∷ 3 ∷ []) (66 ∷ []) ≡ ok (65 ∷ [])
unfolding readout_text compute_bcc
one_letter = refl

readout_one_byte_example : readout_text (2 ∷ []) (67 ∷ 3 ∷ []) (66 ∷ []) ≢ ok (67 ∷ [])
readout_one_byte_example =
    readout_one_byte (2 ∷ []) [] 65 67 (3 ∷ []) 66 [] (65 ∷ []) (67 ∷ []) (omega arith) one_letter
