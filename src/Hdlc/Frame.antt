-- ===== src/Hdlc/Frame.antt =====
-- `HdlcFrame` of hdlc.py: a frame as a record, its encoder and its decoder, and the control byte
-- of an I-frame.
pub mod RoundTrip
pub mod Detect
use rise_sun.Common.{
  ℕ, ◌+◌, ◌-◌, ◌*◌, ◌^◌, Option, none, some, List, [], ◌∷◌, ◌++◌, bit_and, bit_or,
}
use rise_sun.Common.{Bool, false, ◌==◌, ltb, not, ◌||◌, if◌then◌else◌, length, get_elem?}
use rise_sun.Errors.{Result, ok, ◌>>=◌, ◌>>◌, guard, fail, with_raw, gateway_error, crc_error}
use rise_sun.Bytes.{
  slice, byte_at, byte, to_bytes_big, to_bytes_little, from_bytes_big, from_bytes_little,
}
use rise_sun.Hdlc.Crc.{crc16_x25}
use rise_sun.Hdlc.Address.{encode_hdlc_address, decode_hdlc_address}

abbrev pub flag : ℕ
flag = 0x7E

-- The type of a frame, "format 3", in the high half byte.
abbrev pub frame_type_nibble : ℕ
frame_type_nibble = 0xA0

abbrev pub default_client_address : ℕ
default_client_address = 0x30

abbrev pub control_snrm : ℕ
control_snrm = 0x93

abbrev pub control_ua : ℕ
control_ua = 0x73

abbrev pub control_disc : ℕ
control_disc = 0x53

pub record HdlcFrame : Type 0 where
  pub destination : ℕ
  pub source : ℕ
  pub control : ℕ
  pub information : List ℕ

unfoldable pub encode : HdlcFrame → Result (List ℕ)
encode f = do
  destination ← encode_hdlc_address f.destination
  source ← encode_hdlc_address f.source
  control ← byte f.control
  let header = destination ++ (source ++ control)
  let len = 2 + length header + 2 + length f.information + 2
  format ← to_bytes_big 2 (bit_or (frame_type_nibble * 256) len)
  hcs ← to_bytes_little 2 (crc16_x25 (format ++ header))
  let body = format ++ (header ++ (hcs ++ f.information))
  fcs ← to_bytes_little 2 (crc16_x25 body)
  ok (flag ∷ (body ++ (fcs ++ (flag ∷ []))))

-- `raw[i] == FLAG`, where `raw` is long enough.
abbrev pub is_flag : Option ℕ → Bool
is_flag none = false
is_flag (some b) = b == flag

-- What `decode` does after its first test, on the body between the flags.
unfoldable pub decode_body : List ℕ → List ℕ → Result HdlcFrame
decode_body raw body = do
  let declared = bit_and (from_bytes_big (slice 0 2 body)) 0x07FF
  guard (declared == length raw - 2) (with_raw crc_error raw)
  (destination, destination_len) ← decode_hdlc_address body 2
  (source, source_len) ← decode_hdlc_address body (2 + destination_len)
  let header_end = 2 + destination_len + source_len
  control ← byte_at body header_end
  let hcs_pos = header_end + 1
  let hcs_received = from_bytes_little (slice hcs_pos (hcs_pos + 2) body)
  guard (hcs_received == crc16_x25 (slice 0 hcs_pos body)) (with_raw crc_error raw)
  let info_start = hcs_pos + 2
  let info_end = length body - 2
  let information = slice info_start info_end body
  let fcs_received = from_bytes_little (slice info_end (length body) body)
  guard (fcs_received == crc16_x25 (slice 0 info_end body)) (with_raw crc_error raw)
  ok (record {
    destination = destination;
    source = source;
    control = control;
    information = information;
  })

unfoldable pub decode : List ℕ → Result HdlcFrame
unfolding decode_body
decode raw =
    if ltb (length raw) 9
      || not (is_flag (get_elem? raw 0))
      || not (is_flag (get_elem? raw (length raw - 1)))
    then fail gateway_error
    else decode_body raw (slice 1 (length raw - 1) raw)

-- `control_information_frame(send_seq, recv_seq)`.
unfoldable pub control_information_frame : ℕ → ℕ → ℕ
control_information_frame send_seq recv_seq =
    bit_or (bit_or (bit_and recv_seq 0x7 * 2 ^ 5) 0x10) (bit_and send_seq 0x7 * 2)
