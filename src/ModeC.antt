-- ===== src/ModeC.antt =====
-- gateway/src/mmws_gateway/protocols/mode_c.py: messages of the profile mode C, and the checks of a
-- data readout.
pub mod Detect
use rise_sun.Common.{
  ℕ, ◌+◌, ◌-◌, List, [], ◌∷◌, ◌++◌, bit_xor, Bool, true, false, Option, none, some,
}
use rise_sun.Common.{ltb, leb, ◌==◌, ◌&&◌, ◌||◌, not, if◌then◌else◌, length, take, drop, get_elem?}
use rise_sun.Errors.{
  Result, ok, err, ◌>>=◌, ◌>>◌, guard, fail, plain, with_raw, gateway_error, crc_error,
  unicode_error,
}
use rise_sun.Bytes.{slice, byte_at}
use rise_sun.DataTypes.Encode.{is_ascii}

abbrev pub stx : ℕ
stx = 0x02

abbrev pub etx : ℕ
etx = 0x03

-- `compute_bcc`: the exclusive or of all bytes.
pub bcc_from : ℕ → List ℕ → ℕ
bcc_from result [] = result
bcc_from result (b ∷ bs) = bcc_from (bit_xor result b) bs

unfoldable pub compute_bcc : List ℕ → ℕ
unfolding bcc_from
compute_bcc raw = bcc_from 0 raw

-- A text of one byte, and the first byte of a text.
abbrev is_single : ℕ → List ℕ → Bool
is_single b (c ∷ []) = c == b
is_single b _ = false

abbrev is_at : Option ℕ → ℕ → Bool
is_at none b = false
is_at (some c) b = c == b

-- The checks of `parse_data_readout`, up to the text of its lines.
unfoldable pub readout_text : List ℕ → List ℕ → List ℕ → Result (List ℕ)
readout_text stx_byte body_with_etx bcc_byte = do
  guard (is_single stx stx_byte) (plain gateway_error)
  guard (is_at (get_elem? body_with_etx (length body_with_etx - 1)) etx) (plain gateway_error)
  guard (is_at (get_elem? bcc_byte 0) (compute_bcc body_with_etx))
      (with_raw crc_error (stx_byte ++ (body_with_etx ++ bcc_byte)))
  let text = take (length body_with_etx - 1) body_with_etx
  guard (is_ascii text) unicode_error
  ok text

-- `build_identification_request`, with the encoding of the serial number.
unfoldable pub build_identification_request : List ℕ → Result (List ℕ)
build_identification_request serial = do
  guard (is_ascii serial) unicode_error
  ok ((b'/' ∷ b'?' ∷ []) ++ (serial ++ (b'!' ∷ 13 ∷ 10 ∷ [])))

-- `build_option_select`.
unfoldable pub build_option_select : List ℕ → List ℕ → Result (List ℕ)
build_option_select baud_char mode = do
  guard (is_ascii mode) unicode_error
  guard (is_ascii baud_char) unicode_error
  ok (0x06 ∷ (mode ++ (baud_char ++ (b'0' ∷ 13 ∷ 10 ∷ []))))

-- `text.strip("\r\n")`.
abbrev is_line_end : ℕ → Bool
is_line_end c = c == 13 || c == 10

pub strip_left : List ℕ → List ℕ
strip_left [] = []
strip_left (c ∷ cs) = if is_line_end c then strip_left cs else c ∷ cs

abbrev strip_last : ℕ → List ℕ → List ℕ
strip_last c [] = if is_line_end c then [] else c ∷ []
strip_last c (d ∷ cs) = c ∷ d ∷ cs

pub strip_right : List ℕ → List ℕ
strip_right [] = []
strip_right (c ∷ cs) = strip_last c (strip_right cs)

pub record IdentificationMessage : Type 0 where
  pub manufacturer : List ℕ
  pub baud_char : ℕ
  pub identification : List ℕ

unfoldable pub parse_identification : List ℕ → Result IdentificationMessage
unfolding strip_left strip_right
parse_identification raw = do
  guard (is_ascii raw) unicode_error
  let text = strip_right (strip_left raw)
  guard (is_at (get_elem? text 0) b'/' && leb 5 (length text)) (plain gateway_error)
  baud_char ← byte_at text 4
  ok (record { manufacturer = slice 1 4 text; baud_char = baud_char; identification = drop 5 text })
