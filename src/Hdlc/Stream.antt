-- ===== src/Hdlc/Stream.antt =====
-- `read_frame_from_transport` of hdlc.py, on a plain socket, for which `reset_frame_seeking` does
-- nothing.
pub mod Delivery
use rise_sun.Common.{ℕ, ◌+◌, ◌-◌, List, [], ◌∷◌, ◌++◌, bit_and, Bool, false, ◌==◌, leb, length}
use rise_sun.Errors.{plain, with_raw, gateway_error, crc_error}
use rise_sun.Bytes.{slice, from_bytes_big}
use rise_sun.Transport.{Link, ◌>>=◌, ◌>>◌, check, pure, recv_exact}
use rise_sun.Hdlc.Frame.{flag}

-- `text == bytes([FLAG])`.
abbrev pub is_flag_text : List ℕ → Bool
is_flag_text [] = false
is_flag_text (b ∷ []) = b == flag
is_flag_text (b ∷ c ∷ bs) = false

-- The last byte as a text, `text[-1:]`.
abbrev pub last_text : List ℕ → List ℕ
last_text text = slice (length text - 1) (length text) text

unfoldable pub read_frame_from_transport : Link (List ℕ)
read_frame_from_transport = do
  first ← recv_exact 1
  check (is_flag_text first) (plain gateway_error)
  format ← recv_exact 2
  let declared = bit_and (from_bytes_big format) 0x07FF
  check (leb 2 declared) (with_raw crc_error (first ++ format))
  rest ← recv_exact (declared - 2 + 1)
  check (is_flag_text (last_text rest)) (with_raw crc_error (first ++ (format ++ rest)))
  pure (first ++ (format ++ rest))
