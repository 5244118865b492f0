-- ===== src/HdlcDlms.antt =====
-- gateway/src/mmws_gateway/protocols/hdlc_dlms.py: the exchange of frames on an established link.
pub mod Receive
pub mod Obis
pub mod Register
pub mod Exchange
use rise_sun.Common.{ℕ, zero, suc, ◌==◌, if◌then◌else◌, bit_and}
use rise_sun.Errors.{plain, gateway_error}
use rise_sun.Transport.{Link, ◌>>=◌, ◌>>◌, check, pure, throw, lift}
use rise_sun.Hdlc.Frame.{HdlcFrame, decode, control_ua}
use rise_sun.Hdlc.Stream.{read_frame_from_transport}

abbrev pub max_supervisory_frames_skipped : ℕ
max_supervisory_frames_skipped = 20

-- `HdlcFrame.decode(read_frame_from_transport(transport))`.
unfoldable pub recv_frame : Link HdlcFrame
recv_frame = do raw ← read_frame_from_transport; lift (decode raw)

-- The loop of `_recv_i_frame`, with the turns that are left.
pub recv_i_frame_loop : ℕ → Link HdlcFrame
recv_i_frame_loop zero = throw (plain gateway_error)
recv_i_frame_loop (suc turns) = do
  frame ← recv_frame
  let more = recv_i_frame_loop turns
  if bit_and frame.control 0x01 == 0 then pure frame else more

unfoldable pub recv_i_frame : Link HdlcFrame
unfolding recv_i_frame_loop
recv_i_frame = recv_i_frame_loop max_supervisory_frames_skipped

-- The answer to SNRM in `_establish_link`.
unfoldable pub await_ua : Link (Unit {0})
await_ua = do response ← recv_frame; check (response.control == control_ua) (plain gateway_error)
