-- ===== src/Hdlc.antt =====
-- gateway/src/mmws_gateway/protocols/hdlc.py: the checksum, the address field, the frame and
-- the reader of frames.
pub mod Crc
pub mod Address
pub mod Frame
pub mod Stream
