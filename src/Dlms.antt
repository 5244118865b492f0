-- ===== src/Dlms.antt =====
-- gateway/src/mmws_gateway/protocols/dlms.py: the requests and responses of DLMS/COSEM.
pub mod Ber
pub mod Association
pub mod Attribute
pub mod Blocks
