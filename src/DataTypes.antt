-- ===== src/DataTypes.antt =====
-- gateway/src/mmws_gateway/protocols/datatypes.py: the DLMS Common-Data-Types.
pub mod Date
pub mod Encode
pub mod Decode
pub mod RoundTrip
pub mod Totality
