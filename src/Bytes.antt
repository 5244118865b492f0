-- ===== src/Bytes.antt =====
-- Python's `bytes` as the sources use it: a list of numbers below 256, with slices, indexing,
-- `int.to_bytes`, `int.from_bytes` and `bytes([x])`.
mod Laws
mod Defs
unfoldable pub use Defs.*
pub use Laws.*
