-- ===== src/Bytes.antt =====
-- Byte strings (`Vec<u8>`, `&[u8]`): lists of numbers below 256, compared as `Ord for [u8]` does.
pub mod Order
pub mod Number
pub mod Slices
unfoldable pub use Order.*
