-- ===== src/Codec.antt =====
-- src/codec: the filters, the chain that applies them, and the envelope of a stored value.
pub mod Filters
pub mod Chain
pub mod Checksum
pub mod Compression
pub mod RoundTrip
