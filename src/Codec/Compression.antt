-- ===== src/Codec/Compression.antt =====
-- The LZ4 filter and the default chain, from what `lz4_flex` documents.
use crossbank.Prelude.{ℕ, ◌≤◌, ◌<◌, ◌^◌, ◌≡◌, refl, false, Option, some, arith, take, length, ltb}
use crossbank.Error.{ok}
use crossbank.Bytes.{Bytes}
use crossbank.Bytes.Number.{from_le}
use crossbank.Codec.Filters.{lz4, lz4_forward, lz4_reverse, max_decoded_bytes}
use crossbank.Codec.Chain.{default_chain, seal, unseal}
use crossbank.Codec.RoundTrip.{Inverts, unseal-seal}
use crossbank.Codec.Checksum.{crc32-Inverts}

-- The contract of `compress_prepend_size` and `decompress_size_prepended` on one payload: the output
-- begins with the payload's length in four little-endian bytes, and decompresses to the payload.
pub record Compresses (compress : Bytes → Bytes) (decompress : Bytes → Option Bytes) (x : Bytes)
    : Type 0 where
  pub prefixed : 4 ≤ length (compress x)
  pub declared : from_le (take 4 (compress x)) ≡ length x
  pub restored : decompress (compress x) ≡ some x

module _ (compress : Bytes → Bytes) (decompress : Bytes → Option Bytes) where
  pub lz4-Inverts :
      (x : Bytes)
      → Compresses compress decompress x
      → length x ≤ max_decoded_bytes
      → Inverts (lz4 compress decompress) x
  unfolding lz4 lz4_forward lz4_reverse
  lz4-Inverts x c h y e =
      let same : y ≡ compress x = ground arith in
      let long : ltb (length (compress x)) 4 ≡ false = ground (arith, c.prefixed) in
      let fits : ltb max_decoded_bytes (length x) ≡ false = ground arith in
      rw (same, long, c.declared, fits, c.restored) refl

  -- The default chain opens what it has sealed, for a payload of at most 256 MiB.
  pub unseal-seal_default :
      (hash : Bytes → ℕ) (payload stored : Bytes)
      → ((x : Bytes) → hash x < 256 ^ 4)
      → Compresses compress decompress payload
      → length payload ≤ max_decoded_bytes
      → seal (default_chain hash compress decompress) payload ≡ ok stored
      → unseal (default_chain hash compress decompress) stored ≡ ok payload
  unseal-seal_default hash payload stored small c h =
      unseal-seal (default_chain hash compress decompress) payload stored
        (lz4-Inverts payload c h, λ y e. (crc32-Inverts hash small y, λ z f. tt))
