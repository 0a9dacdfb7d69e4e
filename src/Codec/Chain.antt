-- ===== src/Codec/Chain.antt =====
-- src/codec/api.rs: `FilterChain` and the envelope "CBNK", version, chain id, payload.
use crossbank.Prelude.{
  ℕ, Option, List, [], ◌∷◌, ◌++◌, take, drop, length, reverse, ltb, ◌==◌, if◌then◌else◌,
}
use crossbank.Error.{
  Result, ok, err, corrupt, short_value, no_magic, unsupported_version, schema_mismatch, ◌>>=◌,
}
use crossbank.Bytes.{Bytes, bytes_eq}
use crossbank.Bytes.Slices.{byte_at}
use crossbank.Codec.Filters.{Filter, crc32, lz4}

abbrev pub magic : Bytes
magic = b'C' ∷ b'B' ∷ b'N' ∷ b'K' ∷ []

abbrev pub version : ℕ
version = 1

abbrev pub header_len : ℕ
header_len = 6

unfoldable pub header : ℕ → Bytes
header chain_id = magic ++ (version ∷ chain_id ∷ [])

pub record FilterChain : Type 0 where
  pub id : ℕ
  pub filters : List Filter

abbrev pub raw : FilterChain
raw = record { id = 0; filters = [] }

abbrev checksum_only : (Bytes → ℕ) → FilterChain
checksum_only hash = record { id = 2; filters = crc32 hash ∷ [] }

abbrev pub default_chain : (Bytes → ℕ) → (Bytes → Bytes) → (Bytes → Option Bytes) → FilterChain
default_chain hash compress decompress = record {
  id = 1;
  filters = lz4 compress decompress ∷ crc32 hash ∷ [];
}

-- The loop of `seal`.
unfoldable pub forward_all : List Filter → Bytes → Result Bytes
forward_all [] body = ok body
forward_all (f ∷ fs) body = do body' ← f.forward_owned body; forward_all fs body'

unfoldable pub seal : FilterChain → Bytes → Result Bytes
seal c payload = do body ← forward_all c.filters payload; ok (header c.id ++ body)

unfoldable pub seal_slice : FilterChain → Bytes → Result Bytes
seal_slice c payload = seal c payload

-- The loop of `open`, over the filters from the last to the first.
unfoldable pub reverse_all : List Filter → Bytes → Result Bytes
reverse_all [] body = ok body
reverse_all (f ∷ fs) body = do body' ← f.reverse_owned body; reverse_all fs body'

-- `FilterChain::open`
unfoldable pub unseal : FilterChain → Bytes → Result Bytes
unseal c stored =
    if ltb (length stored) header_len
    then err (corrupt (short_value (length stored)))
    else if bytes_eq (take 4 stored) magic
    then if byte_at 4 stored == version
      then if byte_at 5 stored == c.id
        then reverse_all (reverse c.filters) (drop header_len stored)
        else err (schema_mismatch (byte_at 5 stored) c.id)
      else err (unsupported_version (byte_at 4 stored) version)
    else err (corrupt no_magic)
