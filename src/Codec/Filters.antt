-- ===== src/Codec/Filters.antt =====
-- src/codec/api.rs (the `Filter` trait) and src/codec/filters.rs. The CRC32 of `crc32fast` and the
-- compression of `lz4_flex` are parameters.
use crossbank.Prelude.{
  ℕ, ◌-◌, ◌*◌, Option, none, some, ◌++◌, take, drop, length, ltb, ◌==◌, if◌then◌else◌,
}
use crossbank.Error.{
  Result, ok, err, corrupt, short_crc, crc_mismatch, no_lz4_prefix, lz4_limit, lz4_failed, ◌>>=◌,
}
use crossbank.Bytes.{Bytes}
use crossbank.Bytes.Number.{to_le, from_le}

-- The trait: two borrowing methods, and two that may consume their input.
pub record Filter : Type 0 where
  pub forward : Bytes → Result Bytes
  pub reverse : Bytes → Result Bytes
  pub forward_owned : Bytes → Result Bytes
  pub reverse_owned : Bytes → Result Bytes

abbrev pub max_decoded_bytes : ℕ
max_decoded_bytes = 256 * 1024 * 1024

-- `Crc32`, over `crc32fast::hash`.
module _ (hash : Bytes → ℕ) where
  -- `verify`: the body that the trailing checksum covers.
  unfoldable pub verify : Bytes → Result Bytes
  verify input =
      if ltb (length input) 4
      then err (corrupt short_crc)
      else let split = length input - 4 in
        let body = take split input in
        let expected = from_le (drop split input) in
        let actual = hash body in
        if expected == actual then ok body else err (corrupt (crc_mismatch expected actual))

  unfoldable pub crc32_forward : Bytes → Result Bytes
  crc32_forward input = ok (input ++ to_le 4 (hash input))

  unfoldable pub crc32_reverse : Bytes → Result Bytes
  crc32_reverse input = do body ← verify input; ok body

  -- The checksum is appended to the buffer itself.
  unfoldable pub crc32_forward_owned : Bytes → Result Bytes
  crc32_forward_owned input = let sum = hash input in ok (input ++ to_le 4 sum)

  -- `truncate` to the length of the verified body.
  unfoldable pub crc32_reverse_owned : Bytes → Result Bytes
  crc32_reverse_owned input = do body ← verify input; ok (take (length body) input)

  unfoldable pub crc32 : Filter
  crc32 = record {
    forward = crc32_forward;
    reverse = crc32_reverse;
    forward_owned = crc32_forward_owned;
    reverse_owned = crc32_reverse_owned;
  }

-- `Lz4`, over `compress_prepend_size` and `decompress_size_prepended` (`none` is its error).
module _ (compress : Bytes → Bytes) (decompress : Bytes → Option Bytes) where
  unfoldable pub lz4_forward : Bytes → Result Bytes
  lz4_forward input = ok (compress input)

  unfoldable or_lz4_failed : Option Bytes → Result Bytes
  or_lz4_failed none = err (corrupt lz4_failed)
  or_lz4_failed (some out) = ok out

  unfoldable pub lz4_reverse : Bytes → Result Bytes
  unfolding or_lz4_failed
  lz4_reverse input =
      if ltb (length input) 4
      then err (corrupt no_lz4_prefix)
      else let declared = from_le (take 4 input) in
        if ltb max_decoded_bytes declared
        then err (corrupt (lz4_limit declared))
        else or_lz4_failed (decompress input)

  -- The owning methods are the trait's defaults.
  unfoldable pub lz4 : Filter
  lz4 = record {
    forward = lz4_forward;
    reverse = lz4_reverse;
    forward_owned = lz4_forward;
    reverse_owned = lz4_reverse;
  }
