-- ===== src/Examples/Values.antt =====
-- src/key.rs and src/codec: keys and sealed values.
use crossbank.Prelude.{
  ℕ, ◌%◌, ◌^◌, ◌≡◌, ◌↔◌, refl, arith, Bool, true, Option, some, [], ◌∷◌, ◌++◌, length, drop,
  reverse, ltb, ◌&&◌, Bool-cases, inl, inr, ◌<◌,
}
use crossbank.Error.{ok, err, corrupt, foreign_locker, schema_mismatch}
use crossbank.Bytes.{Bytes, IsBytes, bytes_lt, starts_with}
use crossbank.Bytes.Number.{to_le, from_le, from_be}
use crossbank.Backend.Api.{unbounded, included, contains, prefix}
use crossbank.Backend.Api.Ranges.{contains-prefix}
use crossbank.Key.{encode_bytes, decode_bytes, encode_range_bytes}
use crossbank.Key.Laws.{decode-encode, encode-decode, bytes_lt-encode}
use crossbank.Key.Scope.{encode_range-scope}
use crossbank.Codec.Filters.{verify, crc32, crc32_forward_owned, lz4, lz4_forward}
use crossbank.Codec.Chain.{
  FilterChain, default_chain, raw, seal, unseal, header, reverse_all, forward_all,
}
use crossbank.Codec.RoundTrip.{unseal-seal, unseal-seal_ne, header_of_unseal, AllInvert}
use crossbank.Codec.Checksum.{verify_iff, crc32_owned_agree, crc32-Inverts}
use crossbank.Codec.Compression.{Compresses, lz4-Inverts, unseal-seal_default}

-- A stand-in for the checksum, and one for the compression.
abbrev pub sum32 : Bytes → ℕ
sum32 xs = length xs % 256 ^ 4

abbrev pub pack : Bytes → Bytes
pack xs = to_le 4 (length xs) ++ xs

abbrev pub unpack : Bytes → Option Bytes
unpack xs = some (drop 4 xs)

pub sum32_small : (xs : Bytes) → sum32 xs < 256 ^ 4
sum32_small xs = omega arith

abbrev payload : Bytes
payload = 10 ∷ 20 ∷ 255 ∷ []

abbrev are_bytes : Bytes → Bool
are_bytes [] = true
are_bytes (x ∷ xs) = ltb x 256 && are_bytes xs

pub are_bytes-IsBytes : (xs : Bytes) → are_bytes xs ≡ true → IsBytes xs
are_bytes-IsBytes [] h = tt
are_bytes-IsBytes (x ∷ xs) h = elim (Bool-cases (ltb x 256)) [
  | inl e ↦ (ground arith, are_bytes-IsBytes xs (rw e at h))
  | inr n ↦ absurd (let no = rw n at h in ground arith)
]

abbrev pub chain : FilterChain
chain = default_chain sum32 pack unpack

-- "CBNK", version, chain 1, the packed payload and its sum.
abbrev sealed : Bytes
sealed = header 1 ++ ((3 ∷ 0 ∷ 0 ∷ 0 ∷ 10 ∷ 20 ∷ 255 ∷ []) ++ (7 ∷ 0 ∷ 0 ∷ 0 ∷ []))

contains-prefix_example : contains (prefix payload) (10 ∷ 20 ∷ 255 ∷ 1 ∷ []) ≡ true
unfolding starts_with
contains-prefix_example =
    contains-prefix payload (10 ∷ 20 ∷ 255 ∷ 1 ∷ []) (are_bytes-IsBytes payload refl)
      (are_bytes-IsBytes (10 ∷ 20 ∷ 255 ∷ 1 ∷ []) refl)

decode-encode_example : decode_bytes 3 (encode_bytes 2 payload) ≡ err (corrupt (foreign_locker 2 3))
decode-encode_example = decode-encode 2 3 payload (omega arith)

encode-decode_example : 0 ∷ 0 ∷ 0 ∷ 2 ∷ payload ≡ encode_bytes 2 payload
unfolding decode_bytes from_be
encode-decode_example =
    encode-decode 2 (0 ∷ 0 ∷ 0 ∷ 2 ∷ payload) payload
      (are_bytes-IsBytes (0 ∷ 0 ∷ 0 ∷ 2 ∷ payload) refl) refl

bytes_lt-encode_example :
    bytes_lt (encode_bytes 2 payload) (encode_bytes 2 (11 ∷ [])) ≡ bytes_lt payload (11 ∷ [])
bytes_lt-encode_example = bytes_lt-encode 2 payload (11 ∷ [])

encode_range-scope_example :
    (contains (encode_range_bytes 2 (included (10 ∷ [])) unbounded) (0 ∷ 0 ∷ 0 ∷ 2 ∷ payload)
      ≡ true)
    ↔ ((k : Bytes) × (0 ∷ 0 ∷ 0 ∷ 2 ∷ payload ≡ encode_bytes 2 k)
        × IsBytes k
        × (contains (record { start = included (10 ∷ []); finish = unbounded }) k ≡ true))
encode_range-scope_example =
    encode_range-scope 2 (included (10 ∷ [])) unbounded (0 ∷ 0 ∷ 0 ∷ 2 ∷ payload)
      (are_bytes-IsBytes (0 ∷ 0 ∷ 0 ∷ 2 ∷ payload) refl) (are_bytes-IsBytes (10 ∷ []) refl) tt

seal_run : seal chain payload ≡ ok sealed
unfolding seal forward_all lz4 lz4_forward crc32 crc32_forward_owned to_le header
seal_run = refl

packs : Compresses pack unpack payload
unfolding to_le from_le
packs = record { prefixed = omega arith; declared = refl; restored = refl }

inverts : AllInvert chain.filters payload
inverts = (
  lz4-Inverts pack unpack payload packs (omega arith),
  λ y e. (crc32-Inverts sum32 sum32_small y, λ z f. tt),
)

unseal-seal_example : unseal chain sealed ≡ ok payload
unseal-seal_example = unseal-seal chain payload sealed inverts seal_run

unseal-seal_ne_example : unseal raw sealed ≡ err (schema_mismatch 1 0)
unseal-seal_ne_example =
    unseal-seal_ne chain raw payload sealed (λ e. absurd (omega (arith, e))) seal_run

header_of_unseal_example :
    (body : Bytes) × (sealed ≡ header 1 ++ body)
    × (reverse_all (reverse chain.filters) body ≡ ok payload)
header_of_unseal_example = header_of_unseal chain sealed payload unseal-seal_example

verify_iff_example :
    (verify sum32 (5 ∷ 6 ∷ 2 ∷ 0 ∷ 0 ∷ 0 ∷ []) ≡ ok (5 ∷ 6 ∷ []))
    ↔ (5 ∷ 6 ∷ 2 ∷ 0 ∷ 0 ∷ 0 ∷ [] ≡ (5 ∷ 6 ∷ []) ++ to_le 4 (sum32 (5 ∷ 6 ∷ [])))
verify_iff_example =
    verify_iff sum32 sum32_small (5 ∷ 6 ∷ 2 ∷ 0 ∷ 0 ∷ 0 ∷ []) (5 ∷ 6 ∷ [])
      (are_bytes-IsBytes (5 ∷ 6 ∷ 2 ∷ 0 ∷ 0 ∷ 0 ∷ []) refl)

crc32_owned_agree_example :
    ((crc32 sum32).forward_owned payload ≡ (crc32 sum32).forward payload)
    × ((crc32 sum32).reverse_owned payload ≡ (crc32 sum32).reverse payload)
crc32_owned_agree_example = crc32_owned_agree sum32 sum32_small payload

unseal-seal_default_example : unseal (default_chain sum32 pack unpack) sealed ≡ ok payload
unseal-seal_default_example =
    unseal-seal_default pack unpack sum32 payload sealed sum32_small packs (omega arith) seal_run
