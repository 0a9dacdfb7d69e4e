-- ===== src/Key/Laws.antt =====
-- Encoding and decoding of stored keys: round trips, errors and order.
use crossbank.Prelude.{
  ◌^◌, ◌<◌, ◌≡◌, refl, sym, ◌∙◌, false, length, take, drop, ltb, ◌==◌, if◌then◌else◌, arith,
  length-append, take-append_of_length, drop-append_of_length, All-take, length-take,
  take-append-drop,
}
use crossbank.Error.{ok, err, corrupt, foreign_locker}
use crossbank.Bytes.{Bytes, IsBytes, bytes_lt, bytes_lt-append}
use crossbank.Bytes.Number.{to_be, from_be, from_be-to_be, length-to_be, to_be-from_be}
use crossbank.Key.{LockerId, encode_bytes, decode_bytes}

abbrev pub IsId : LockerId → Type 0
IsId id = id < 256 ^ 4

take-encode : (id : LockerId) (k : Bytes) → take 4 (encode_bytes id k) ≡ to_be 4 id
unfolding encode_bytes
take-encode id k = take-append_of_length 4 (to_be 4 id) k (length-to_be 4 id)

drop-encode : (id : LockerId) (k : Bytes) → drop 4 (encode_bytes id k) ≡ k
unfolding encode_bytes
drop-encode id k = drop-append_of_length 4 (to_be 4 id) k (length-to_be 4 id)

length-encode : (id : LockerId) (k : Bytes) → ltb (length (encode_bytes id k)) 4 ≡ false
unfolding encode_bytes
length-encode id k = ground (arith, length-append (to_be 4 id) k, length-to_be 4 id)

-- A stored key decodes under its own locker to the user's key, and under any other locker to an
-- error that names both lockers.
pub decode-encode :
    (id other : LockerId) (k : Bytes)
    → IsId id
    → decode_bytes other (encode_bytes id k)
      ≡ (if id == other then ok k else err (corrupt (foreign_locker id other)))
unfolding decode_bytes
decode-encode id other k h =
    rw (length-encode id k, take-encode id k, drop-encode id k, from_be-to_be 4 id h) refl

pub decode-encode_self :
    (id : LockerId) (k : Bytes) → IsId id → decode_bytes id (encode_bytes id k) ≡ ok k
decode-encode_self id k h = decode-encode id id k h ∙ ground arith

-- The bytes that decode are the encodings.
pub encode-decode :
    (id : LockerId) (e k : Bytes) → IsBytes e → decode_bytes id e ≡ ok k → e ≡ encode_bytes id k
unfolding decode_bytes encode_bytes
encode-decode id e k he h =
    let long : ltb (length e) 4 ≡ false = ground arith in
    let owner : from_be (take 4 e) ≡ id = ground arith in
    let rest : drop 4 e ≡ k = ground arith in
    let four : length (take 4 e) ≡ 4 = ground (arith, length-take 4 e) in
    let head : to_be 4 (from_be (take 4 e)) ≡ take 4 e =
      rw four at (to_be-from_be (take 4 e) (All-take (λ b. b < 256) 4 e he)) in
    sym (take-append-drop 4 e) ∙ cc

-- Within one locker the stored keys sort as the user's keys do.
pub bytes_lt-encode :
    (id : LockerId) (j k : Bytes) → bytes_lt (encode_bytes id j) (encode_bytes id k) ≡ bytes_lt j k
unfolding encode_bytes
bytes_lt-encode id j k = bytes_lt-append (to_be 4 id) j k
