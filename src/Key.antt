-- ===== src/Key.antt =====
-- src/key.rs: a stored key is the locker's id, big endian, and the user's key bytes.
pub mod Laws
pub mod Scope
use crossbank.Prelude.{
  ℕ, ◌==◌, Bool, true, false, not, List, [], ◌∷◌, ◌++◌, length, take, drop, ltb, if◌then◌else◌,
}
use crossbank.Error.{Result, ok, err, corrupt, short_key, foreign_locker, ◌>>=◌}
use crossbank.Bytes.{Bytes, bytes_lt, bytes_le}
use crossbank.Bytes.Number.{to_be, from_be}
use crossbank.Backend.Api.{Bound, unbounded, included, excluded, KeyRange, prefix}

abbrev pub LockerId : Type 0
LockerId = ℕ

abbrev prefix_len : ℕ
prefix_len = 4

unfoldable pub encode_bytes : LockerId → Bytes → Bytes
encode_bytes locker key = to_be prefix_len locker ++ key

unfoldable pub decode_bytes : LockerId → Bytes → Result Bytes
decode_bytes locker encoded =
    if ltb (length encoded) prefix_len
    then err (corrupt (short_key (length encoded)))
    else let found = from_be (take prefix_len encoded) in
      if found == locker
      then ok (drop prefix_len encoded)
      else err (corrupt (foreign_locker found locker))

unfoldable pub locker_range : LockerId → KeyRange
locker_range locker = prefix (to_be prefix_len locker)

unfoldable prefix_range_bytes : LockerId → Bytes → KeyRange
prefix_range_bytes locker p = prefix (encode_bytes locker p)

-- One `match` of `encode_range_bytes`; `edge` is the locker's own bound on that side.
unfoldable pub encode_bound : LockerId → Bound Bytes → Bound Bytes → Bound Bytes
encode_bound locker edge unbounded = edge
encode_bound locker edge (included k) = included (encode_bytes locker k)
encode_bound locker edge (excluded k) = excluded (encode_bytes locker k)

unfoldable pub encode_range_bytes : LockerId → Bound Bytes → Bound Bytes → KeyRange
unfolding encode_bound
encode_range_bytes locker start finish =
    let locker_bounds = locker_range locker in
    record {
      start = encode_bound locker locker_bounds.start start;
      finish = encode_bound locker locker_bounds.finish finish;
    }

unfoldable pub is_degenerate : Bound Bytes → Bound Bytes → Bool
is_degenerate unbounded finish = false
is_degenerate (included s) unbounded = false
is_degenerate (excluded s) unbounded = false
is_degenerate (included s) (included e) = bytes_lt e s
is_degenerate (included s) (excluded e) = bytes_le e s
is_degenerate (excluded s) (included e) = bytes_le e s
is_degenerate (excluded s) (excluded e) = bytes_le e s
