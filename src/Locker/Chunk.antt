-- ===== src/Locker/Chunk.antt =====
-- src/locker/chunk.rs: the pointer that `records` holds for a chunked value, the keys of its pieces,
-- and the bank-wide allocator of value ids.
pub mod Pointer
pub mod Ids
pub mod Fresh
use crossbank.Prelude.{
  ℕ, ◌+◌, ◌^◌, max, ◌&&◌, Bool, true, false, Option, none, some, List, [], ◌∷◌, ◌++◌, take, length,
  ltb, ◌==◌, if◌then◌else◌,
}
use mathlib.Core.Option
use crossbank.Error.{
  Result, ok, err, panic, backend, corrupt, not_a_pointer, unsupported_version, over_limit,
  too_many_chunks, bad_counter, short_chunk_key, ids_exhausted, ◌>>=◌,
}
use crossbank.Bytes.{Bytes, bytes_eq}
use crossbank.Bytes.Number.{to_be, from_be}
use crossbank.Bytes.Slices.{byte_at, slice}
use crossbank.Backend.Api.{
  meta, chunks, KeyRange, all, prefix, Op, put, delete_range, ScanRequest, ScanPage,
}
use crossbank.Backend.Memory
use crossbank.Backend.Memory.{MemoryBackend}
use crossbank.Codec.Filters.{max_decoded_bytes}

abbrev pub pointer_magic : Bytes
pointer_magic = b'C' ∷ b'C' ∷ b'H' ∷ b'K' ∷ []

abbrev pub pointer_version : ℕ
pointer_version = 1

abbrev pointer_len : ℕ
pointer_len = 26

abbrev pub flag_postcard : ℕ
flag_postcard = 0

abbrev pub flag_raw : ℕ
flag_raw = 1

pub record ChunkPointer : Type 0 where
  pub value_id : ℕ
  pub n_chunks : ℕ
  pub total_len : ℕ
  pub flags : ℕ

unfoldable pub encode : ChunkPointer → Bytes
encode p =
    pointer_magic
    ++ (pointer_version
        ∷ p.flags
        ∷ (to_be 8 p.value_id ++ (to_be 4 p.n_chunks ++ to_be 8 p.total_len)))

-- The two limits of `parse`, and its result.
unfoldable pub within_limits : ChunkPointer → Result ChunkPointer
within_limits p =
    if ltb max_decoded_bytes p.total_len
    then err (corrupt (over_limit p.total_len))
    else if ltb p.total_len p.n_chunks
    then err (corrupt (too_many_chunks p.n_chunks p.total_len))
    else ok p

unfoldable pub parse : Bytes → Result ChunkPointer
unfolding within_limits
parse raw =
    if (length raw == pointer_len) && bytes_eq (slice 0 4 raw) pointer_magic
    then if byte_at 4 raw == pointer_version
      then within_limits (record {
        value_id = from_be (slice 6 14 raw);
        n_chunks = from_be (slice 14 18 raw);
        total_len = from_be (slice 18 26 raw);
        flags = byte_at 5 raw;
      })
      else err (unsupported_version (byte_at 4 raw) pointer_version)
    else err (corrupt not_a_pointer)

unfoldable pub is_pointer : Bytes → Bool
is_pointer raw = if ltb (length raw) 4 then false else bytes_eq (take 4 raw) pointer_magic

unfoldable pub chunk_key : ℕ → ℕ → Bytes
chunk_key value_id seq = to_be 8 value_id ++ to_be 4 seq

unfoldable pub chunk_range : ℕ → KeyRange
chunk_range value_id = prefix (to_be 8 value_id)

-- "next_value_id"
abbrev pub meta_next_value_id : Bytes
meta_next_value_id =
    b'n' ∷ b'e' ∷ b'x' ∷ b't' ∷ b'_' ∷ b'v' ∷ b'a' ∷ b'l' ∷ b'u' ∷ b'e' ∷ b'_' ∷ b'i' ∷ b'd' ∷ []

unfoldable pub counter_op_for : ℕ → Op
counter_op_for next = put meta meta_next_value_id (to_be 8 next)

unfoldable pub parse_counter : Option Bytes → Result ℕ
parse_counter none = ok 0
parse_counter (some bytes) =
    if length bytes == 8 then ok (from_be bytes) else err (corrupt bad_counter)

-- `checked_add(1)` on a `u64`.
unfoldable pub advance : ℕ → Result ℕ
advance id = if ltb (id + 1) (2 ^ 64) then ok (id + 1) else err (backend ids_exhausted)

-- The cursor: the next id, once it is seeded. A call returns its result and the cursor it leaves.
abbrev pub ValueIds : Type 0
ValueIds = Option ℕ

-- `*guard = Some(advance(id)?); Ok(…)`: the cursor moves only if it can.
unfoldable pub issue {ℓ} : {A : Type ℓ} → ValueIds → ℕ → A → Result A × ValueIds
issue cursor id a = elim (advance id) [
  | ok next ↦ (ok a, some next)
  | err e ↦ (err e, cursor)
  | panic ↦ (panic, cursor)
]

-- `ValueIds::take`
unfoldable pub take_id : ValueIds → Result (Option ℕ) × ValueIds
unfolding issue
take_id none = (ok none, none)
take_id (some id) = issue (some id) id (some id)

unfoldable pub seed_and_take : ValueIds → ℕ → Result ℕ × ValueIds
unfolding issue
seed_and_take none stored = issue none stored stored
seed_and_take (some current) stored = issue (some current) (max current stored) (max current stored)

-- The id of the first key of a page.
unfoldable pub id_of_first : List (Bytes × Option Bytes) → Result (Option ℕ)
id_of_first [] = ok none
id_of_first ((key, v) ∷ rest) =
    if ltb (length key) 8 then err (corrupt short_chunk_key) else ok (some (from_be (take 8 key)))

unfoldable pub highest_stored_id : MemoryBackend → Result (Option ℕ)
unfolding id_of_first
highest_stored_id b = do
  page ←
      Memory.scan b
        (record { table = chunks; range = all; is_reverse = true; limit = 1; want_values = false })
  id_of_first page.items

unfoldable pub above_id : ℕ → Option ℕ → Result ℕ
above_id stored none = ok stored
above_id stored (some id) = do next ← advance id; ok (max stored next)

unfoldable pub seed_floor : MemoryBackend → Result ℕ
unfolding above_id
seed_floor b = do
  raw ← Memory.get b meta meta_next_value_id
  stored ← parse_counter raw
  highest ← highest_stored_id b
  above_id stored highest

-- The second half of `allocate`, with the answer of `seed_floor`.
unfoldable pub allocate_seeding : Result ℕ → ValueIds → Result ℕ × ValueIds
allocate_seeding (ok floor) cursor = seed_and_take cursor floor
allocate_seeding (err e) cursor = (err e, cursor)
allocate_seeding panic cursor = (panic, cursor)

unfoldable pub allocate_from : MemoryBackend → Result (Option ℕ) × ValueIds → Result ℕ × ValueIds
unfolding allocate_seeding
allocate_from b (ok (some id), cursor) = (ok id, cursor)
allocate_from b (ok none, cursor) = allocate_seeding (seed_floor b) cursor
allocate_from b (err e, cursor) = (err e, cursor)
allocate_from b (panic, cursor) = (panic, cursor)

-- `ValueIds::allocate`, with nothing between its two halves.
unfoldable pub allocate : MemoryBackend → ValueIds → Result ℕ × ValueIds
unfolding take_id allocate_from
allocate b cursor = allocate_from b (take_id cursor)

-- `ValueIds::counter_op`
unfoldable pub counter_op : ValueIds → Option Op
unfolding counter_op_for
counter_op cursor = Option.map counter_op_for cursor

unfoldable pub gc_ops : ChunkPointer → Op
gc_ops p = delete_range chunks (chunk_range p.value_id)
