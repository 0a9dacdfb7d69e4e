-- ===== src/Locker/Inner/Write.antt =====
-- `Inner::put_payload_ops`, `delete_value_ops` and `clear_value_ops`: the mutations that store, drop
-- or clear values, chunks included.
pub mod Effects
pub mod Pieces
pub mod Cases
pub mod RoundTrip
use crossbank.Prelude.{
  ℕ, zero, suc, ◌+◌, ◌^◌, Bool, true, false, Option, none, some, List, [], ◌∷◌, ◌++◌, if◌then◌else◌,
  length, ltb, ◌==◌, take, drop,
}
use crossbank.Error.{Result, ok, err, panic, backend, seqs_exhausted, ◌>>=◌}
use crossbank.Bytes.{Bytes}
use crossbank.Backend.Api.{records, chunks, Op, put, unbounded}
use crossbank.Backend.Memory.{MemoryBackend}
use crossbank.Codec.Chain.{FilterChain, seal, seal_slice}
use crossbank.Locker.Chunk.{
  ChunkPointer, encode, parse, is_pointer, chunk_key, gc_ops, ValueIds, allocate, counter_op,
}
use crossbank.Locker.Inner.{
  Inner, Prior, needs_read, encode_key, delete_op, clear_op, fetch, stores_inline,
}
use crossbank.Locker.Inner.Walk.{walk}

-- The garbage of a record that is about to be replaced. A pointer that does not parse is an error.
unfoldable pub gc_of : Option Bytes → Result (List Op)
gc_of none = ok []
gc_of (some existing) =
    if is_pointer existing then (do p ← parse existing; ok (gc_ops p ∷ [])) else ok []

unfoldable pub prior_ops : Inner → MemoryBackend → Bytes → Prior → Result (List Op)
unfolding gc_of needs_read
prior_ops i b key prior =
    if needs_read prior then (do existing ← fetch i b key; gc_of existing) else ok []

-- `payload.chunks(chunk_size)` for a chunk size above zero, in `fuel` pieces at most; a piece takes a
-- byte at least.
unfoldable pub pieces_of : ℕ → ℕ → Bytes → List Bytes
pieces_of zero n payload = []
pieces_of (suc fuel) n [] = []
pieces_of (suc fuel) n (b ∷ bs) = take n (b ∷ bs) ∷ pieces_of fuel n (drop n (b ∷ bs))

-- The library's `chunks` panics on a chunk size of zero.
unfoldable pub pieces : ℕ → Bytes → Result (List Bytes)
unfolding pieces_of
pieces n payload = if n == 0 then panic else ok (pieces_of (length payload) n payload)

-- `checked_add(1)` on the `u32` sequence number.
unfoldable pub next_seq : ℕ → Result ℕ
next_seq seq = if ltb (seq + 1) (2 ^ 32) then ok (seq + 1) else err (backend seqs_exhausted)

-- The loop over the pieces: a sealed record for each, and the number after the last.
unfoldable pub piece_ops : FilterChain → ℕ → ℕ → List Bytes → Result (List Op × ℕ)
unfolding next_seq
piece_ops c value_id seq [] = ok ([], seq)
piece_ops c value_id seq (piece ∷ rest) = do
  sealed ← seal_slice c piece
  seq' ← next_seq seq
  (ops, last) ← piece_ops c value_id seq' rest
  ok (put chunks (chunk_key value_id seq) sealed ∷ ops, last)

abbrev pub to_list : Option Op → List Op
to_list none = []
to_list (some op) = op ∷ []

-- The chunked branch, once an id is allocated; the cursor stands past the id.
unfoldable pub chunked_ops : Inner → Bytes → Bytes → ℕ → List Op → ValueIds → ℕ → Result (List Op)
unfolding piece_ops
chunked_ops i key payload flags gc cursor value_id = do
  parts ← pieces i.config.chunk_size payload
  (ops, seq) ← piece_ops i.chain value_id 0 parts
  let pointer : ChunkPointer = record {
    value_id = value_id;
    n_chunks = seq;
    total_len = length payload;
    flags = flags;
  }
  ok (
      gc
      ++ (ops ++ (put records (encode_key i key) (encode pointer) ∷ to_list (counter_op cursor))))

unfoldable pub after_allocate :
    Inner → Bytes → Bytes → ℕ → List Op → Result ℕ × ValueIds → Result (List Op) × ValueIds
unfolding chunked_ops
after_allocate i key payload flags gc (ok value_id, cursor) =
    (chunked_ops i key payload flags gc cursor value_id, cursor)
after_allocate i key payload flags gc (err e, cursor) = (err e, cursor)
after_allocate i key payload flags gc (panic, cursor) = (panic, cursor)

unfoldable pub put_after_prior :
    Inner
    → MemoryBackend
    → Bytes
    → Bytes
    → ℕ
    → ValueIds
    → Result (List Op)
    → Result (List Op) × ValueIds
unfolding after_allocate
put_after_prior i b key payload flags cursor (ok gc) =
    if stores_inline i (length payload) flags
    then (
      do sealed ← seal i.chain payload; ok (gc ++ (put records (encode_key i key) sealed ∷ [])),
      cursor,
    )
    else after_allocate i key payload flags gc (allocate b cursor)
put_after_prior i b key payload flags cursor (err e) = (err e, cursor)
put_after_prior i b key payload flags cursor panic = (panic, cursor)

unfoldable pub put_payload_ops :
    Inner → MemoryBackend → Bytes → Bytes → ℕ → Prior → ValueIds → Result (List Op) × ValueIds
unfolding put_after_prior
put_payload_ops i b key payload flags prior cursor =
    put_after_prior i b key payload flags cursor (prior_ops i b key prior)

unfoldable pub delete_value_ops : Inner → MemoryBackend → Bytes → Prior → Result (List Op)
delete_value_ops i b key prior = do gc ← prior_ops i b key prior; ok (gc ++ (delete_op i key ∷ []))

-- The visitor of `clear_value_ops`: a pointer that does not parse is passed over.
unfoldable pub gc_if_parsed : List Op → Result ChunkPointer → List Op
gc_if_parsed ops (ok p) = ops ++ (gc_ops p ∷ [])
gc_if_parsed ops (err e) = ops
gc_if_parsed ops panic = ops

unfoldable pub collect_gc : List Op → Bytes → Option Bytes → Result (List Op)
unfolding gc_if_parsed
collect_gc ops key none = ok ops
collect_gc ops key (some raw) = if is_pointer raw then ok (gc_if_parsed ops (parse raw)) else ok ops

unfoldable pub clear_value_ops : Inner → MemoryBackend → Result (List Op)
unfolding collect_gc
clear_value_ops i b = do
  ops ← walk collect_gc i b unbounded unbounded false true []
  ok (ops ++ (clear_op i ∷ []))
