-- ===== src/Locker/Io.antt =====
-- src/locker/io.rs: the streaming writer of large values, over the in-memory backend. A
-- call that fails says nothing of the writer after it.
pub mod Reader
pub mod Garbage
pub mod Stream
pub mod Finish
pub mod Streamed
use crossbank.Prelude.{
  ℕ, zero, suc, ◌+◌, ◌%◌, ◌^◌, Bool, true, false, Option, none, some, List, [], ◌∷◌, ◌++◌,
  if◌then◌else◌, leb, ltb, length, take, drop,
}
use crossbank.Error.{Result, ok, err, panic, corrupt, missing_chunk, ◌>>=◌}
use crossbank.Bytes.{Bytes}
use crossbank.Backend.Api.{records, chunks, Op, put}
use crossbank.Backend.Memory
use crossbank.Backend.Memory.{MemoryBackend, commit}
use crossbank.Codec.Chain.{seal_slice, unseal}
use crossbank.Locker.Chunk.{
  ChunkPointer, encode, parse, is_pointer, chunk_key, gc_ops, flag_raw, ValueIds, allocate,
  counter_op,
}
use crossbank.Locker.Inner.{Inner, encode_key, fetch}
use crossbank.Locker.Inner.Write.{gc_of}
use crossbank.Watch
use crossbank.Watch.{Event}

pub record Writer : Type 0 where
  pub key : Bytes
  pub value_id : ℕ
  pub seq : ℕ
  pub total_len : ℕ
  pub buf : Bytes

abbrev new_writer : Bytes → ℕ → Writer
new_writer key value_id = record {
  key = key;
  value_id = value_id;
  seq = 0;
  total_len = 0;
  buf = [];
}

-- The commit of the counter, where the cursor has one.
unfoldable pub commit_counter : MemoryBackend → Option Op → Result MemoryBackend
commit_counter b none = ok b
commit_counter b (some op) = commit b (op ∷ [])

unfoldable pub start_from :
    MemoryBackend → Bytes → Result ℕ × ValueIds → Result (MemoryBackend × Writer) × ValueIds
unfolding commit_counter
start_from b key (ok id, cursor) =
    (commit_counter b (counter_op cursor) >>= λ b'. ok (b', new_writer key id), cursor)
start_from b key (err e, cursor) = (err e, cursor)
start_from b key (panic, cursor) = (panic, cursor)

-- `Writer::start`
unfoldable pub start : MemoryBackend → Bytes → ValueIds → Result (MemoryBackend × Writer) × ValueIds
unfolding start_from
start b key cursor = start_from b key (allocate b cursor)

-- `Writer::flush_piece`; the number wraps as a `u32` does.
unfoldable pub flush_piece :
    Inner → MemoryBackend → Writer → Bytes → Result (MemoryBackend × Writer)
flush_piece i b w piece = do
  sealed ← seal_slice i.chain piece
  b' ← commit b (put chunks (chunk_key w.value_id w.seq) sealed ∷ [])
  ok (b', record w { seq = (w.seq + 1) % 2 ^ 32 })

-- `while self.buf.len() >= chunk_size`. A round takes a chunk off the buffer, so one round for each
-- byte and a last one are enough where the chunk size is above zero; where it is zero the loop does not
-- end, and running out of rounds stands for that.
unfoldable pub flush_full : ℕ → Inner → MemoryBackend → Writer → Result (MemoryBackend × Writer)
unfolding flush_piece
flush_full zero i b w = panic
flush_full (suc fuel) i b w = elim (leb i.config.chunk_size (length w.buf)) [
  | true ↦ do
    (b', w') ←
        flush_piece i b (record w { buf = drop i.config.chunk_size w.buf })
          (take i.config.chunk_size w.buf)
    flush_full fuel i b' w'
  | false ↦ ok (b, w)
]

-- `Writer::write_chunk`
unfoldable pub write_chunk :
    Inner → MemoryBackend → Writer → Bytes → Result (MemoryBackend × Writer)
unfolding flush_full
write_chunk i b w bytes =
    flush_full (length (w.buf ++ bytes) + 1) i b
      (record w { buf = w.buf ++ bytes; total_len = (w.total_len + length bytes) % 2 ^ 64 })

-- What `finish` leaves: the backend, and what it tells the locker's index and its watchers.
pub record Published : Type 0 where
  pub backend : MemoryBackend
  pub indexed : Bytes
  pub is_inline : Bool
  pub announced : Event

unfoldable pub flush_rest : Inner → MemoryBackend → Writer → Bytes → Result (MemoryBackend × Writer)
flush_rest i b w [] = ok (b, w)
flush_rest i b w (x ∷ xs) = flush_piece i b (record w { buf = [] }) (x ∷ xs)

abbrev pub pointer_of : Writer → ChunkPointer
pointer_of w = record {
  value_id = w.value_id;
  n_chunks = w.seq;
  total_len = w.total_len;
  flags = flag_raw;
}

-- `Writer::finish`
unfoldable pub finish : Inner → MemoryBackend → Writer → Result Published
unfolding flush_rest
finish i b w = do
  (b', w') ← flush_rest i b w w.buf
  existing ← fetch i b' w'.key
  gc ← gc_of existing
  b'' ← commit b' (gc ++ (put records (encode_key i w'.key) (encode (pointer_of w')) ∷ []))
  ok (record { backend = b''; indexed = w'.key; is_inline = false; announced = Watch.put w'.key })

-- `Writer::abort`
unfoldable abort : MemoryBackend → Writer → Result MemoryBackend
abort b w = commit b (gc_ops (record (pointer_of w) { total_len = 0 }) ∷ [])
