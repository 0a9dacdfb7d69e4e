-- ===== src/Locker/Io/Reader.antt =====
-- src/locker/io.rs: the streaming reader, over the in-memory backend.
pub mod Whole
use crossbank.Prelude.{
  ℕ, zero, suc, ◌+◌, ◌%◌, ◌^◌, Bool, true, false, Option, none, some, List, [], ◌∷◌, ◌++◌,
  if◌then◌else◌, leb, ltb, length, take, drop,
}
use crossbank.Error.{Result, ok, err, panic, corrupt, missing_chunk, ◌>>=◌}
use crossbank.Bytes.{Bytes}
use crossbank.Backend.Api.{records, chunks, Op, put}
use crossbank.Backend.Memory
use crossbank.Backend.Memory.{MemoryBackend, commit}
use crossbank.Codec.Chain.{seal_slice, unseal}
use crossbank.Locker.Chunk.{
  ChunkPointer, encode, parse, is_pointer, chunk_key, gc_ops, flag_raw, ValueIds, allocate,
  counter_op,
}
use crossbank.Locker.Inner.{Inner, encode_key, fetch}
use crossbank.Locker.Inner.Write.{gc_of}
use crossbank.Watch
use crossbank.Watch.{Event}

pub record Reader : Type 0 where
  pub pointer : Option ChunkPointer
  pub seq : ℕ
  pub inline : Option Bytes

unfoldable pub from_pointer : ChunkPointer → Reader
from_pointer p = record { pointer = some p; seq = 0; inline = none }

unfoldable pub from_inline : Bytes → Reader
from_inline payload = record {
  pointer =
      some (record { value_id = 0; n_chunks = 0; total_len = length payload; flags = flag_raw });
  seq = 0;
  inline = some payload;
}

abbrev total_of : Option ChunkPointer → ℕ
total_of none = 0
total_of (some p) = p.total_len

-- `Reader::len`
unfoldable pub len : Reader → ℕ
len r = total_of r.pointer

-- The piece that came back: a missing one leaves the reader where it was.
unfoldable next_piece :
    Inner → Reader → ChunkPointer → Option Bytes → Result (Option Bytes) × Reader
next_piece i r p none = (err (corrupt (missing_chunk r.seq p.value_id)), r)
next_piece i r p (some sealed) =
    (unseal i.chain sealed >>= λ piece. ok (some piece), record r { seq = r.seq + 1 })

unfoldable after_get :
    Inner → Reader → ChunkPointer → Result (Option Bytes) → Result (Option Bytes) × Reader
unfolding next_piece
after_get i r p (ok v) = next_piece i r p v
after_get i r p (err e) = (err e, r)
after_get i r p panic = (panic, r)

unfoldable next_stored :
    Inner → MemoryBackend → Reader → Option ChunkPointer → Result (Option Bytes) × Reader
unfolding after_get
next_stored i b r none = (ok none, r)
next_stored i b r (some p) =
    if ltb r.seq p.n_chunks
    then after_get i r p (Memory.get b chunks (chunk_key p.value_id r.seq))
    else (ok none, r)

unfoldable next_inline :
    Inner → MemoryBackend → Reader → Option Bytes → Result (Option Bytes) × Reader
unfolding next_stored
next_inline i b r (some payload) = (ok (some payload), record r { inline = none })
next_inline i b r none = next_stored i b r r.pointer

-- `Reader::next_chunk`
unfoldable pub next_chunk : Inner → MemoryBackend → Reader → Result (Option Bytes) × Reader
unfolding next_inline
next_chunk i b r = next_inline i b r r.inline

-- `LazyLocker::reader`, on an open locker.
unfoldable reader_of : Inner → Option Bytes → Result (Option Reader)
unfolding from_pointer from_inline
reader_of i none = ok none
reader_of i (some raw) =
    if is_pointer raw
    then (do p ← parse raw; ok (some (from_pointer p)))
    else (do payload ← unseal i.chain raw; ok (some (from_inline payload)))

unfoldable pub reader : Inner → MemoryBackend → Bytes → Result (Option Reader)
unfolding reader_of
reader i b key = do raw ← fetch i b key; reader_of i raw

-- A caller that asks for pieces until there is none.
abbrev gather : Result (Option Bytes) → Result (List Bytes) → Result (List Bytes)
gather panic rest = panic
gather (err e) rest = err e
gather (ok none) rest = ok []
gather (ok (some piece)) rest = do pieces ← rest; ok (piece ∷ pieces)

unfoldable pub drained : ℕ → Inner → MemoryBackend → Reader → Result (List Bytes)
unfolding next_chunk
drained zero i b r = panic
drained (suc n) i b r =
    let step = next_chunk i b r in let rest = drained n i b step.1 in gather step.0 rest

abbrev count_of : Option ChunkPointer → ℕ
count_of none = 0
count_of (some p) = p.n_chunks

-- A call for each piece, one for an inline value and one that ends.
abbrev pub calls : Reader → ℕ
calls r = count_of r.pointer + 2
