-- ===== src/Locker/Inner/Read.antt =====
-- `Inner::read_chunks` and `Inner::load_payload`: a stored record back to its payload.
pub mod Groups
use crossbank.Prelude.{
  ℕ, zero, suc, ◌+◌, ◌-◌, min, Bool, true, false, Option, none, some, List, [], ◌∷◌, ◌++◌, map,
  if◌then◌else◌, length, ltb, ◌==◌,
}
use crossbank.Error.{
  Result, ok, err, panic, corrupt, missing_chunk, overlong_value, wrong_length, ◌>>=◌,
}
use crossbank.Bytes.{Bytes}
use crossbank.Backend.Api.{chunks}
use crossbank.Backend.Memory
use crossbank.Backend.Memory.{MemoryBackend}
use crossbank.Codec.Chain.{FilterChain, unseal}
use crossbank.Locker.Chunk.{ChunkPointer, parse, is_pointer, chunk_key}
use crossbank.Locker.Inner.{Inner}

abbrev pub chunk_fetch_group : ℕ
chunk_fetch_group = 64

-- The sequence numbers `seq..seq + n`.
unfoldable pub seq_range : ℕ → ℕ → List ℕ
seq_range seq zero = []
seq_range seq (suc n) = seq ∷ seq_range (seq + 1) n

-- The keys of a group, and the loop over the pieces that came back for them.
unfoldable pub group_keys : ChunkPointer → ℕ → ℕ → List Bytes
unfolding seq_range
group_keys p seq n = map (λ s. chunk_key p.value_id s) (seq_range seq n)

unfoldable pub append_piece : FilterChain → ChunkPointer → Bytes → Bytes → Result Bytes
append_piece c p out sealed = do
  piece ← unseal c sealed
  let grown = out ++ piece
  if ltb p.total_len (length grown)
      then err (corrupt (overlong_value p.total_len (length grown)))
      else ok grown

unfoldable pub append_pieces :
    FilterChain → ChunkPointer → ℕ → Bytes → List (Option Bytes) → Result Bytes
unfolding append_piece
append_pieces c p seq out [] = ok out
append_pieces c p seq out (none ∷ rest) = err (corrupt (missing_chunk seq p.value_id))
append_pieces c p seq out (some sealed ∷ rest) = do
  out' ← append_piece c p out sealed
  append_pieces c p (seq + 1) out' rest

-- `while seq < pointer.n_chunks`: one `get_many` for each group of pieces. The saturating sum of the
-- source is capped by `n_chunks`, a `u32`, all the same. A round takes one piece at least, so
-- `n_chunks` rounds are enough; running out of them reads as a panic.
unfoldable pub read_groups :
    ℕ → FilterChain → MemoryBackend → ChunkPointer → ℕ → Bytes → Result Bytes
read_groups zero c b p seq out = if ltb seq p.n_chunks then panic else ok out
read_groups (suc rounds) c b p seq out = elim (ltb seq p.n_chunks) [
  | true ↦ do
    let upto = min (seq + chunk_fetch_group) p.n_chunks
    sealed ← Memory.get_many b chunks (group_keys p seq (upto - seq))
    out' ← append_pieces c p seq out sealed
    read_groups rounds c b p upto out'
  | false ↦ ok out
]

unfoldable pub check_total : ChunkPointer → Bytes → Result Bytes
check_total p out =
    if length out == p.total_len
    then ok out
    else err (corrupt (wrong_length p.total_len (length out)))

unfoldable pub read_chunks : Inner → MemoryBackend → ChunkPointer → Result Bytes
unfolding check_total
read_chunks i b p = do out ← read_groups p.n_chunks i.chain b p 0 []; check_total p out

unfoldable pub load_payload : Inner → MemoryBackend → Bytes → Result Bytes
load_payload i b stored =
    if is_pointer stored then (do p ← parse stored; read_chunks i b p) else unseal i.chain stored
