-- ===== src/Locker/Inner.antt =====
-- src/locker/inner.rs: what the eager and the lazy locker share, over the in-memory backend. The
-- page size of the backend is a field, so that a scan of any page size is covered.
pub mod Walk
pub mod Read
pub mod Write
pub mod Value
use crossbank.Prelude.{
  ℕ, ◌+◌, Bool, true, false, ◌&&◌, Option, none, some, List, [], ◌∷◌, ◌++◌, leb, ◌==◌,
  if◌then◌else◌,
}
use crossbank.Error.{Result, ok, err, ◌>>=◌}
use crossbank.Bytes.{Bytes}
use crossbank.Backend.Api.{records, chunks, Op, put, delete, delete_range}
use crossbank.Backend.Memory
use crossbank.Backend.Memory.{MemoryBackend}
use crossbank.Key
use crossbank.Key.{LockerId, locker_range}
use crossbank.Codec.Chain.{FilterChain}
use crossbank.Locker.Policy.{LockerConfig}
use crossbank.Locker.Chunk.{flag_postcard}

-- What a caller already knows of the record under a key.
pub data Prior : Type 0 where
  unknown absent inline : Prior

unfoldable pub needs_read : Prior → Bool
needs_read unknown = true
needs_read absent = false
needs_read inline = false

pub record Inner : Type 0 where
  pub id : LockerId
  pub chain : FilterChain
  pub config : LockerConfig
  pub scan_page : ℕ

abbrev pub encode_key : Inner → Bytes → Bytes
encode_key i key = Key.encode_bytes i.id key

unfoldable pub delete_op : Inner → Bytes → Op
delete_op i key = delete records (encode_key i key)

unfoldable pub clear_op : Inner → Op
clear_op i = delete_range records (locker_range i.id)

unfoldable pub fetch : Inner → MemoryBackend → Bytes → Result (Option Bytes)
fetch i b key = Memory.get b records (encode_key i key)

unfoldable pub stores_inline : Inner → ℕ → ℕ → Bool
stores_inline i payload_len flags = leb payload_len i.config.chunk_size && flags == flag_postcard
