-- ===== src/Locker/Lazy/Index.antt =====
-- The key index and the inline markers of a lazy locker.
pub mod Changes
pub mod Settled
pub mod Puts
pub mod Writes
pub mod Batches
pub mod Steps
pub mod Priors
pub mod Opened
use crossbank.Prelude.{◌≡◌, Bool, true, false, Option, none, some, List, []}
use crossbank.Bytes.{Bytes, IsBytes}
use crossbank.Backend.Api.{records}
use crossbank.Backend.Memory.Refines.{value_at}
use crossbank.Locker.Inner.{encode_key}
use crossbank.Locker.Chunk.{is_pointer}
use crossbank.Locker.Lru.State.{contains_key}
use crossbank.Locker.Transaction.{TxMode, lazy, staged_view}
use crossbank.Locker.Resident.{Resident, KeySet, is_some, holds_key, is_deferred}

abbrev pub record_at : Resident → Bytes → Option Bytes
record_at r key = value_at r.backend.tables records (encode_key r.inner key)

-- Whether a key has a value, by what is staged for it and by what is there without.
abbrev pub over : Option (Option Bytes) → Bool → Bool
over none there = there
over (some view) there = is_some view

-- The index holds the keys that have a value, the staged writes counted.
abbrev Tells : Resident → KeySet → Type 0
Tells r keys =
    (key : Bytes)
    → IsBytes key
    → contains_key keys key ≡ over (staged_view key r.staged) (is_some (record_at r key))

-- A key that is marked has a record that is no pointer, and nothing is staged for it.
abbrev Marks : Resident → Type 0
Marks r =
    (key : Bytes)
    → IsBytes key
    → holds_key key r.known_inline ≡ true
    → (staged_view key r.staged ≡ none)
      × (raw : Bytes) × (record_at r key ≡ some raw)
      × (is_pointer raw ≡ false)

-- What holds of an open lazy locker between calls; it has no byte budget.
pub record IsTrue (r : Resident) : Type 0 where
  pub unbudgeted : r.lru ≡ none
  pub lazily : r.mode ≡ lazy
  pub prompt : is_deferred r ≡ false → r.staged ≡ []
  pub keys : KeySet
  pub is_index : r.index ≡ some keys
  pub tells : Tells r keys
  pub marks : Marks r
