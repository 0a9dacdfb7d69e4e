-- ===== src/Locker/Lru/Clearing.antt =====
-- `clear_op` of src/locker/lru.rs: what a clear of a locker's accounting takes from storage.
use crossbank.Prelude.{◌≡◌, refl, ap, ◌∙◌, arith, false, none, [], ◌∷◌, ◌==◌, if◌then◌else◌}
use crossbank.Error.{ok}
use crossbank.Bytes.{Bytes, IsBytes, starts_with}
use crossbank.Backend.Api.{meta, records, chunks, contains, prefix}
use crossbank.Backend.Api.Ranges.{contains-prefix}
use crossbank.Backend.Memory.{MemoryBackend, commit}
use crossbank.Backend.Memory.Refines.{value_at}
use crossbank.Key.{LockerId}
use crossbank.Key.Laws.{IsId}
use crossbank.Locker.Chunk.{meta_next_value_id}
use crossbank.Locker.Inner.Write.Effects.{commit-ok}
use crossbank.Locker.Lru.Entries.{
  meta_next_tick, locker_prefix, locker_prefix-IsBytes, entry_key, clear_op, contains-entry_key,
}

-- The rows of one locker are gone; those of the others, both counters and the other tables are kept.
abbrev pub Clears : LockerId → MemoryBackend → MemoryBackend → Type 0
Clears id b b' =
    ((other : LockerId) (k : Bytes)
      → IsId other
      → IsBytes k
      → value_at b'.tables meta (entry_key other k)
        ≡ (if id == other then none else value_at b.tables meta (entry_key other k)))
    × (value_at b'.tables meta meta_next_tick ≡ value_at b.tables meta meta_next_tick)
    × (value_at b'.tables meta meta_next_value_id ≡ value_at b.tables meta meta_next_value_id)
    × ((k : Bytes) → value_at b'.tables records k ≡ value_at b.tables records k)
    × ((k : Bytes) → value_at b'.tables chunks k ≡ value_at b.tables chunks k)

-- A row of a locker begins with "lru::".
no_row :
    (id : LockerId) (key : Bytes)
    → IsBytes key
    → starts_with (b'l' ∷ []) key ≡ false
    → contains (prefix (locker_prefix id)) key ≡ false
unfolding locker_prefix starts_with
no_row id [] kb h = contains-prefix (locker_prefix id) [] (locker_prefix-IsBytes id) kb ∙ refl
no_row id (x ∷ xs) kb h =
    contains-prefix (locker_prefix id) (x ∷ xs) (locker_prefix-IsBytes id) kb ∙ ground arith

-- Committing the clear of a locker's accounting takes every row of that locker, and no row of
-- another: the rows of the others, the stored counters of ticks and of value ids, the records and
-- the chunks are as before. The ids of the lockers fit a u32 and the keys are byte strings.
pub commit-clear_op :
    (b b' : MemoryBackend) (id : LockerId)
    → IsId id
    → commit b (clear_op id ∷ []) ≡ ok b'
    → Clears id b b'
unfolding clear_op starts_with
commit-clear_op b b' id small c =
    let at = (commit-ok b b' (clear_op id ∷ []) c).1 in
    let outside : (key : Bytes)
        → contains (prefix (locker_prefix id)) key ≡ false
        → value_at b'.tables meta key ≡ value_at b.tables meta key =
      λ key h. at meta key ∙ rw h refl in
    (
      λ other k j kb.
          at meta (entry_key other k)
          ∙ ap (λ own. if own then none else value_at b.tables meta (entry_key other k))
              (contains-entry_key id other k small j kb),
      outside meta_next_tick (no_row id meta_next_tick (omega arith) refl),
      outside meta_next_value_id (no_row id meta_next_value_id (omega arith) refl),
      λ k. at records k,
      λ k. at chunks k,
    )
