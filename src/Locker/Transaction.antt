-- ===== src/Locker/Transaction.antt =====
-- src/locker/transaction.rs: a write-set staged in memory, and the mutations that it becomes. The lock
-- on the staged list is never poisoned.
pub mod View
pub mod Lands
pub mod Actions
pub mod WriteSet
use crossbank.Prelude.{
  ℕ, Bool, true, false, Option, none, some, List, [], ◌∷◌, ◌++◌, if◌then◌else◌, length, ltb, map,
}
use crossbank.Error.{Result, ok, err, panic, value_too_large, ◌>>=◌}
use crossbank.Bytes.{Bytes, bytes_eq}
use crossbank.Tree
use crossbank.Tree.{Tree}
use crossbank.Backend.Api.{records, Op}
use crossbank.Backend.Memory.{MemoryBackend}
use crossbank.Codec.Chain.{seal_slice}
use crossbank.Locker.Chunk.{parse, is_pointer, flag_postcard, ValueIds}
use crossbank.Locker.Inner.{Inner, unknown, encode_key, fetch}
use crossbank.Locker.Inner.Value.{Postcard, to_payload, of_view, load_value}
use crossbank.Locker.Inner.Read.{load_payload}
use crossbank.Locker.Inner.Write.{put_payload_ops, delete_value_ops, clear_value_ops, gc_if_parsed}

pub data TxMode : Type 0 where
  eager lazy : TxMode

-- One write that waits for a commit: `Pending` of src/locker/resident.rs, which `Item` borrows.
pub data Pending : Type 0 where
  put : Bytes → Bytes → Pending
  delete : Bytes → Pending
  clear : Pending

-- One mutation that a transaction has staged: a put has its payload and the value itself.
pub data Staged (T : Type 0) : Type 0 where
  put : Bytes → Bytes → T → Staged T
  delete : Bytes → Staged T
  clear : Staged T

-- The same mutation without the value, as `merge_batches` makes it.
unfoldable pub pending_of : {T : Type 0} → Staged T → Pending
pending_of (Staged.put key payload value) = Pending.put key payload
pending_of (Staged.delete key) = Pending.delete key
pending_of Staged.clear = Pending.clear

-- What one entry says of a key: `none` is an entry about another key.
unfoldable pub entry_view : Bytes → Pending → Option (Option Bytes)
entry_view key (Pending.put k payload) = if bytes_eq k key then some (some payload) else none
entry_view key (Pending.delete k) = if bytes_eq k key then some none else none
entry_view key Pending.clear = some none

unfoldable pub or_view : Option (Option Bytes) → Option (Option Bytes) → Option (Option Bytes)
or_view none earlier = earlier
or_view (some v) earlier = some v

-- `staged_view`: the last entry about a key decides.
unfoldable pub staged_view : Bytes → List Pending → Option (Option Bytes)
unfolding entry_view or_view
staged_view key [] = none
staged_view key (e ∷ es) = or_view (staged_view key es) (entry_view key e)

module _ {T : Type 0} (postcard : Postcard T) where
  -- Staged entries first, then storage.
  unfoldable read_through :
      Inner → MemoryBackend → Bytes → Option (Option Bytes) → Result (Option T)
  read_through i b key (some view) = of_view postcard view
  read_through i b key none = load_value postcard i b key

  -- `put_by`, `delete_by` and `clear`; a value is serialized at once.
  unfoldable pub put_by : List (Staged T) → Bytes → T → Result (List (Staged T))
  put_by staged key value = do
    payload ← to_payload postcard value
    ok (staged ++ (Staged.put key payload value ∷ []))

  unfoldable pub delete_by : List (Staged T) → Bytes → List (Staged T)
  delete_by staged key = staged ++ (Staged.delete key ∷ [])

  unfoldable clear_all : List (Staged T) → List (Staged T)
  clear_all staged = staged ++ (Staged.clear ∷ [])

  unfoldable pub get_by : Inner → MemoryBackend → List (Staged T) → Bytes → Result (Option T)
  unfolding staged_view read_through
  get_by i b staged key = read_through i b key (staged_view key (map pending_of staged))

unfoldable pub is_clear : Pending → Bool
is_clear (Pending.put k payload) = false
is_clear (Pending.delete k) = false
is_clear Pending.clear = true

-- What stands after the last clear, where there is a clear.
unfoldable pub after_clear : List Pending → Option (List Pending)
unfolding is_clear
after_clear [] = none
after_clear (e ∷ es) = elim (after_clear es) [
  | some tail ↦ some tail
  | none ↦ if is_clear e then some es else none
]

pub data Action : Type 0 where
  put : Bytes → Action
  delete : Action

unfoldable pub act : Tree Action → Pending → Tree Action
act t (Pending.put key payload) = Tree.insert key (Action.put payload) t
act t (Pending.delete key) = Tree.insert key Action.delete t
act t Pending.clear = t

-- The last action for each key.
unfoldable pub actions : Tree Action → List Pending → Tree Action
unfolding act
actions t [] = t
actions t (e ∷ es) = actions (act t e) es

-- The garbage of whatever an eager put replaces; a pointer that does not parse is passed over.
unfoldable pub eager_gc : Option Bytes → List Op
unfolding gc_if_parsed
eager_gc none = []
eager_gc (some existing) = if is_pointer existing then gc_if_parsed [] (parse existing) else []

unfoldable pub eager_put_ops : Inner → MemoryBackend → Bytes → Bytes → Result (List Op)
unfolding eager_gc
eager_put_ops i b key payload = do
  sealed ← seal_slice i.chain payload
  if ltb i.config.max_inline (length sealed)
      then err (value_too_large (length sealed) i.config.max_inline)
      else (do
        existing ← fetch i b key
        ok (eager_gc existing ++ (Op.put records (encode_key i key) sealed ∷ [])))

unfoldable pub action_ops :
    Inner → MemoryBackend → TxMode → Bytes → Action → ValueIds → Result (List Op) × ValueIds
unfolding eager_put_ops
action_ops i b mode key Action.delete cursor = (delete_value_ops i b key unknown, cursor)
action_ops i b lazy key (Action.put payload) cursor =
    put_payload_ops i b key payload flag_postcard unknown cursor
action_ops i b eager key (Action.put payload) cursor = (eager_put_ops i b key payload, cursor)

-- The mutations so far are done with; the rest goes behind them.
unfoldable pub and_then :
    Result (List Op) × ValueIds
    → (ValueIds → Result (List Op) × ValueIds)
    → Result (List Op) × ValueIds
and_then (ok ops, cursor) next =
    let (rest, cursor') = next cursor in ((do more ← rest; ok (ops ++ more)), cursor')
and_then (err e, cursor) next = (err e, cursor)
and_then (panic, cursor) next = (panic, cursor)

-- The loop over the actions, in key order.
unfoldable pub actions_ops :
    Inner → MemoryBackend → TxMode → Tree Action → ValueIds → Result (List Op) × ValueIds
unfolding action_ops and_then
actions_ops i b mode [] cursor = (ok [], cursor)
actions_ops i b mode ((key, a) ∷ rest) cursor =
    and_then (action_ops i b mode key a cursor) (actions_ops i b mode rest)

unfoldable pub ops_after :
    Inner
    → MemoryBackend
    → TxMode
    → List Pending
    → Option (List Pending)
    → ValueIds
    → Result (List Op) × ValueIds
unfolding actions_ops actions
ops_after i b mode staged none cursor = actions_ops i b mode (actions [] staged) cursor
ops_after i b mode staged (some tail) cursor =
    and_then (clear_value_ops i b, cursor) (actions_ops i b mode (actions [] tail))

-- `ops_for_items`
unfoldable pub ops_for_items :
    Inner → MemoryBackend → List Pending → TxMode → ValueIds → Result (List Op) × ValueIds
unfolding ops_after after_clear
ops_for_items i b staged mode cursor = ops_after i b mode staged (after_clear staged) cursor
