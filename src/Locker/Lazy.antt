-- ===== src/Locker/Lazy.antt =====
-- src/locker/lazy.rs: a locker that holds the keys in memory and leaves the values in storage. A call
-- holds the write lock from its start to its end, so calls follow one another.
pub mod Values
pub mod Transact
pub mod Index
use crossbank.Prelude.{
  ℕ, Bool, true, false, ◌&&◌, Option, none, some, List, [], ◌∷◌, ◌++◌, length, map, if◌then◌else◌,
}
use crossbank.Error.{Result, ok, err, panic, Error, is_corruption}
use crossbank.Bytes.{Bytes}
use crossbank.Tree
use crossbank.Backend.Api.{Op, unbounded}
use crossbank.Backend.Memory.{MemoryBackend}
use crossbank.Watch.{Event}
use crossbank.Locker.Policy.{OnCorrupt, fail, skip, on_corrupt_eq}
use crossbank.Locker.Chunk.{flag_postcard, ValueIds}
use crossbank.Locker.Inner.{Inner, stores_inline}
use crossbank.Locker.Inner.Walk.{walk}
use crossbank.Locker.Inner.Write.{put_payload_ops, delete_value_ops, clear_value_ops}
use crossbank.Locker.Inner.Value.{Postcard, to_payload, of_view, load_value}
use crossbank.Locker.Lru.Clock.{TickState}
use crossbank.Locker.Lru.State.{LruState}
use crossbank.Locker.Transaction.{Pending, Staged, pending_of, staged_view, lazy}
use crossbank.Locker.Resident.{
  Resident, Act, KeySet, ◌>>=◌, ◌>>◌, give, modify, read, continue, note_corrupt, touch_index,
  prior, note_inline, forget_inline, is_deferred, stage, take_staged, discard_staged, ensure_open,
  mark_closed, announce, commit, with_values,
}
use crossbank.Locker.Resident.Budget
use crossbank.Locker.Resident.Budget.{Budget, budget_ops, apply_budget, note_read, open_lru_for}
use crossbank.Locker.Resident.Flush
use crossbank.Locker.Resident.Flush.{
  commit_entries, or_restage, flush_locked, flush_backend, and_result,
}

-- The visitor of `open`: keys only.
unfoldable pub collect_key : KeySet → Bytes → Option Bytes → Result KeySet
collect_key index key value = ok (Tree.insert key tt index)

abbrev pub opened_with :
    Inner → MemoryBackend → ValueIds → TickState → KeySet → Option LruState → Resident
opened_with i b values ticks index lru = record {
  inner = i;
  mode = lazy;
  backend = b;
  values = values;
  ticks = ticks;
  is_closed = false;
  is_name_shared = false;
  is_deaf = false;
  announced = [];
  index = some index;
  lru = lru;
  staged = [];
  known_inline = some [];
  corrupt = [];
  dropped = [];
}

unfoldable pub opened :
    Inner
    → MemoryBackend
    → ValueIds
    → KeySet
    → Result (Option LruState) × TickState
    → Result Resident × TickState
opened i b values index (ok lru, ticks) = (ok (opened_with i b values ticks index lru), ticks)
opened i b values index (err e, ticks) = (err e, ticks)
opened i b values index (panic, ticks) = (panic, ticks)

unfoldable open_on :
    Inner → MemoryBackend → ValueIds → TickState → Result KeySet → Result Resident × TickState
unfolding opened
open_on i b values ticks (ok index) =
    opened i b values index (open_lru_for i.config.policy b i.id index ticks)
open_on i b values ticks (err e) = (err e, ticks)
open_on i b values ticks panic = (panic, ticks)

-- `open`, natively.
unfoldable pub open_locker :
    Inner → MemoryBackend → ValueIds → TickState → Result Resident × TickState
unfolding open_on collect_key
open_locker i b values ticks =
    open_on i b values ticks (walk collect_key i b unbounded unbounded false false [])

-- What a put that landed shows: the index, the marker, the budget, the event.
unfoldable pub after_put : Bytes → Bool → Budget → Resident → Resident
after_put key is_inline budget r =
    announce (Event.put key)
      (apply_budget budget (note_inline key is_inline (touch_index (Tree.insert key tt) r)))

unfoldable pub after_delete : Bytes → Budget → Resident → Resident
after_delete key budget r =
    announce (Event.deleted key)
      (apply_budget budget (note_inline key false (touch_index (Tree.remove key) r)))

unfoldable pub after_clear : Budget → Resident → Resident
after_clear budget r =
    announce Event.cleared (apply_budget budget (forget_inline (touch_index (λ _. []) r)))

-- A staged write: what it shows at once, and a flush where the batch is full.
unfoldable pub stage_and : Pending → (Resident → Resident) → Act (Unit {0})
stage_and entry show = do
  is_full ← stage entry
  modify show
  if is_full then flush_locked else give (ok tt)

unfoldable pub put_deferred : Bytes → Bytes → Act (Unit {0})
unfolding stage_and
put_deferred key payload =
    stage_and (Pending.put key payload)
      (λ r. announce (Event.put key) (note_inline key false (touch_index (Tree.insert key tt) r)))

unfoldable pub put_now : Bytes → Bytes → Act (Unit {0})
unfolding after_put
put_now key payload = do
  r ← read (λ r. r)
  ops ←
      with_values
        (λ b values. put_payload_ops r.inner b key payload flag_postcard (prior r key) values)
  (more, budget) ←
      budget_ops
        (record { updates = (key, length payload) ∷ []; removals = []; is_cleared = false })
        (key ∷ [])
  commit (ops ++ more)
  modify (after_put key (stores_inline r.inner (length payload) flag_postcard) budget)

unfoldable pub put_payload : Bytes → Bytes → Act (Unit {0})
unfolding put_deferred put_now
put_payload key payload r =
    if is_deferred r then put_deferred key payload r else put_now key payload r

unfoldable pub delete_deferred : Bytes → Act (Unit {0})
unfolding stage_and
delete_deferred key =
    stage_and (Pending.delete key)
      (λ r. announce (Event.deleted key) (note_inline key false (touch_index (Tree.remove key) r)))

unfoldable pub delete_now : Bytes → Act (Unit {0})
unfolding after_delete
delete_now key = do
  r ← read (λ r. r)
  ops ← give (delete_value_ops r.inner r.backend key (prior r key))
  (more, budget) ← budget_ops (record { updates = []; removals = key ∷ []; is_cleared = false }) []
  commit (ops ++ more)
  modify (after_delete key budget)

-- `delete_by`
unfoldable pub delete_by : Bytes → Act (Unit {0})
unfolding delete_deferred delete_now
delete_by key = do
  ensure_open
  r ← read (λ r. r)
  if is_deferred r then delete_deferred key else delete_now key

unfoldable pub clear_deferred : Act (Unit {0})
unfolding stage_and
clear_deferred =
    stage_and Pending.clear (λ r. announce Event.cleared (forget_inline (touch_index (λ _. []) r)))

unfoldable pub clear_now : Act (Unit {0})
unfolding after_clear
clear_now = do
  r ← read (λ r. r)
  ops ← give (clear_value_ops r.inner r.backend)
  (more, budget) ← budget_ops (record { updates = []; removals = []; is_cleared = true }) []
  commit (ops ++ more)
  modify (after_clear budget)

-- `clear`
unfoldable pub clear_locker : Act (Unit {0})
unfolding clear_deferred clear_now
clear_locker = do
  ensure_open
  r ← read (λ r. r)
  if is_deferred r then clear_deferred else clear_now

-- `flush`
unfoldable pub flush_all : Act (Unit {0})
flush_all r =
    let staged = Flush.flush r in
    let forced = flush_backend staged.1 in (and_result staged.0 forced.0, forced.1)

unfoldable pub discard_if : Result (Unit {0}) → Resident → Resident
discard_if (ok _) r = discard_staged r
discard_if (err e) r = r
discard_if panic r = r

-- `close`: it closes even if the flush fails, and discards the batch only if it landed.
unfoldable pub close : Act (Unit {0})
unfolding discard_if
close r =
    let flushed = Flush.flush r in
    let forced = flush_backend (discard_if flushed.0 flushed.1) in
    let r' = (mark_closed forced.1).1 in
    (and_result flushed.0 forced.0, forget_inline (touch_index (λ _. []) r'))

-- `evict_to`
unfoldable pub evict_to : ℕ → Act ℕ
evict_to bytes = do ensure_open; Budget.evict_to bytes

abbrev held_keys : Option KeySet → List Bytes
held_keys none = []
held_keys (some keys) = Tree.keys keys

unfoldable pub keys_bytes : Resident → List Bytes
keys_bytes r = held_keys r.index

unfoldable pub len : Resident → ℕ
unfolding keys_bytes
len r = length (keys_bytes r)
