-- ===== src/Locker/Eager.antt =====
-- src/locker/eager.rs: a locker that holds its values in memory, over the state that it shares with the
-- lazy one. A call holds the locks from its start to its end, and they are never poisoned.
pub mod Opening
pub mod Puts
pub mod Sink
pub mod Mirror
use crossbank.Prelude.{
  ℕ, ◌+◌, ◌-◌, ◌^◌, min, Bool, true, false, not, ◌&&◌, ◌||◌, Option, none, some, List, [], ◌∷◌,
  ◌++◌, length, ltb, map, if◌then◌else◌,
}
use crossbank.Error.{
  Result, ok, err, panic, Error, is_corruption, corrupt, omitted_value, invalid_config,
  locker_too_large, value_too_large,
}
use crossbank.Bytes.{Bytes}
use crossbank.Tree
use crossbank.Tree.{Tree}
use crossbank.Backend.Api.{records, Op, unbounded}
use crossbank.Backend.Memory.{MemoryBackend}
use crossbank.Watch.{Event}
use crossbank.Locker.Policy.{OnCorrupt, fail, skip, on_corrupt_eq, Policy, precious, evictable}
use crossbank.Locker.Chunk.{ValueIds}
use crossbank.Locker.Inner.{Inner, encode_key, delete_op, clear_op}
use crossbank.Locker.Inner.Walk.{walk}
use crossbank.Locker.Inner.Value.{Postcard, to_payload, encode_value, decode_value}
use crossbank.Locker.Lru.Clock.{TickState}
use crossbank.Locker.Lru.State.{contains_key}
use crossbank.Locker.Transaction.{Pending, Staged, ops_for_items, eager}
use crossbank.Locker.Epochs
use crossbank.Locker.Epochs.{Epochs}
use crossbank.Locker.Resident
use crossbank.Locker.Resident.{
  Resident, Act, note_corrupt, stored_but_unheld, forget_dropped, forget_all_dropped,
  index_is_authoritative, is_deferred, restage, discard_staged,
}
use crossbank.Locker.Resident.Flush
use crossbank.Locker.Resident.Flush.{flush_locked, flush_backend, and_result}
use crossbank.Locker.Lazy.{discard_if}
use crossbank.Locker.Lazy.Transact.{event_of, merge_batches}

-- `Locker<T>`: the shared state and the values held.
pub record Locker (T : Type 0) : Type 0 where
  pub res : Resident
  pub values : Tree T
  pub epochs : Epochs

abbrev pub Call : Type 0 → Type 0 → Type 0
Call T A = Locker T → Result A × Locker T

abbrev pub put_event : Bytes → Resident → Resident
put_event key r = Resident.announce (Event.put key) r

-- A deletion is announced if the locker held the key.
abbrev pub delete_event : Bool → Bytes → Resident → Resident
delete_event held key r = if held then Resident.announce (Event.deleted key) r else r

module _ {T : Type 0} where
  abbrev pub follow : {A B : Type 0} → Result A × Locker T → (A → Call T B) → Result B × Locker T
  follow (ok a, l) next = next a l
  follow (err e, l) next = (err e, l)
  follow (panic, l) next = (panic, l)

  infixl 5 ◌>>=◌ ◌>>◌
  abbrev pub ◌>>=◌ : {A B : Type 0} → Call T A → (A → Call T B) → Call T B
  ◌>>=◌ m next l = follow (m l) next

  abbrev pub ◌>>◌ : {B : Type 0} → Call T (Unit {0}) → Call T B → Call T B
  m >> next = m >>= λ _. next

  abbrev pub give : {A : Type 0} → Result A → Call T A
  give result l = (result, l)

  abbrev pub read : {A : Type 0} → (Locker T → A) → Call T A
  read look l = (ok (look l), l)

  -- A call on the shared state.
  abbrev pub shared : {A : Type 0} → Act A → Call T A
  shared act l = let (result, res) = act l.res in (result, record l { res = res })

  abbrev pub change_values : (Tree T → Tree T) → Call T (Unit {0})
  change_values change l = (ok tt, record l { values = change l.values })

  abbrev pub change_shared : (Resident → Resident) → Call T (Unit {0})
  change_shared change l = (ok tt, record l { res = change l.res })

  -- `holds`
  unfoldable pub holds : Locker T → Bytes → Bool
  holds l key = if contains_key l.values key then true else stored_but_unheld l.res key

  abbrev pub flush_if : Bool → Call T (Unit {0})
  flush_if full = if full then shared flush_locked else give (ok tt)

  unfoldable pub delete_deferred : Bool → Bytes → Call T (Unit {0})
  delete_deferred held key = do
    full ← shared (Resident.stage (Pending.delete key))
    change_values (Tree.remove key)
    change_shared (forget_dropped key)
    change_shared (delete_event held key)
    flush_if full

  unfoldable pub delete_now : Bool → Bytes → Call T (Unit {0})
  delete_now held key = do
    l ← read (λ l. l)
    shared (Resident.commit (delete_op l.res.inner key ∷ []))
    change_values (Tree.remove key)
    change_shared (forget_dropped key)
    change_shared (delete_event held key)

  -- `delete_by`: a key that the locker can prove absent costs nothing.
  unfoldable pub delete_by : Bytes → Call T (Unit {0})
  unfolding holds delete_deferred delete_now
  delete_by key = do
    shared Resident.ensure_open
    l ← read (λ l. l)
    let held = holds l key
    if not held && index_is_authoritative l.res
        then give (ok tt)
        else if is_deferred l.res
        then delete_deferred held key
        else delete_now held key

  unfoldable pub clear_deferred : Call T (Unit {0})
  clear_deferred = do
    full ← shared (Resident.stage Pending.clear)
    change_values (λ _. [])
    change_shared forget_all_dropped
    change_shared (Resident.announce Event.cleared)
    flush_if full

  unfoldable pub clear_now : Call T (Unit {0})
  clear_now = do
    l ← read (λ l. l)
    shared (Resident.commit (clear_op l.res.inner ∷ []))
    change_values (λ _. [])
    change_shared forget_all_dropped
    change_shared (Resident.announce Event.cleared)

  -- `clear`
  unfoldable pub clear_locker : Call T (Unit {0})
  unfolding clear_deferred clear_now
  clear_locker = do
    shared Resident.ensure_open
    l ← read (λ l. l)
    if is_deferred l.res then clear_deferred else clear_now

  -- `flush`
  unfoldable pub flush_all : Call T (Unit {0})
  flush_all l =
      let staged = Flush.flush l.res in
      let forced = flush_backend staged.1 in
      (and_result staged.0 forced.0, record l { res = forced.1 })

  -- `close`
  unfoldable pub close : Call T (Unit {0})
  close l =
      let flushed = Flush.flush l.res in
      let forced = flush_backend (discard_if flushed.0 flushed.1) in
      (
        and_result flushed.0 forced.0,
        record l { res = (Resident.mark_closed forced.1).1; values = [] },
      )

  -- `get_by`: from memory, always.
  unfoldable pub get_by : Locker T → Bytes → Option T
  get_by l key = Tree.get key l.values

  unfoldable contains_key_by : Locker T → Bytes → Bool
  contains_key_by l key = contains_key l.values key

  unfoldable pub len : Locker T → ℕ
  len l = length l.values

  unfoldable pub keys_bytes : Locker T → List Bytes
  keys_bytes l = Tree.keys l.values

  unfoldable entries_bytes : Locker T → List (Bytes × T)
  entries_bytes l = l.values
