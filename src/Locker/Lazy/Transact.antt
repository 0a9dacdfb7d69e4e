-- ===== src/Locker/Lazy/Transact.antt =====
-- src/locker/lazy.rs: `transact`, which commits what its closure stages with what was staged before.
use crossbank.Prelude.{List, [], ◌∷◌, ◌++◌, map}
use crossbank.Error.{Result, ok}
use crossbank.Tree
use crossbank.Watch.{Event}
use crossbank.Locker.Transaction.{Pending, Staged, pending_of}
use crossbank.Locker.Resident.{
  Resident, Act, KeySet, ◌>>=◌, ◌>>◌, give, modify, read, touch_index, forget_inline, take_staged,
  ensure_open, announce,
}
use crossbank.Locker.Resident.Budget.{Budget, apply_budget}
use crossbank.Locker.Resident.Flush.{commit_entries, or_restage}

module _ {T : Type 0} where
  unfoldable pub index_entry : Staged T → KeySet → KeySet
  index_entry (Staged.put key payload value) keys = Tree.insert key tt keys
  index_entry (Staged.delete key) keys = Tree.remove key keys
  index_entry Staged.clear keys = []

  unfoldable pub index_entries : List (Staged T) → KeySet → KeySet
  unfolding index_entry
  index_entries [] keys = keys
  index_entries (e ∷ es) keys = index_entries es (index_entry e keys)

  unfoldable pub event_of : Staged T → Event
  event_of (Staged.put key payload value) = Event.put key
  event_of (Staged.delete key) = Event.deleted key
  event_of Staged.clear = Event.cleared

  unfoldable pub announce_entries : List (Staged T) → Resident → Resident
  unfolding event_of
  announce_entries [] r = r
  announce_entries (e ∷ es) r = announce_entries es (announce (event_of e) r)

  unfoldable pub merge_batches : List Pending → List (Staged T) → List Pending
  unfolding pending_of
  merge_batches staged entries = staged ++ map pending_of entries

  unfoldable pub after_transact : List (Staged T) → Budget → Resident → Resident
  unfolding index_entries announce_entries
  after_transact entries budget r =
      announce_entries entries
        (apply_budget budget (forget_inline (touch_index (index_entries entries) r)))

  -- What was staged before rides along in front, and is put back if the commit fails.
  unfoldable pub transact_entries : List (Staged T) → Act (Unit {0})
  unfolding merge_batches after_transact
  transact_entries [] = give (ok tt)
  transact_entries (e ∷ es) = do
    staged_before ← take_staged
    budget ← λ r. or_restage staged_before (commit_entries (merge_batches staged_before (e ∷ es)) r)
    modify (after_transact (e ∷ es) budget)

  -- `transact`, with what the closure stages.
  unfoldable pub transact : (Resident → Result (List (Staged T))) → Act (Unit {0})
  unfolding transact_entries
  transact f = do ensure_open; r ← read (λ r. r); entries ← give (f r); transact_entries entries
