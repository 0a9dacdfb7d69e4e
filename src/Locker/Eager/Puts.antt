-- ===== src/Locker/Eager/Puts.antt =====
-- src/locker/eager.rs: the puts and the transactions of an eager locker. The
-- shared pointer to the value, which a put returns, is left out.
use crossbank.Prelude.{Bool, true, false, List, [], ◌∷◌, length, ltb, if◌then◌else◌}
use crossbank.Error.{Result, ok, err, panic, Error, value_too_large}
use crossbank.Bytes.{Bytes}
use crossbank.Tree
use crossbank.Tree.{Tree}
use crossbank.Backend.Api.{records, Op}
use crossbank.Locker.Inner.{encode_key}
use crossbank.Locker.Inner.Value.{Postcard, to_payload, encode_value}
use crossbank.Locker.Lru.State.{contains_key}
use crossbank.Locker.Transaction.{Pending, Staged, ops_for_items, eager}
use crossbank.Locker.Resident
use crossbank.Locker.Resident.{
  Resident, Act, note_corrupt, stored_but_unheld, forget_dropped, forget_all_dropped,
  index_is_authoritative, is_deferred, restage, discard_staged,
}
use crossbank.Locker.Lazy.Transact.{event_of, merge_batches}
use crossbank.Locker.Eager.{
  Locker, Call, ◌>>=◌, ◌>>◌, give, read, shared, change_values, change_shared, put_event,
  delete_event, flush_if,
}

abbrev pub refused_if : Bool → Error → Result (Unit {0})
refused_if true e = err e
refused_if false e = ok tt

abbrev pub or_put_back : {A : Type 0} → List Pending → Result A × Resident → Result A × Resident
or_put_back entries (ok a, r) = (ok a, r)
or_put_back entries (err e, r) = (err e, restage entries r)
or_put_back entries (panic, r) = (panic, r)

-- The mutations of a write-set, committed; an eager locker has no budget.
unfoldable pub commit_merged : List Pending → Act (Unit {0})
commit_merged entries r =
    let (result, r') =
      Resident.with_values (λ b values. ops_for_items r.inner b entries eager values) r in
    Resident.continue (result, r') Resident.commit

module _ {T : Type 0} where
  unfoldable pub put_deferred : Bytes → Bytes → T → Call T (Unit {0})
  put_deferred key payload value = do
    full ← shared (Resident.stage (Pending.put key payload))
    change_values (Tree.insert key value)
    change_shared (forget_dropped key)
    change_shared (put_event key)
    flush_if full

  unfoldable pub put_now : Bytes → Bytes → T → Call T (Unit {0})
  put_now key sealed value = do
    l ← read (λ l. l)
    shared (Resident.commit (Op.put records (encode_key l.res.inner key) sealed ∷ []))
    change_values (Tree.insert key value)
    change_shared (forget_dropped key)
    change_shared (put_event key)

  -- One entry of a transaction that landed, and whether its deletion took something away.
  unfoldable pub hold_entry : Staged T → Locker T → Locker T × Bool
  hold_entry (Staged.put key payload value) l =
      (record l { values = Tree.insert key value l.values }, true)
  hold_entry (Staged.delete key) l = (
    record l { values = Tree.remove key l.values; res = forget_dropped key l.res },
    if contains_key l.values key then true else stored_but_unheld l.res key,
  )
  hold_entry Staged.clear l = (record l { values = []; res = forget_all_dropped l.res }, true)

  unfoldable pub hold_entries : List (Staged T) → Locker T → Locker T × List Bool
  unfolding hold_entry
  hold_entries [] l = (l, [])
  hold_entries (e ∷ es) l =
      let (l', removed) = hold_entry e l in
      let (last, more) = hold_entries es l' in (last, removed ∷ more)

  unfoldable pub announce_entry : Staged T → Bool → Resident → Resident
  unfolding event_of
  announce_entry (Staged.delete key) removed r = delete_event removed key r
  announce_entry e removed r = Resident.announce (event_of e) r

  unfoldable pub announce_removed : List (Staged T) → List Bool → Resident → Resident
  unfolding announce_entry
  announce_removed (e ∷ es) (removed ∷ more) r =
      announce_removed es more (announce_entry e removed r)
  announce_removed _ _ r = r

  unfoldable pub after_transact : List (Staged T) → Locker T → Locker T
  unfolding hold_entries announce_removed
  after_transact entries l =
      let (held, removed) = hold_entries entries l in
      record held { res = announce_removed entries removed held.res }

  unfoldable pub transact_entries : List (Staged T) → Call T (Unit {0})
  unfolding commit_merged merge_batches after_transact
  transact_entries [] = give (ok tt)
  transact_entries (e ∷ es) = do
    staged_before ← shared Resident.take_staged
    shared (λ r. or_put_back staged_before (commit_merged (merge_batches staged_before (e ∷ es)) r))
    λ l. (ok tt, after_transact (e ∷ es) l)

  -- `transact`, with what the closure stages.
  unfoldable pub transact : (Locker T → Result (List (Staged T))) → Call T (Unit {0})
  unfolding transact_entries
  transact f = do
    shared Resident.ensure_open
    l ← read (λ l. l)
    entries ← give (f l)
    transact_entries entries

module _ {T : Type 0} (postcard : Postcard T) where
  -- `put_by`
  unfoldable pub put_by : Bytes → T → Call T (Unit {0})
  unfolding put_deferred put_now
  put_by key value = do
    shared Resident.ensure_open
    l ← read (λ l. l)
    sealed ← give (encode_value postcard l.res.inner.chain value)
    let limit = l.res.inner.config.max_inline
    give (refused_if (ltb limit (length sealed)) (value_too_large (length sealed) limit))
    if is_deferred l.res
        then (do payload ← give (to_payload postcard value); put_deferred key payload value)
        else put_now key sealed value
