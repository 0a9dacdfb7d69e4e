-- ===== src/Examples/Eagers.antt =====
-- src/locker/eager.rs: an eager locker at work, and the news of another tab; src/locker/resident.rs: the
-- accounting of a batch.
use crossbank.Prelude.{ℕ, ◌≡◌, refl, sym, subst, arith, true, false, none, some, [], ◌∷◌, inl, All}
use crossbank.Error.{Result, ok}
use crossbank.Bytes.{Bytes, IsBytes}
use crossbank.Tree
use crossbank.Backend.Memory.{new}
use crossbank.Coherence.{Announcement}
use crossbank.Examples.Lockers.{inner}
use crossbank.Examples.Residents.{bytes_as_they_are, key, value}
use crossbank.Locker.Epochs
use crossbank.Locker.Lru.Clock.{fresh_clock}
use crossbank.Locker.Lru.State.{LruState}
use crossbank.Locker.Lru.Planning.{plan, apply}
use crossbank.Locker.Lru.Planning.Accounting.{IsAccounted}
use crossbank.Locker.Transaction.{Pending, eager}
use crossbank.Locker.Eager.Mirror.{value_of}
use crossbank.Bytes.{bytes_lt}
use crossbank.Locker.Resident.{accounting}
use crossbank.Locker.Resident.Deletions.{accounting-miscounts}
use crossbank.Locker.Eager.{Locker, get_by, delete_by}
use crossbank.Locker.Eager.Opening.{opened_with}
use crossbank.Locker.Eager.Puts.{put_by}
use crossbank.Locker.Eager.Sink
use crossbank.Locker.Eager.Sink.Order.{apply_late, get_by-apply}
use crossbank.Locker.Eager.Mirror.{IsMirror, Opens}
use crossbank.Locker.Eager.Mirror.Steps.{Returned, Step, Reach, start, later, Reach-IsMirror}

-- An eager locker over an empty backend.
abbrev empty : Locker Bytes
empty =
    opened_with bytes_as_they_are inner new (some 4) fresh_clock
      (record { values = []; corrupt = []; loaded = 0; overflow = none })

nothing_stored : (k : Bytes) → Tree.get k empty.values ≡ value_of bytes_as_they_are empty.res k
unfolding crossbank.Locker.Transaction.staged_view Tree.get
    crossbank.Locker.Eager.Opening.note_all_corrupt crossbank.Backend.Memory.tree_of
nothing_stored k = refl

prompt_run : empty.res.staged ≡ []
unfolding crossbank.Locker.Eager.Opening.note_all_corrupt
prompt_run = refl

unbudgeted_run : empty.res.lru ≡ none
unfolding crossbank.Locker.Eager.Opening.note_all_corrupt
unbudgeted_run = refl

eager_run : empty.res.mode ≡ eager
unfolding crossbank.Locker.Eager.Opening.note_all_corrupt
eager_run = refl

empty-Opens : All (Opens empty.res.inner.chain) empty.res.staged
unfolding crossbank.Locker.Eager.Opening.note_all_corrupt
empty-Opens = tt

empty-IsMirror : IsMirror bytes_as_they_are empty
empty-IsMirror = record {
  unbudgeted = unbudgeted_run;
  eagerly = eager_run;
  prompt = λ _. prompt_run;
  opens = empty-Opens;
  mirrors = λ k kb. inl (nothing_stored k);
}

abbrev after_put : Locker Bytes
after_put = (put_by bytes_as_they_are key value empty).1

put_run : put_by bytes_as_they_are key value empty ≡ (ok tt, after_put)
unfolding put_by crossbank.Locker.Resident.ensure_open
    crossbank.Locker.Eager.Opening.note_all_corrupt crossbank.Locker.Inner.Value.encode_value
    crossbank.Codec.Chain.seal crossbank.Codec.Chain.forward_all crossbank.Codec.Chain.header
    crossbank.Locker.Resident.is_deferred crossbank.Locker.Resident.commit
    crossbank.Backend.Memory.commit
put_run = refl

abbrev after_delete : Locker Bytes
after_delete = (delete_by key after_put).1

delete_run : delete_by key after_put ≡ (ok tt, after_delete)
unfolding delete_by crossbank.Locker.Resident.ensure_open put_by
    crossbank.Locker.Eager.Opening.note_all_corrupt crossbank.Locker.Inner.Value.encode_value
    crossbank.Codec.Chain.seal crossbank.Codec.Chain.forward_all crossbank.Codec.Chain.header
    crossbank.Locker.Resident.is_deferred crossbank.Locker.Resident.commit
    crossbank.Backend.Memory.commit crossbank.Locker.Resident.announce
    crossbank.Locker.Resident.forget_dropped crossbank.Locker.Lru.State.contains_key Tree.get
    Tree.insert crossbank.Bytes.bytes_eq
delete_run = refl

Returned-ok :
    (x : Result (Unit {0}) × Locker Bytes) {l : Locker Bytes} → x ≡ (ok tt, l) → Returned x l
Returned-ok x {l} h = subst (λ y. Returned y l) (sym h) refl

-- A put and a delete of the same key.
two_calls : Reach bytes_as_they_are empty after_delete
unfolding crossbank.Locker.Eager.Opening.note_all_corrupt
two_calls =
    later (later start (Step.put key value (λ p made. (sym made, tt)) (Returned-ok _ put_run)))
      (Step.delete key (Returned-ok _ delete_run))

Reach-IsMirror_example : IsMirror bytes_as_they_are after_delete
Reach-IsMirror_example =
    Reach-IsMirror bytes_as_they_are empty after_delete empty-IsMirror two_calls

-- News of one deletion, at an epoch.
abbrev deletion : ℕ → Announcement
deletion epoch = record {
  instance_id = 1;
  locker_id = 2;
  epoch = epoch;
  is_cleared = false;
  changes = record { key = key; value = none; bytes = none; is_deleted = true } ∷ [];
}

apply_late_example :
    Sink.apply bytes_as_they_are (deletion 3) (Sink.apply bytes_as_they_are (deletion 5) after_put)
    ≡ Sink.apply bytes_as_they_are (deletion 5) after_put
apply_late_example = apply_late bytes_as_they_are (deletion 5) (deletion 3) after_put (omega arith)

-- A locker that wrote the key at epoch 7.
abbrev writer : Locker Bytes
writer = record after_put { epochs = Epochs.note_local Epochs.new (key ∷ []) 7 }

wrote_run : Epochs.local_epoch writer.epochs key ≡ some 7
unfolding Epochs.local_epoch Tree.get Epochs.note_local Tree.insert crossbank.Bytes.bytes_eq
wrote_run = refl

get_by-apply_example :
    get_by (Sink.apply bytes_as_they_are (deletion 7) writer) key ≡ get_by writer key
get_by-apply_example =
    get_by-apply bytes_as_they_are (deletion 7) writer key 7 refl wrote_run (omega arith)

-- Two keys, of 40 and 60 bytes.
abbrev two_keys : LruState
two_keys = record {
  max_bytes = 100;
  entries =
      (key, record { tick = 4; bytes = 40 }) ∷ (10 ∷ [], record { tick = 2; bytes = 60 }) ∷ [];
  total = 100;
  pending = [];
  is_dirty = false;
}

two_keys-IsAccounted : IsAccounted two_keys
unfolding bytes_lt
two_keys-IsAccounted = record { sorted = ((refl, tt), (tt, tt)); total = refl }

first_entry : Tree.get key two_keys.entries ≡ some (record { tick = 4; bytes = 40 })
unfolding Tree.get crossbank.Bytes.bytes_eq
first_entry = refl

accounting-miscounts_example : ¬ IsAccounted (
    let a = accounting (Pending.delete key ∷ Pending.delete key ∷ []) in
    apply two_keys [] a.removals a.is_cleared (plan two_keys [] a.removals a.is_cleared 100 []))
accounting-miscounts_example =
    accounting-miscounts two_keys key (record { tick = 4; bytes = 40 }) 100 two_keys-IsAccounted
      first_entry (omega arith) (omega arith) (omega arith)
