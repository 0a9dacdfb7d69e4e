-- ===== src/Examples/Residents.antt =====
-- src/locker: write-sets, and lazy and eager lockers at work.
use crossbank.Prelude.{
  ◌≡◌, refl, sym, subst, arith, true, false, Option, none, some, List, [], ◌∷◌, ◌++◌, ◌≤◌, length,
}
use crossbank.Error.{Result, ok, err, closed}
use crossbank.Bytes.{Bytes, IsBytes}
use crossbank.Examples.Values.{are_bytes-IsBytes}
use crossbank.Examples.Lockers.{inner}
use crossbank.Backend.Api.{records, Op, contains}
use crossbank.Backend.Memory.{MemoryBackend, new, commit, apply_all}
use crossbank.Backend.Memory.Refines.{value_at}
use crossbank.Key.{locker_range}
use crossbank.Codec.Chain.{header}
use crossbank.Locker.Chunk.{flag_postcard}
use crossbank.Locker.Inner.{encode_key, unknown}
use crossbank.Locker.Inner.Value.{Postcard}
use crossbank.Locker.Inner.Write.{put_payload_ops, delete_value_ops}
use crossbank.Locker.Transaction.{Pending, eager, staged_view, ops_for_items}
use crossbank.Locker.Transaction.Lands.{Leaves}
use crossbank.Locker.Transaction.WriteSet.{ops_for_items-Lands}
use crossbank.Locker.Resident.{Resident, prior}
use crossbank.Locker.Resident.Flush
use crossbank.Locker.Resident.Flush.Batch.{IsStill, flush-IsStill}
use crossbank.Locker.Lazy
use crossbank.Locker.Lazy.{opened_with, collect_key}
use crossbank.Locker.Inner.{clear_op}
use crossbank.Locker.Inner.Walk.{walk}
use crossbank.Backend.Api.{unbounded}
use crossbank.Locker.Lru.Clock.{fresh_clock}
use crossbank.Locker.Resident.{is_deferred}
use crossbank.Codec.Filters.{max_decoded_bytes}
use crossbank.Locker.Lazy.Values.{put_by, get_by}
use crossbank.Locker.Lazy.Values.RoundTrip.{get_by-put_by}
use crossbank.Locker.Lazy.Index.{IsTrue}
use crossbank.Locker.Lazy.Index.Opened.{opened-IsTrue}
use crossbank.Locker.Lazy.Index.Priors.{prior_ops-prior}
use crossbank.Locker.Lazy.Index.Steps.{Step, Reach, start, later, Returned, Reach-IsTrue}

-- Values that are their own payloads.
abbrev pub bytes_as_they_are : Postcard Bytes
bytes_as_they_are = record { to_allocvec = some; from_bytes = some; wrap = some }

abbrev pub key : Bytes
key = 9 ∷ []

abbrev pub value : Bytes
value = 1 ∷ 2 ∷ 3 ∷ []

-- A lazy locker over an empty backend.
abbrev empty : Resident
empty = opened_with inner new (some 4) fresh_clock [] none

walked : walk collect_key inner new unbounded unbounded false false [] ≡ ok []
unfolding walk crossbank.Key.is_degenerate crossbank.Locker.Inner.Walk.walk_pages
    crossbank.Backend.Memory.scan crossbank.Backend.Memory.scan_tree crossbank.Tree.range_panics
    crossbank.Key.encode_range_bytes locker_range crossbank.Backend.Api.prefix
    crossbank.Bytes.Number.to_be crossbank.Bytes.bytes_lt crossbank.Locker.Inner.Walk.visit_page
    crossbank.Backend.Memory.collect crossbank.Tree.range crossbank.Backend.Memory.tree_of
walked = refl

empty-IsTrue : IsTrue empty
empty-IsTrue =
    opened-IsTrue inner new (some 4) fresh_clock [] refl tt tt (omega arith) (omega arith) walked

abbrev or_value : Option Bytes → Bytes
or_value none = value
or_value (some bytes) = bytes

abbrev after_put : Resident
after_put = (put_by bytes_as_they_are key value empty).1

put_run : put_by bytes_as_they_are key value empty ≡ (ok tt, after_put)
unfolding put_by crossbank.Locker.Resident.ensure_open crossbank.Locker.Inner.Value.to_payload
    is_deferred crossbank.Locker.Resident.with_values put_payload_ops
    crossbank.Locker.Inner.Write.prior_ops prior crossbank.Tree.get
    crossbank.Locker.Inner.stores_inline crossbank.Locker.Chunk.allocate
    crossbank.Locker.Chunk.advance crossbank.Locker.Inner.Write.pieces
    crossbank.Codec.Chain.seal_slice crossbank.Codec.Chain.seal crossbank.Codec.Chain.forward_all
    crossbank.Locker.Resident.Budget.budget_ops crossbank.Locker.Resident.commit commit
put_run = refl

prompt_run : is_deferred empty ≡ false
unfolding is_deferred
prompt_run = refl

get_by-put_by_example : get_by bytes_as_they_are key after_put ≡ (ok (some value), after_put)
get_by-put_by_example =
    get_by-put_by bytes_as_they_are empty after_put key value refl refl prompt_run
      (λ payload made. (sym made, within payload made, λ piece short. tt)) put_run
  where
    within : (payload : Bytes) → some value ≡ some payload → length payload ≤ max_decoded_bytes
    within payload made = subst (λ p. length (or_value p) ≤ max_decoded_bytes) made (omega arith)

abbrev after_delete : Resident
after_delete = (Lazy.delete_by key after_put).1

delete_run : Lazy.delete_by key after_put ≡ (ok tt, after_delete)
unfolding Lazy.delete_by crossbank.Locker.Resident.ensure_open put_by
    crossbank.Locker.Inner.Value.to_payload is_deferred crossbank.Locker.Resident.with_values
    put_payload_ops crossbank.Locker.Inner.Write.prior_ops prior crossbank.Tree.get
    crossbank.Locker.Inner.stores_inline crossbank.Locker.Chunk.allocate
    crossbank.Locker.Chunk.advance crossbank.Locker.Inner.Write.pieces
    crossbank.Codec.Chain.seal_slice crossbank.Codec.Chain.seal crossbank.Codec.Chain.forward_all
    crossbank.Locker.Resident.Budget.budget_ops crossbank.Locker.Resident.commit commit
    crossbank.Locker.Resident.announce crossbank.Locker.Resident.Budget.apply_budget
    crossbank.Locker.Resident.touch_index crossbank.Locker.Resident.note_inline delete_value_ops
    crossbank.Tree.insert crossbank.Bytes.bytes_eq crossbank.Tree.remove
    crossbank.Locker.Inner.fetch crossbank.Backend.Memory.get crossbank.Backend.Memory.tree_of
    apply_all crossbank.Locker.Chunk.counter_op crossbank.Backend.Memory.apply
    crossbank.Key.encode_bytes crossbank.Bytes.Number.to_be crossbank.Locker.Chunk.is_pointer
    crossbank.Locker.Chunk.encode crossbank.Locker.Chunk.parse crossbank.Bytes.Number.from_be
delete_run = refl

Returned-ok : (x : Result (Unit {0}) × Resident) {r : Resident} → x ≡ (ok tt, r) → Returned x r
Returned-ok x {r} h = subst (λ y. Returned y r) (sym h) refl

-- A put and a delete of the same key.
two_calls : Reach bytes_as_they_are empty after_delete
two_calls =
    later (later start (Step.put key value (Returned-ok _ put_run)))
      (Step.delete key (Returned-ok _ delete_run))

Reach-IsTrue_example : IsTrue after_delete
Reach-IsTrue_example = Reach-IsTrue bytes_as_they_are empty after_delete empty-IsTrue two_calls

prior_ops-prior_example :
    (put_payload_ops inner new key value flag_postcard (prior empty key) (some 4)
      ≡ put_payload_ops inner new key value flag_postcard unknown (some 4))
    × (delete_value_ops inner new key (prior empty key) ≡ delete_value_ops inner new key unknown)
prior_ops-prior_example =
    prior_ops-prior empty empty-IsTrue refl key (are_bytes-IsBytes key refl) value flag_postcard
      (some 4)

-- A write-set of an eager locker: a clear, a put, and a delete.
abbrev write_set : List Pending
write_set =
    Pending.put (7 ∷ []) value
    ∷ Pending.clear
    ∷ Pending.put key value
    ∷ Pending.delete (8 ∷ [])
    ∷ []

abbrev write_set_ops : List Op
write_set_ops =
    clear_op inner
    ∷ Op.delete records (encode_key inner (8 ∷ []))
    ∷ Op.put records (encode_key inner key) (header 0 ++ value)
    ∷ []

ops_run : ops_for_items inner new write_set eager (some 4) ≡ (ok write_set_ops, some 4)
unfolding ops_for_items crossbank.Locker.Inner.Write.clear_value_ops walk
    crossbank.Key.is_degenerate crossbank.Locker.Inner.Walk.walk_pages crossbank.Backend.Memory.scan
    crossbank.Backend.Memory.scan_tree crossbank.Tree.range_panics crossbank.Key.encode_range_bytes
    locker_range crossbank.Backend.Api.prefix crossbank.Bytes.Number.to_be crossbank.Bytes.bytes_lt
    crossbank.Locker.Inner.Walk.visit_page crossbank.Backend.Memory.collect crossbank.Tree.range
    crossbank.Backend.Memory.tree_of crossbank.Tree.insert delete_value_ops
    crossbank.Locker.Inner.Write.prior_ops crossbank.Locker.Inner.fetch crossbank.Backend.Memory.get
    crossbank.Tree.get crossbank.Codec.Chain.seal_slice crossbank.Codec.Chain.seal
    crossbank.Codec.Chain.forward_all header crossbank.Locker.Inner.delete_op
ops_run = refl

abbrev landed : MemoryBackend
landed = record { tables = apply_all new.tables write_set_ops; is_closed = false }

landed_run : commit new write_set_ops ≡ ok landed
unfolding commit
landed_run = refl

ops_for_items-Lands_example :
    ((k : Bytes)
      → IsBytes k
      → Leaves inner eager
          (staged_view k write_set)
          (value_at new.tables records (encode_key inner k))
          (value_at landed.tables records (encode_key inner k)))
    × ((k : Bytes)
        → IsBytes k
        → contains (locker_range 2) k ≡ false
        → value_at landed.tables records k ≡ value_at new.tables records k)
ops_for_items-Lands_example =
    ops_for_items-Lands inner new landed eager write_set (some 4) (some 4) write_set_ops ops_run
      landed_run

-- A batch on a backend that was closed.
abbrev stuck : Resident
stuck = record empty {
  backend = record { tables = new.tables; is_closed = true };
  staged = write_set;
}

stuck_run : Flush.flush stuck ≡ (err closed, (Flush.flush stuck).1)
unfolding Flush.flush crossbank.Locker.Resident.with_values ops_for_items
    crossbank.Locker.Inner.Write.clear_value_ops walk crossbank.Key.is_degenerate
    crossbank.Locker.Inner.Walk.walk_pages crossbank.Backend.Memory.scan
stuck_run = refl

flush-IsStill_example : IsStill stuck (Flush.flush stuck).1
flush-IsStill_example = flush-IsStill stuck (Flush.flush stuck).1 closed stuck_run
