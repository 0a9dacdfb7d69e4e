-- ===== src/Examples/Accounting.antt =====
-- src/locker/lru.rs, src/watch.rs and src/coherence/api.rs on concrete inputs.
use crossbank.Prelude.{
  ◌+◌, ◌-◌, ◌^◌, ◌<◌, ◌≡◌, refl, ap, sym, arith, true, false, none, some, List, [], ◌∷◌, ◌++◌, All,
  inl, inr,
}
use crossbank.Bytes.{Bytes, bytes_eq, bytes_lt}
use crossbank.Bytes.Number.{to_be}
use crossbank.Backend.Api.{records, prefix, put, delete_range}
use crossbank.Backend.Memory.Refines.{effects}
use crossbank.Key.{encode_bytes, locker_range}
use crossbank.Locker.Lru.Entries.{
  Entry, encode_entry, parse_entry, entry_key, clear_op, meta_next_tick, parse_entry-encode_entry,
}
use crossbank.Locker.Lru.Clock.{
  seed_and_take, move_to, advance, cursor, larger, above_floor, or_else, observe_recorded,
  raise_floor, raise,
}
use crossbank.Locker.Lru.Clock.Monotone.{started, saw, All-below-tick}
use crossbank.Locker.Lru.State.{LruState, is_in}
use crossbank.Locker.Lru.Planning.{plan, apply}
use crossbank.Locker.Lru.Planning.Accounting.{IsAccounted, apply-IsAccounted}
use crossbank.Locker.Lru.Planning.Victims.{plan-keeps}
use crossbank.Locker.Lru.Planning.Evicts.{Evicts, plan-Evicts}
use crossbank.Locker.Lru.Clearing.{Clears, commit-clear_op}
use crossbank.Backend.Memory.{MemoryBackend, apply_all}
use crossbank.Backend.Memory.Opened.{commit_open}
use crossbank.Watch.{Event, Attempt, queued, full, Subscriber, matches}
use crossbank.Watch
use crossbank.Watch.Losses.{told, matching, offer_all, offer_all-told}
use crossbank.Coherence.{announcement_from_ops, range_eq, bound_eq}
use crossbank.Coherence.Mirror.{Told, announcement_from_ops-Told}
use crossbank.Examples.Values.{are_bytes-IsBytes}

parse_entry-encode_entry_example :
    parse_entry (encode_entry (record { tick = 9; bytes = 2 ^ 40 }))
    ≡ some (record { tick = 9; bytes = 2 ^ 32 - 1 })
parse_entry-encode_entry_example =
    parse_entry-encode_entry (record { tick = 9; bytes = 2 ^ 40 }) (omega arith)

-- Rows of lockers 1 and 2.
abbrev rows : MemoryBackend
rows = record {
  tables = record {
    meta =
        (entry_key 1 (7 ∷ []), 5 ∷ [])
        ∷ (entry_key 2 (7 ∷ []), 6 ∷ [])
        ∷ (meta_next_tick, to_be 8 3)
        ∷ [];
    records = [];
    chunks = [];
  };
  is_closed = false;
}

abbrev cleared_rows : MemoryBackend
cleared_rows = record { tables = apply_all rows.tables (clear_op 1 ∷ []); is_closed = false }

commit-clear_op_example : Clears 1 rows cleared_rows
commit-clear_op_example =
    commit-clear_op rows cleared_rows 1 (omega arith) (commit_open rows refl (clear_op 1 ∷ []))

-- A clock that saw tick 5 in storage gives out 6, whatever the stored counter says.
All-below-tick_example : All (λ older. older < 6) (5 ∷ [])
unfolding seed_and_take move_to advance cursor larger above_floor or_else observe_recorded
    raise_floor raise
All-below-tick_example =
    All-below-tick (5 ∷ []) (record { next = none; floor = 6 })
      (record { next = some 7; floor = 6 }) 6 2
      (saw started 5 (record { next = none; floor = 6 }) refl) (inr refl)

abbrev accounted : LruState
accounted = record {
  max_bytes = 100;
  entries =
      (1 ∷ [], record { tick = 4; bytes = 40 })
      ∷ (2 ∷ [], record { tick = 2; bytes = 40 })
      ∷ (3 ∷ [], record { tick = 3; bytes = 20 })
      ∷ [];
  total = 100;
  pending = [];
  is_dirty = false;
}

abbrev update : List (Bytes × Entry)
update = (4 ∷ [], record { tick = 5; bytes = 50 }) ∷ []

plan-keeps_example :
    All
      (λ k. is_in k ((4 ∷ []) ∷ []) ≡ false)
      (plan accounted update [] false 10 ((4 ∷ []) ∷ [])).victims
plan-keeps_example = plan-keeps accounted update [] false 10 ((4 ∷ []) ∷ [])

accounted_right : IsAccounted accounted
unfolding bytes_lt
accounted_right = record { sorted = ((refl, (refl, tt)), ((refl, tt), (tt, tt))); total = refl }

apply-IsAccounted_example : IsAccounted (
    apply accounted update
      ((3 ∷ []) ∷ [])
      false
      (plan accounted update ((3 ∷ []) ∷ []) false 100 ((4 ∷ []) ∷ [])))
unfolding bytes_eq
apply-IsAccounted_example =
    apply-IsAccounted accounted update ((3 ∷ []) ∷ []) false 100 ((4 ∷ []) ∷ []) accounted_right
      (record { updates_differ = (tt, tt); removals_differ = (tt, tt); apart = ((refl, tt), tt) })
      (omega arith)

plan-Evicts_example :
    Evicts accounted update
      ((3 ∷ []) ∷ [])
      false
      100
      ((4 ∷ []) ∷ [])
      (plan accounted update ((3 ∷ []) ∷ []) false 100 ((4 ∷ []) ∷ []))
unfolding bytes_eq
plan-Evicts_example =
    plan-Evicts accounted update ((3 ∷ []) ∷ []) false 100 ((4 ∷ []) ∷ []) accounted_right
      (record { updates_differ = (tt, tt); removals_differ = (tt, tt); apart = ((refl, tt), tt) })
      (omega arith)

-- A queue of one event that nobody reads.
abbrev try_send : List Event → Event → Attempt × List Event
try_send [] e = (queued, e ∷ [])
try_send (d ∷ ds) e = (full, d ∷ ds)

on_queued : (q q' : List Event) (e : Event) → try_send q e ≡ (queued, q') → q' ≡ q ++ e ∷ []
on_queued [] q' e h = sym (ap (λ w. w.1) h)
on_queued (d ∷ ds) q' e h = absurd (ground (arith, ap (λ w. w.0) h))

on_full : (q q' : List Event) (e : Event) → try_send q e ≡ (full, q') → q' ≡ q
on_full [] q' e h = absurd (ground (arith, ap (λ w. w.0) h))
on_full (d ∷ ds) q' e h = sym (ap (λ w. w.1) h)

abbrev idle : Subscriber (List Event)
idle = record { sender = []; filter = none; skipped = 0 }

abbrev behind : Subscriber (List Event)
behind = record { sender = Watch.put (1 ∷ []) ∷ []; filter = none; skipped = 2 }

offers_run :
    offer_all try_send
      (λ q. q)
      on_queued
      on_full
      (Watch.put (1 ∷ []) ∷ Watch.cleared ∷ Watch.deleted (1 ∷ []) ∷ [])
      idle
    ≡ some behind
unfolding Watch.offer matches Watch.send_event Watch.after_send Watch.after_notice Watch.skip_one
offers_run = refl

whole_locker : range_eq (locker_range 1) (locker_range 1) ≡ true
unfolding range_eq bound_eq locker_range prefix to_be bytes_eq
whole_locker = refl

offer_all-told_example :
    told try_send (λ q. q) on_queued on_full behind
    ≡ told try_send (λ q. q) on_queued on_full idle
      + matching try_send
          (λ q. q)
          on_queued
          on_full
          (Watch.put (1 ∷ []) ∷ Watch.cleared ∷ Watch.deleted (1 ∷ []) ∷ [])
          none
offer_all-told_example =
    offer_all-told try_send (λ q. q) on_queued on_full
      (Watch.put (1 ∷ []) ∷ Watch.cleared ∷ Watch.deleted (1 ∷ []) ∷ []) idle behind
      (refl, (refl, (refl, tt))) (omega arith) offers_run

announcement_from_ops-Told_example :
    Told 1 3
      (7 ∷ [])
      (announcement_from_ops 0 1 3 (
        delete_range records (locker_range 1) ∷ put records (0 ∷ 0 ∷ 0 ∷ 1 ∷ 7 ∷ []) (5 ∷ []) ∷ []))
      (some (4 ∷ []))
      (effects
        (delete_range records (locker_range 1) ∷ put records (0 ∷ 0 ∷ 0 ∷ 1 ∷ 7 ∷ []) (5 ∷ []) ∷ [])
        records
        (encode_bytes 1 (7 ∷ []))
        (some (4 ∷ [])))
announcement_from_ops-Told_example =
    announcement_from_ops-Told 0 1 3 (7 ∷ [])
      (delete_range records (locker_range 1) ∷ put records (0 ∷ 0 ∷ 0 ∷ 1 ∷ 7 ∷ []) (5 ∷ []) ∷ [])
      (some (4 ∷ [])) (omega arith) (are_bytes-IsBytes (7 ∷ []) refl)
      (inl whole_locker, (are_bytes-IsBytes (0 ∷ 0 ∷ 0 ∷ 1 ∷ 7 ∷ []) refl, tt))
