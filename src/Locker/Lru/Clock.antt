-- ===== src/Locker/Lru/Clock.antt =====
-- `Ticks` of src/locker/lru.rs: the logical clock of a bank. Its mutex is held for one call at a time.
pub mod Monotone
use crossbank.Prelude.{
  ℕ, ◌+◌, ◌^◌, ◌<◌, ◌≤◌, max, ◌≡◌, refl, ap, sym, ◌∙◌, Bool, true, false, Option, none, some, List,
  [], ◌∷◌, arith, if◌then◌else◌, ltb, length, ◌==◌, All, Bool-cases, inl, inr, ◌⊎◌,
}
use crossbank.Error.{
  Result, ok, err, panic, backend, ticks_exhausted, corrupt, bad_tick_counter, ◌>>=◌, ok-inj,
}
use crossbank.Bytes.{Bytes}
use crossbank.Bytes.Number.{to_be, from_be}
use crossbank.Backend.Api.{meta, Op, put}
use crossbank.Backend.Memory
use crossbank.Backend.Memory.{MemoryBackend}
use crossbank.Locker.Lru.Entries.{meta_next_tick}

pub record TickState : Type 0 where
  pub next : Option ℕ
  pub floor : ℕ

abbrev pub fresh_clock : TickState
fresh_clock = record { next = none; floor = 0 }

-- The `match` of `cursor`.
unfoldable pub larger : Option ℕ → Option ℕ → Option ℕ
larger (some current) (some stored) = some (max current stored)
larger (some current) none = some current
larger none (some stored) = some stored
larger none none = none

unfoldable pub above_floor : ℕ → Option ℕ → Option ℕ
above_floor floor none = none
above_floor floor (some next) = some (max next floor)

-- `TickState::cursor`
unfoldable pub cursor : TickState → Option ℕ → Option ℕ
unfolding larger above_floor
cursor s stored = above_floor s.floor (larger s.next stored)

-- `checked_add(1)` on a `u64`.
unfoldable pub advance : ℕ → Result ℕ
advance tick = if ltb (tick + 1) (2 ^ 64) then ok (tick + 1) else err (backend ticks_exhausted)

-- `guard.next = Some(advance(tick)?); Ok(…)`
unfoldable pub move_to {ℓ} : {A : Type ℓ} → TickState → A → Result ℕ → Result A × TickState
move_to s a (ok next) = (ok a, record s { next = some next })
move_to s a (err e) = (err e, s)
move_to s a panic = (panic, s)

unfoldable pub take_from : TickState → Option ℕ → Result (Option ℕ) × TickState
unfolding move_to advance
take_from s none = (ok none, s)
take_from s (some tick) = move_to s (some tick) (advance tick)

-- `Ticks::take`
unfoldable pub take : TickState → Result (Option ℕ) × TickState
unfolding take_from cursor
take s = take_from s (cursor s none)

-- `unwrap_or`
unfoldable pub or_else : ℕ → Option ℕ → ℕ
or_else d none = d
or_else d (some n) = n

-- `Ticks::seed_and_take`
unfoldable pub seed_and_take : TickState → ℕ → Result ℕ × TickState
unfolding move_to advance cursor or_else
seed_and_take s stored =
    let tick = or_else stored (cursor s (some stored)) in move_to s tick (advance tick)

unfoldable pub raise : ℕ → Option ℕ → Option ℕ
raise floor none = none
raise floor (some current) = some (max current floor)

-- The clock past a tick that storage records, given `advance` of that tick.
unfoldable pub raise_floor : TickState → Result ℕ → Result (Unit {0}) × TickState
unfolding raise
raise_floor s (ok at_least) =
    let floor = max s.floor at_least in (ok tt, record { next = raise floor s.next; floor = floor })
raise_floor s (err e) = (err e, s)
raise_floor s panic = (panic, s)

-- `Ticks::observe_recorded`
unfoldable pub observe_recorded : TickState → ℕ → Result (Unit {0}) × TickState
unfolding raise_floor advance
observe_recorded s max_seen = raise_floor s (advance max_seen)

unfoldable parse_next_tick : Option Bytes → Result ℕ
parse_next_tick none = ok 0
parse_next_tick (some bytes) =
    if length bytes == 8 then ok (from_be bytes) else err (corrupt bad_tick_counter)

unfoldable pub allocate_seeding : TickState → Result ℕ → Result ℕ × TickState
unfolding seed_and_take
allocate_seeding s (ok stored) = seed_and_take s stored
allocate_seeding s (err e) = (err e, s)
allocate_seeding s panic = (panic, s)

unfoldable pub allocate_from : MemoryBackend → Result (Option ℕ) × TickState → Result ℕ × TickState
unfolding allocate_seeding parse_next_tick
allocate_from b (ok (some tick), s) = (ok tick, s)
allocate_from b (ok none, s) =
    allocate_seeding s (do raw ← Memory.get b meta meta_next_tick; parse_next_tick raw)
allocate_from b (err e, s) = (err e, s)
allocate_from b (panic, s) = (panic, s)

-- `Ticks::allocate`, with nothing between its two halves.
unfoldable pub allocate : MemoryBackend → TickState → Result ℕ × TickState
unfolding take allocate_from
allocate b s = allocate_from b (take s)

-- `Ticks::counter_op`
unfoldable pub counter_op : TickState → Op
unfolding or_else cursor
counter_op s = put meta meta_next_tick (to_be 8 (or_else s.floor (cursor s none)))
