-- ===== src/Locker/Lru/State.antt =====
-- `LruState` of src/locker/lru.rs: the accounting a locker holds in memory, and how it is loaded.
use crossbank.Prelude.{
  ℕ, zero, suc, ◌+◌, ◌-◌, ◌^◌, max, min, Bool, true, false, Option, none, some, List, [], ◌∷◌,
  if◌then◌else◌, length, take, any, keep,
}
use crossbank.Error.{Result, ok, err, panic, ◌>>=◌}
use crossbank.Bytes.{Bytes, bytes_eq}
use crossbank.Tree
use crossbank.Tree.{Tree}
use crossbank.Backend.Api.{excluded, KeyRange, prefix, meta, Op, default_scan_page}
use crossbank.Backend.Memory
use crossbank.Backend.Memory.{MemoryBackend}
use crossbank.Key.{LockerId}
use crossbank.Locker.Lru.Entries.{Entry, put_op, locker_prefix, user_key, parse_entry}
use crossbank.Locker.Lru.Clock.{TickState, observe_recorded}

-- `saturating_add` on a `u64`; `saturating_sub` is the subtraction of ℕ.
abbrev pub max_u64 : ℕ
max_u64 = 2 ^ 64 - 1

unfoldable pub saturating_add : ℕ → ℕ → ℕ
saturating_add a b = min (a + b) max_u64

pub record LruState : Type 0 where
  pub max_bytes : ℕ
  pub entries : Tree Entry
  pub total : ℕ
  pub pending : Tree ℕ
  pub is_dirty : Bool

abbrev pub new : ℕ → LruState
new max_bytes = record {
  max_bytes = max_bytes;
  entries = [];
  total = 0;
  pending = [];
  is_dirty = false;
}

abbrev pub bytes_of : Option Entry → ℕ
bytes_of none = 0
bytes_of (some e) = e.bytes

abbrev pub sum_bytes : Tree Entry → ℕ
sum_bytes [] = 0
sum_bytes ((k, e) ∷ t) = e.bytes + sum_bytes t

unfoldable pub contains_key {ℓ} : {V : Type ℓ} → Tree V → Bytes → Bool
contains_key t k = elim (Tree.get k t) [ none ↦ false | some v ↦ true ]

abbrev mark_dirty : LruState → LruState
mark_dirty s = record s { is_dirty = true }

unfoldable pub adopt_loaded : LruState → LruState → LruState
unfolding contains_key
adopt_loaded s loaded = record s {
  entries = loaded.entries;
  total = loaded.total;
  pending = keep (λ e. contains_key loaded.entries e.0) s.pending;
  is_dirty = false;
}

-- The greatest tick, or zero.
unfoldable max_tick : Tree Entry → ℕ
max_tick [] = 0
max_tick ((k, e) ∷ t) = max e.tick (max_tick t)

unfoldable next_local_tick : LruState → ℕ
unfolding max_tick saturating_add
next_local_tick s = saturating_add (max_tick s.entries) 1

-- `entry(key).or_insert(e)`
unfoldable or_insert : Bytes → Entry → Tree Entry → Tree Entry
or_insert k e t = elim (Tree.get k t) [ none ↦ Tree.insert k e t | some old ↦ t ]

unfoldable pub remote_put : LruState → Bytes → Option ℕ → LruState
unfolding next_local_tick or_insert saturating_add
remote_put s key (some bytes) =
    let e : Entry = record { tick = next_local_tick s; bytes = bytes } in
    record s {
      entries = Tree.insert key e s.entries;
      total = saturating_add (s.total - bytes_of (Tree.get key s.entries)) bytes;
    }
remote_put s key none =
    let e : Entry = record { tick = next_local_tick s; bytes = 0 } in
    mark_dirty (record s { entries = or_insert key e s.entries })

unfoldable pub remote_delete : LruState → Bytes → LruState
remote_delete s key = record s {
  entries = Tree.remove key s.entries;
  total = s.total - bytes_of (Tree.get key s.entries);
  pending = Tree.remove key s.pending;
}

unfoldable pub remote_clear : LruState → LruState
remote_clear s = record s { entries = []; pending = []; total = 0; is_dirty = false }

unfoldable touch_entry : LruState → Bytes → ℕ → Option Entry → LruState
touch_entry s key tick none = s
touch_entry s key tick (some e) = record s {
  entries = Tree.insert key (record e { tick = tick }) s.entries;
  pending = Tree.insert key tick s.pending;
}

unfoldable pub touch : LruState → Bytes → ℕ → LruState
unfolding touch_entry
touch s key tick = touch_entry s key tick (Tree.get key s.entries)

abbrev pending_per_commit : ℕ
pending_per_commit = 64

unfoldable pub is_in : Bytes → List Bytes → Bool
is_in key keys = any (λ k. bytes_eq k key) keys

-- A deferred tick whose key is not skipped; one whose key is gone adds nothing.
unfoldable pending_entry :
    LockerId → Bytes → ℕ → Option Entry → List Bytes × List Op → List Bytes × List Op
pending_entry id key tick none (keys, ops) = (keys, ops)
pending_entry id key tick (some e) (keys, ops) =
    (key ∷ keys, put_op id key (record { tick = tick; bytes = e.bytes }) ∷ ops)

unfoldable pending_from : LruState → LockerId → List Bytes → Tree ℕ → List Bytes × List Op
unfolding is_in pending_entry
pending_from s id skip [] = ([], [])
pending_from s id skip ((key, tick) ∷ t) =
    let (keys, ops) = pending_from s id skip t in
    if is_in key skip
    then (key ∷ keys, ops)
    else pending_entry id key tick (Tree.get key s.entries) (keys, ops)

unfoldable pub pending_ops : LruState → LockerId → List Bytes → List Bytes × List Op
unfolding pending_from
pending_ops s id skip = pending_from s id skip (take pending_per_commit s.pending)

unfoldable pub remove_keys {ℓ} : {V : Type ℓ} → List Bytes → Tree V → Tree V
remove_keys [] t = t
remove_keys (k ∷ ks) t = remove_keys ks (Tree.remove k t)

unfoldable pub clear_pending : LruState → List Bytes → LruState
unfolding remove_keys
clear_pending s keys = record s { pending = remove_keys keys s.pending }

unfoldable pub adopt : LruState → Bytes → LruState
unfolding or_insert
adopt s key = record s { entries = or_insert key (record { tick = 0; bytes = 0 }) s.entries }

unfoldable pub retain_keys : LruState → (Bytes → Bool) → LruState
retain_keys s live =
    let kept = keep (λ e. live e.0) s.entries in
    record s { entries = kept; pending = keep (λ e. live e.0) s.pending; total = sum_bytes kept }

-- The state so far of `load`, and the greatest tick read.
unfoldable load_entry : LruState × Option ℕ → Option Bytes → Option Entry → LruState × Option ℕ
unfolding saturating_add
load_entry (s, seen) (some key) (some e) = (
  record s { entries = Tree.insert key e s.entries; total = saturating_add s.total e.bytes },
  some (elim seen [ none ↦ e.tick | some m ↦ max m e.tick ]),
)
load_entry (s, seen) (some key) none = (s, seen)
load_entry (s, seen) none e = (s, seen)

unfoldable parse_value : Option Bytes → Option Entry
parse_value none = none
parse_value (some raw) = parse_entry raw

unfoldable load_page :
    Bytes → LruState × Option ℕ → List (Bytes × Option Bytes) → LruState × Option ℕ
unfolding load_entry parse_value
load_page p acc [] = acc
load_page p acc ((meta_key, value) ∷ rest) =
    load_page p (load_entry acc (user_key p meta_key) (parse_value value)) rest

-- The loop of `load`. A page that resumes is not empty, so one page for each row of `meta` and a last
-- one are enough; running out of them reads as a panic.
unfoldable load_pages :
    ℕ → MemoryBackend → Bytes → KeyRange → LruState × Option ℕ → Result (LruState × Option ℕ)
unfolding load_page
load_pages zero b p r acc = panic
load_pages (suc fuel) b p r acc = do
  page ← Memory.scan b (record {
    table = meta;
    range = r;
    is_reverse = false;
    limit = default_scan_page;
    want_values = true;
  })
  elim page.resume [
    | none ↦ ok (load_page p acc page.items)
    | some last ↦
        load_pages fuel b p (record r { start = excluded last }) (load_page p acc page.items)
  ]

unfoldable observed : TickState → Option ℕ → Result (Unit {0}) × TickState
observed ticks none = (ok tt, ticks)
observed ticks (some m) = observe_recorded ticks m

unfoldable loaded_state : TickState → Result (LruState × Option ℕ) → Result LruState × TickState
unfolding observed
loaded_state ticks (ok (s, seen)) =
    let (r, ticks') = observed ticks seen in ((r >>= λ _. ok s), ticks')
loaded_state ticks (err e) = (err e, ticks)
loaded_state ticks panic = (panic, ticks)

-- `load`
unfoldable pub load : MemoryBackend → LockerId → ℕ → TickState → Result LruState × TickState
unfolding load_pages loaded_state
load b id max_bytes ticks =
    let p = locker_prefix id in
    loaded_state ticks (load_pages (length b.tables.meta + 1) b p (prefix p) (new max_bytes, none))
