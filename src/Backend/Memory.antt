-- ===== src/Backend/Memory.antt =====
-- src/backend/memory.rs: the in-memory backend. Its lock is held for a whole call, so a call is one
-- step on the tables; the lock is never poisoned, since no code that holds it panics but `range`.
pub mod Opened
pub mod Refines
pub mod Paging
use crossbank.Prelude.{
  ℕ, ◌+◌, Bool, true, false, Option, none, some, List, [], ◌∷◌, ◌++◌, map, reverse, if◌then◌else◌,
  ltb, leb, length, keep,
}
use crossbank.Error.{Result, ok, err, panic, closed}
use crossbank.Bytes.{Bytes}
use crossbank.Tree
use crossbank.Tree.{Tree, keys, range, range_panics}
use crossbank.Backend.Api.{
  Table, meta, records, chunks, KeyRange, contains, Op, put, delete, delete_range, ScanRequest,
  ScanPage,
}

pub record Tables : Type 0 where
  pub meta : Tree Bytes
  pub records : Tree Bytes
  pub chunks : Tree Bytes

abbrev no_tables : Tables
no_tables = record { meta = []; records = []; chunks = [] }

-- `Tables::get`
unfoldable pub tree_of : Tables → Table → Tree Bytes
tree_of t meta = t.meta
tree_of t records = t.records
tree_of t chunks = t.chunks

-- A write through `Tables::get_mut`.
unfoldable pub set_tree : Tables → Table → Tree Bytes → Tables
set_tree t meta x = record t { meta = x }
set_tree t records x = record t { records = x }
set_tree t chunks x = record t { chunks = x }

pub record MemoryBackend : Type 0 where
  pub tables : Tables
  pub is_closed : Bool

abbrev pub new : MemoryBackend
new = record { tables = no_tables; is_closed = false }

-- The `for key in doomed` loop.
unfoldable pub remove_all : List Bytes → Tree Bytes → Tree Bytes
remove_all [] t = t
remove_all (k ∷ ks) t = remove_all ks (Tree.remove k t)

-- `MemoryBackend::apply`
unfoldable pub apply : Tables → Op → Tables
unfolding tree_of set_tree remove_all
apply t (put table key value) = set_tree t table (Tree.insert key value (tree_of t table))
apply t (delete table key) = set_tree t table (Tree.remove key (tree_of t table))
apply t (delete_range table r) =
    let tree = tree_of t table in
    let doomed = keep (λ k. contains r k) (keys tree) in set_tree t table (remove_all doomed tree)

-- The loop of `commit`.
unfoldable pub apply_all : Tables → List Op → Tables
apply_all t [] = t
apply_all t (op ∷ ops) = apply_all (apply t op) ops

-- `with_tables`, for a call that only reads.
unfoldable pub with_tables {ℓ} : {A : Type ℓ} → MemoryBackend → (Tables → Result A) → Result A
with_tables b f = if b.is_closed then err closed else f b.tables

unfoldable pub get : MemoryBackend → Table → Bytes → Result (Option Bytes)
unfolding with_tables
get b table key = with_tables b (λ t. ok (Tree.get key (tree_of t table)))

unfoldable pub get_many : MemoryBackend → Table → List Bytes → Result (List (Option Bytes))
unfolding with_tables
get_many b table wanted = with_tables b (λ t. ok (map (λ k. Tree.get k (tree_of t table)) wanted))

unfoldable pub commit : MemoryBackend → List Op → Result MemoryBackend
unfolding with_tables
commit b ops = with_tables b (λ t. ok (record b { tables = apply_all t ops }))

abbrev pub shown : Bool → Bytes → Option Bytes
shown true value = some value
shown false value = none

-- The loop of `scan_tree`: `items` and `resume` so far, then the entries still to come.
unfoldable pub collect :
    ℕ
    → Bool
    → List (Bytes × Option Bytes)
    → Option Bytes
    → Tree Bytes
    → List (Bytes × Option Bytes) × Option Bytes
collect limit want items resume [] = (items, resume)
collect limit want items resume ((key, value) ∷ rest) =
    if leb limit (length items)
    then (items, resume)
    else collect limit want (items ++ ((key, shown want value) ∷ [])) (some key) rest

unfoldable pub in_direction : Bool → Tree Bytes → Tree Bytes
in_direction true t = reverse t
in_direction false t = t

unfoldable pub scan_tree : Tree Bytes → ScanRequest → Result ScanPage
unfolding in_direction
scan_tree tree q =
    if range_panics q.range
    then panic
    else let (items, resume) =
        collect q.limit q.want_values [] none (in_direction q.is_reverse (range q.range tree)) in
      let exhausted = ltb (length items) q.limit in
      ok (record { items = items; resume = if exhausted then none else resume })

unfoldable pub scan : MemoryBackend → ScanRequest → Result ScanPage
unfolding with_tables
scan b q = with_tables b (λ t. scan_tree (tree_of t q.table) q)

abbrev scan_page_size : ℕ
scan_page_size = 1024

-- A closed backend keeps nothing.
unfoldable pub close : MemoryBackend → MemoryBackend
close b = if b.is_closed then b else record { tables = no_tables; is_closed = true }

unfoldable bytes_in : Tree Bytes → ℕ
bytes_in [] = 0
bytes_in ((k, v) ∷ t) = (length k + length v) + bytes_in t

-- The `used` field of `usage`.
unfoldable usage : MemoryBackend → Result ℕ
unfolding with_tables bytes_in
usage b = with_tables b (λ t. ok (bytes_in t.meta + bytes_in t.records + bytes_in t.chunks))
