-- ===== src/Locker/Lru/Planning.antt =====
-- `LruState::plan` and `LruState::apply` of src/locker/lru.rs: what a commit sheds, and the accounting
-- after it.
pub mod Shedding
pub mod Victims
pub mod Sums
pub mod Candidates
pub mod Accounting
pub mod Evicts
use crossbank.Prelude.{
  ℕ, ◌+◌, ◌-◌, Bool, true, false, ◌&&◌, ◌||◌, not, Option, none, some, List, [], ◌∷◌, ◌++◌, map,
  if◌then◌else◌, ltb, leb, ◌==◌, keep,
}
use crossbank.Bytes.{Bytes, bytes_lt}
use crossbank.Tree
use crossbank.Tree.{Tree, keys}
use crossbank.Locker.Lru.Entries.{Entry}
use crossbank.Locker.Lru.State.{LruState, saturating_add, bytes_of, is_in, remove_keys}

pub record Plan : Type 0 where
  pub victims : List Bytes
  pub total : ℕ

-- The loop over the removals of a commit that clears nothing.
unfoldable pub without_removals : Tree Entry → List Bytes → ℕ → ℕ
without_removals t [] total = total
without_removals t (key ∷ rest) total = without_removals t rest (total - bytes_of (Tree.get key t))

-- The loop over the updates; `t` holds nothing after a clear.
unfoldable pub with_updates : Tree Entry → List (Bytes × Entry) → ℕ → ℕ
unfolding saturating_add
with_updates t [] total = total
with_updates t ((key, e) ∷ rest) total =
    with_updates t rest (saturating_add (total - bytes_of (Tree.get key t)) e.bytes)

pub record Candidate : Type 0 where
  pub tick : ℕ
  pub key : Bytes
  pub bytes : ℕ

abbrev pub candidate : Bytes × Entry → Candidate
candidate e = record { tick = e.1.tick; key = e.0; bytes = e.1.bytes }

abbrev updated_keys : List (Bytes × Entry) → List Bytes
updated_keys updates = map (λ u. u.0) updates

-- An entry that the commit neither removes, rewrites nor keeps.
unfoldable pub is_spare : List Bytes → List (Bytes × Entry) → List Bytes → Bytes → Bool
unfolding is_in
is_spare removals updates keep_keys key =
    not (is_in key removals || is_in key (updated_keys updates) || is_in key keep_keys)

unfoldable pub candidates :
    Tree Entry → List (Bytes × Entry) → List Bytes → List Bytes → List Candidate
unfolding is_spare
candidates t updates removals keep_keys =
    map candidate (keep (λ e. is_spare removals updates keep_keys e.0) t)
    ++ map candidate (keep (λ u. not (is_in u.0 keep_keys)) updates)

-- The order of the sort: by tick, then by key.
unfoldable pub sheds_before : Candidate → Candidate → Bool
sheds_before a b = ltb a.tick b.tick || (a.tick == b.tick && bytes_lt a.key b.key)

-- `sort_by`, which is stable: an element goes behind its equals that stood before it.
unfoldable pub insert_sorted : Candidate → List Candidate → List Candidate
insert_sorted c [] = c ∷ []
insert_sorted c (d ∷ ds) = if sheds_before d c then d ∷ insert_sorted c ds else c ∷ d ∷ ds

unfoldable pub sort : List Candidate → List Candidate
unfolding insert_sorted
sort [] = []
sort (c ∷ cs) = insert_sorted c (sort cs)

-- The loop that sheds until the total is within the budget.
unfoldable pub shed : ℕ → ℕ → List Candidate → Plan
shed budget total [] = record { victims = []; total = total }
shed budget total (c ∷ cs) =
    let rest = shed budget (total - c.bytes) cs in
    if leb total budget
    then record { victims = []; total = total }
    else record { victims = c.key ∷ rest.victims; total = rest.total }

-- What is accounted before the commit: after a clear, nothing.
abbrev pub remaining : LruState → Bool → Tree Entry
remaining s true = []
remaining s false = s.entries

abbrev total_before : LruState → Bool → ℕ
total_before s true = 0
total_before s false = s.total

-- The total once the removals and the updates have landed.
unfoldable pub total_after : LruState → List (Bytes × Entry) → List Bytes → Bool → ℕ
unfolding without_removals with_updates
total_after s updates removals cleared =
    let t = remaining s cleared in
    with_updates t updates (without_removals t removals (total_before s cleared))

unfoldable pub plan : LruState → List (Bytes × Entry) → List Bytes → Bool → ℕ → List Bytes → Plan
unfolding total_after candidates sort shed
plan s updates removals cleared budget keep_keys =
    let total = total_after s updates removals cleared in
    if leb total budget
    then record { victims = []; total = total }
    else shed budget total (sort (candidates (remaining s cleared) updates removals keep_keys))

unfoldable pub insert_all : List (Bytes × Entry) → Tree Entry → Tree Entry
insert_all [] t = t
insert_all ((key, e) ∷ rest) t = insert_all rest (Tree.insert key e t)

abbrev cleared_state : LruState → Bool → LruState
cleared_state s true = record s { entries = []; pending = [] }
cleared_state s false = s

unfoldable pub apply : LruState → List (Bytes × Entry) → List Bytes → Bool → Plan → LruState
unfolding remove_keys insert_all
apply s updates removals cleared p =
    let s0 = cleared_state s cleared in
    record s0 {
      entries = remove_keys p.victims (insert_all updates (remove_keys removals s0.entries));
      pending = remove_keys p.victims (remove_keys removals s0.pending);
      total = p.total;
    }
