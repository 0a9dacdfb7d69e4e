-- ===== src/Backend/Memory/Refines.antt =====
-- The in-memory backend as three maps from keys to values.
use mathlib.Core.List.{[], ◌∷◌}
use crossbank.Prelude.{
  ◌≡◌, refl, Bool, true, false, ◌&&◌, Option, none, some, List, arith, if◌then◌else◌, ◌⊎◌, any,
  keep, Bool-cases, inl, inr, ◌∙◌,
}
use crossbank.Error.{ok, err, closed}
use crossbank.Bytes.{Bytes, bytes_eq, bytes_eq_iff}
use crossbank.Tree
use crossbank.Tree.{Tree, keys, IsSorted}
use crossbank.Tree.Laws.{get-insert, get-remove, insert-IsSorted, remove-IsSorted}
use crossbank.Backend.Api.{Table, meta, records, chunks, contains, Op, put, delete, delete_range}
use crossbank.Backend.Memory
use crossbank.Backend.Memory.{
  Tables, tree_of, set_tree, MemoryBackend, remove_all, apply, apply_all, commit, close,
}

abbrev pub same_table : Table → Table → Bool
same_table meta meta = true
same_table records records = true
same_table chunks chunks = true
same_table _ _ = false

-- What a mutation does to the value under one key of one table.
abbrev pub effect : Op → Table → Bytes → Option Bytes → Option Bytes
effect (put table key value) t k old =
    if same_table table t && bytes_eq key k then some value else old
effect (delete table key) t k old = if same_table table t && bytes_eq key k then none else old
effect (delete_range table r) t k old = if same_table table t && contains r k then none else old

abbrev pub effects : List Op → Table → Bytes → Option Bytes → Option Bytes
effects [] t k old = old
effects (op ∷ ops) t k old = effects ops t k (effect op t k old)

abbrev pub value_at : Tables → Table → Bytes → Option Bytes
value_at ts t k = Tree.get k (tree_of ts t)

get-remove_all :
    (ks : List Bytes) (k : Bytes) (t : Tree Bytes)
    → Tree.get k (remove_all ks t) ≡ (if any (λ j. bytes_eq j k) ks then none else Tree.get k t)
unfolding remove_all any
get-remove_all [] k t = refl
get-remove_all (j ∷ ks) k t =
    ground (arith, get-remove_all ks k (Tree.remove j t), get-remove j k t)

any-keep_eq :
    (p : Bytes → Bool) (ks : List Bytes) (k : Bytes)
    → any (λ j. bytes_eq j k) (keep p ks) ≡ (p k && any (λ j. bytes_eq j k) ks)
unfolding any keep
any-keep_eq p [] k = ground arith
any-keep_eq p (j ∷ ks) k = elim (Bool-cases (bytes_eq j k)) [
  | inl e ↦ rw (← (bytes_eq_iff j k).0 e) (ground (arith, any-keep_eq p ks j, bytes_eq_iff j j))
  | inr n ↦ ground (arith, any-keep_eq p ks k)
]

get_of_not_any :
    (t : Tree Bytes) (k : Bytes) → any (λ j. bytes_eq j k) (keys t) ≡ false → Tree.get k t ≡ none
unfolding any Tree.get
get_of_not_any [] k h = refl
get_of_not_any ((j, v) ∷ t) k h = ground (arith, get_of_not_any t k)

get-delete_range :
    (p : Bytes → Bool) (t : Tree Bytes) (k : Bytes)
    → Tree.get k (remove_all (keep p (keys t)) t) ≡ (if p k then none else Tree.get k t)
get-delete_range p t k =
    ground
      (arith, get-remove_all (keep p (keys t)) k t, any-keep_eq p (keys t) k, get_of_not_any t k)

value_at-set_tree :
    (ts : Tables) (table t : Table) (x : Tree Bytes) (k : Bytes)
    → value_at (set_tree ts table x) t k
      ≡ (if same_table table t then Tree.get k x else value_at ts t k)
unfolding set_tree tree_of
value_at-set_tree ts meta meta x k = refl
value_at-set_tree ts meta records x k = refl
value_at-set_tree ts meta chunks x k = refl
value_at-set_tree ts records meta x k = refl
value_at-set_tree ts records records x k = refl
value_at-set_tree ts records chunks x k = refl
value_at-set_tree ts chunks meta x k = refl
value_at-set_tree ts chunks records x k = refl
value_at-set_tree ts chunks chunks x k = refl

same_table-value :
    (ts : Tables) (table t : Table) (k : Bytes)
    → same_table table t ≡ true
    → value_at ts table k ≡ value_at ts t k
same_table-value ts meta meta k h = refl
same_table-value ts records records k h = refl
same_table-value ts chunks chunks k h = refl
same_table-value ts _ _ k h = cc

-- A new tree under one table changes that table's values alone.
value_at-replaced :
    (ts : Tables) (table t : Table) (x : Tree Bytes) (k : Bytes) (b : Bool) (new : Option Bytes)
    → Tree.get k x ≡ (if b then new else value_at ts table k)
    → value_at (set_tree ts table x) t k
      ≡ (if same_table table t && b then new else value_at ts t k)
value_at-replaced ts table t x k b new h =
    value_at-set_tree ts table t x k ∙ elim (Bool-cases (same_table table t)) [
      | inl e ↦ rw (e, h, same_table-value ts table t k e) refl
      | inr e ↦ rw e refl
    ]

-- One mutation changes the maps as `effect` says.
value_at-apply :
    (ts : Tables) (op : Op) (t : Table) (k : Bytes)
    → value_at (apply ts op) t k ≡ effect op t k (value_at ts t k)
value_at-apply ts (put table key value) t k =
    unfold apply in
    value_at-replaced ts table t _ k (bytes_eq key k) (some value)
      (get-insert key k value (tree_of ts table))
value_at-apply ts (delete table key) t k =
    unfold apply in
    value_at-replaced ts table t _ k (bytes_eq key k) none (get-remove key k (tree_of ts table))
value_at-apply ts (delete_range table r) t k =
    unfold apply in
    value_at-replaced ts table t _ k (contains r k) none
      (get-delete_range (λ j. contains r j) (tree_of ts table) k)

pub value_at-apply_all :
    (ts : Tables) (ops : List Op) (t : Table) (k : Bytes)
    → value_at (apply_all ts ops) t k ≡ effects ops t k (value_at ts t k)
unfolding apply_all
value_at-apply_all ts [] t k = refl
value_at-apply_all ts (op ∷ ops) t k =
    value_at-apply_all (apply ts op) ops t k ∙ rw (value_at-apply ts op t k) refl

-- The key order that `BTreeMap` keeps, in all three tables.
pub record IsOrdered (ts : Tables) : Type 0 where
  pub meta : IsSorted ts.meta
  pub records : IsSorted ts.records
  pub chunks : IsSorted ts.chunks

tree_of-IsSorted : (ts : Tables) (t : Table) → IsOrdered ts → IsSorted (tree_of ts t)
unfolding tree_of
tree_of-IsSorted ts meta o = o.meta
tree_of-IsSorted ts records o = o.records
tree_of-IsSorted ts chunks o = o.chunks

set_tree-IsOrdered :
    (ts : Tables) (t : Table) (x : Tree Bytes)
    → IsOrdered ts
    → IsSorted x
    → IsOrdered (set_tree ts t x)
unfolding set_tree
set_tree-IsOrdered ts meta x o s = record { meta = s; records = o.records; chunks = o.chunks }
set_tree-IsOrdered ts records x o s = record { meta = o.meta; records = s; chunks = o.chunks }
set_tree-IsOrdered ts chunks x o s = record { meta = o.meta; records = o.records; chunks = s }

remove_all-IsSorted : (ks : List Bytes) (t : Tree Bytes) → IsSorted t → IsSorted (remove_all ks t)
unfolding remove_all
remove_all-IsSorted [] t s = s
remove_all-IsSorted (k ∷ ks) t s = remove_all-IsSorted ks (Tree.remove k t) (remove-IsSorted k t s)

apply-IsOrdered : (ts : Tables) (op : Op) → IsOrdered ts → IsOrdered (apply ts op)
unfolding apply
apply-IsOrdered ts (put table key value) o =
    set_tree-IsOrdered ts table _ o
      (insert-IsSorted key value (tree_of ts table) (tree_of-IsSorted ts table o))
apply-IsOrdered ts (delete table key) o =
    set_tree-IsOrdered ts table _ o
      (remove-IsSorted key (tree_of ts table) (tree_of-IsSorted ts table o))
apply-IsOrdered ts (delete_range table r) o = set_tree-IsOrdered ts table _ o (
    remove_all-IsSorted (keep (λ k. contains r k) (keys (tree_of ts table))) (tree_of ts table)
      (tree_of-IsSorted ts table o))

apply_all-IsOrdered : (ts : Tables) (ops : List Op) → IsOrdered ts → IsOrdered (apply_all ts ops)
unfolding apply_all
apply_all-IsOrdered ts [] o = o
apply_all-IsOrdered ts (op ∷ ops) o =
    apply_all-IsOrdered (apply ts op) ops (apply-IsOrdered ts op o)

-- A commit on an open backend lands whole: a later read finds what the mutations, in their order,
-- leave under each key of each table, and the trees stay in key order. On a closed backend it is
-- refused.
pub commit-refines :
    (b : MemoryBackend) (ops : List Op)
    → IsOrdered b.tables
    → (b.is_closed ≡ true) × (commit b ops ≡ err closed)
      ⊎ ((b' : MemoryBackend) × (commit b ops ≡ ok b')
          × IsOrdered b'.tables
          × ((t : Table) (k : Bytes)
              → Memory.get b' t k ≡ ok (effects ops t k (value_at b.tables t k))))
commit-refines b ops o = elim (Bool-cases b.is_closed) [
  | inl e ↦ inl (e, unfold commit in rw e refl)
  | inr e ↦ inr (
    record b { tables = apply_all b.tables ops },
    unfold commit in rw e refl,
    apply_all-IsOrdered b.tables ops o,
    λ t k. unfold Memory.get in rw (e, value_at-apply_all b.tables ops t k) refl,
  )
]
