-- ===== src/Locker/Lru/Planning/Sums.antt =====
-- The bytes that a tree of entries accounts for, through removals and insertions.
use crossbank.Prelude.{
  ℕ, ◌+◌, ◌-◌, ◌≤◌, min, ◌≡◌, refl, ap, sym, ◌∙◌, true, false, List, [], ◌∷◌, map, arith, All,
  Bool-cases, inl, inr,
}
use crossbank.Bytes.{Bytes, bytes_eq, bytes_lt, bytes_eq_iff, bytes_lt_connex, lt_ne, gt_ne}
use crossbank.Tree
use crossbank.Tree.{Tree, IsSorted, AboveAll}
use crossbank.Tree.Laws.{
  AboveAll-trans, get-insert, get-remove, insert-IsSorted, remove-IsSorted, above_absent,
}
use crossbank.Locker.Lru.Entries.{Entry}
use crossbank.Locker.Lru.State.{bytes_of, sum_bytes, saturating_add, max_u64, remove_keys}
use crossbank.Locker.Lru.Planning.{without_removals, with_updates, insert_all}

pub sum-remove :
    (k : Bytes) (t : Tree Entry)
    → IsSorted t
    → sum_bytes (Tree.remove k t) + bytes_of (Tree.get k t) ≡ sum_bytes t
unfolding Tree.get Tree.remove
sum-remove k [] s = omega arith
sum-remove k ((j, e) ∷ t) s = elim (Bool-cases (bytes_eq j k)) [
  | inl same ↦
      let (absent, kept) = above_absent j t s.0 in
      let kept_k : Tree.remove k t ≡ t =
        ap (λ x. Tree.remove x t) (sym ((bytes_eq_iff j k).0 same)) ∙ kept in
      rw (same, kept_k) (omega arith)
  | inr n ↦ rw n (omega (arith, sum-remove k t s.1))
]

sum-insert :
    (k : Bytes) (e : Entry) (t : Tree Entry)
    → IsSorted t
    → sum_bytes (Tree.insert k e t) + bytes_of (Tree.get k t) ≡ sum_bytes t + e.bytes
unfolding Tree.get Tree.insert
sum-insert k e [] s = omega arith
sum-insert k e ((j, f) ∷ t) s = elim (Bool-cases (bytes_lt k j)) [
  | inl before ↦
      let absent = (above_absent k t (AboveAll-trans k j t before s.0)).0 in
      rw (before, lt_ne k j before, absent) (omega arith)
  | inr later ↦ elim (Bool-cases (bytes_lt j k)) [
    | inl after ↦ rw (later, after, gt_ne j k after) (omega (arith, sum-insert k e t s.1))
    | inr here ↦
        let same : bytes_eq j k ≡ true = (bytes_eq_iff j k).1 (bytes_lt_connex j k here later) in
        rw (later, here, same) (omega arith)
  ]
]

-- Keys that differ from a given one, and keys that all differ.
abbrev pub Apart : Bytes → List Bytes → Type 0
Apart k = All (λ j. bytes_eq k j ≡ false)

abbrev pub Distinct : List Bytes → Type 0
Distinct [] = Unit
Distinct (k ∷ ks) = Apart k ks × Distinct ks

without_removals-remove :
    (k : Bytes) (ks : List Bytes) (t : Tree Entry) (total : ℕ)
    → Apart k ks
    → without_removals (Tree.remove k t) ks total ≡ without_removals t ks total
unfolding without_removals
without_removals-remove k [] t total a = refl
without_removals-remove k (j ∷ ks) t total a =
    rw (get-remove k j t, a.0)
      (without_removals-remove k ks t (total - bytes_of (Tree.get j t)) a.1)

-- What the removals take off the total is what the entries they remove account for.
pub without_removals-sum :
    (ks : List Bytes) (t : Tree Entry)
    → IsSorted t
    → Distinct ks
    → without_removals t ks (sum_bytes t) ≡ sum_bytes (remove_keys ks t)
unfolding without_removals remove_keys
without_removals-sum [] t s d = refl
without_removals-sum (k ∷ ks) t s d =
    let left : sum_bytes t - bytes_of (Tree.get k t) ≡ sum_bytes (Tree.remove k t) =
      omega (arith, sum-remove k t s) in
    ap (without_removals t ks) left
    ∙ sym (without_removals-remove k ks t (sum_bytes (Tree.remove k t)) d.0)
    ∙ without_removals-sum ks (Tree.remove k t) (remove-IsSorted k t s) d.1

abbrev pub sum_updates : List (Bytes × Entry) → ℕ
sum_updates [] = 0
sum_updates ((k, e) ∷ us) = e.bytes + sum_updates us

abbrev pub keys_of : List (Bytes × Entry) → List Bytes
keys_of us = map (λ u. u.0) us

with_updates-insert :
    (k : Bytes) (e : Entry) (us : List (Bytes × Entry)) (t : Tree Entry) (total : ℕ)
    → Apart k (keys_of us)
    → with_updates (Tree.insert k e t) us total ≡ with_updates t us total
unfolding with_updates
with_updates-insert k e [] t total a = refl
with_updates-insert k e ((j, f) ∷ us) t total a =
    rw (get-insert k j e t, a.0)
      (with_updates-insert k e us t (saturating_add (total - bytes_of (Tree.get j t)) f.bytes) a.1)

pub with_updates-remove :
    (k : Bytes) (us : List (Bytes × Entry)) (t : Tree Entry) (total : ℕ)
    → Apart k (keys_of us)
    → with_updates (Tree.remove k t) us total ≡ with_updates t us total
unfolding with_updates
with_updates-remove k [] t total a = refl
with_updates-remove k ((j, f) ∷ us) t total a =
    rw (get-remove k j t, a.0)
      (with_updates-remove k us t (saturating_add (total - bytes_of (Tree.get j t)) f.bytes) a.1)

-- What the updates make of the total is what the tree then accounts for, short of overflow.
pub with_updates-sum :
    (us : List (Bytes × Entry)) (t : Tree Entry)
    → IsSorted t
    → Distinct (keys_of us)
    → sum_bytes t + sum_updates us ≤ max_u64
    → with_updates t us (sum_bytes t) ≡ sum_bytes (insert_all us t)
unfolding with_updates insert_all saturating_add
with_updates-sum [] t s d small = refl
with_updates-sum ((k, e) ∷ us) t s d small =
    let put = sum-insert k e t s in
    let got = sum-remove k t s in
    let now : min (sum_bytes t - bytes_of (Tree.get k t) + e.bytes) max_u64
        ≡ sum_bytes (Tree.insert k e t) =
      omega (arith, put, got) in
    ap (with_updates t us) now
    ∙ sym (with_updates-insert k e us t (sum_bytes (Tree.insert k e t)) d.0)
    ∙ with_updates-sum us (Tree.insert k e t) (insert-IsSorted k e t s) d.1 (omega (arith, put))
