-- ===== src/Locker/Lru/Planning/Accounting.antt =====
-- The accounting after a commit is the sum of the entries that are left.
use crossbank.Prelude.{
  ℕ, ◌+◌, ◌≤◌, ◌≡◌, refl, ap, sym, ◌∙◌, Bool, true, false, List, [], ◌∷◌, arith, if◌then◌else◌, leb,
  All, Bool-cases, inl, inr,
}
use crossbank.Bytes.{Bytes}
use crossbank.Tree
use crossbank.Tree.{Tree, IsSorted}
use crossbank.Tree.Laws.{remove-IsSorted}
use crossbank.Locker.Lru.Entries.{Entry}
use crossbank.Locker.Lru.State.{LruState, sum_bytes, max_u64, remove_keys}
use crossbank.Locker.Lru.Planning.{
  Plan, candidates, sort, shed, remaining, total_after, without_removals, with_updates, plan,
  insert_all, apply,
}
use crossbank.Locker.Lru.Planning.Victims.{sort-All}
use crossbank.Locker.Lru.Planning.Sums.{
  Apart, Distinct, sum_updates, keys_of, sum-remove, without_removals-sum, with_updates-remove,
  with_updates-sum,
}
use crossbank.Locker.Lru.Planning.Candidates.{candidates-DistinctKeys, candidates-Weighed}
use crossbank.Locker.Lru.Planning.Shedding.{
  sort-DistinctKeys, shed-sum, remove_keys-IsSorted, insert_all-IsSorted,
}

-- The entries are in key order, and the total is what they add up to.
pub record IsAccounted (s : LruState) : Type 0 where
  pub sorted : IsSorted s.entries
  pub total : s.total ≡ sum_bytes s.entries

sum-remove_keys :
    (ks : List Bytes) (t : Tree Entry) → IsSorted t → sum_bytes (remove_keys ks t) ≤ sum_bytes t
unfolding remove_keys
sum-remove_keys [] t s = omega arith
sum-remove_keys (k ∷ ks) t s =
    omega (arith, sum-remove k t s, sum-remove_keys ks (Tree.remove k t) (remove-IsSorted k t s))

with_updates-remove_keys :
    (ks : List Bytes) (us : List (Bytes × Entry)) (t : Tree Entry) (total : ℕ)
    → All (λ k. Apart k (keys_of us)) ks
    → with_updates (remove_keys ks t) us total ≡ with_updates t us total
unfolding remove_keys
with_updates-remove_keys [] us t total a = refl
with_updates-remove_keys (k ∷ ks) us t total a =
    with_updates-remove_keys ks us (Tree.remove k t) total a.1
    ∙ with_updates-remove k us t total a.0

-- What a commit says of itself: no key twice, and none both removed and updated.
pub record IsBatch (updates : List (Bytes × Entry)) (removals : List Bytes) : Type 0 where
  pub updates_differ : Distinct (keys_of updates)
  pub removals_differ : Distinct removals
  pub apart : All (λ k. Apart k (keys_of updates)) removals

module _ (t : Tree Entry) (sorted : IsSorted t) (updates : List (Bytes × Entry))
    (removals : List Bytes) (batch : IsBatch updates removals)
    (small : sum_bytes t + sum_updates updates ≤ max_u64) where
  abbrev landed : Tree Entry
  landed = insert_all updates (remove_keys removals t)

  landed-sum : with_updates t updates (without_removals t removals (sum_bytes t)) ≡ sum_bytes landed
  landed-sum =
      ap (with_updates t updates) (without_removals-sum removals t sorted batch.removals_differ)
      ∙ sym (
          with_updates-remove_keys removals updates t (sum_bytes (remove_keys removals t))
            batch.apart)
      ∙ with_updates-sum updates (remove_keys removals t) (remove_keys-IsSorted removals t sorted)
          batch.updates_differ (omega (arith, sum-remove_keys removals t sorted))

  landed-IsSorted : IsSorted landed
  landed-IsSorted =
      insert_all-IsSorted updates (remove_keys removals t) (remove_keys-IsSorted removals t sorted)

  -- The total of a plan is the sum of what is left once its victims are gone.
  planned :
      (budget : ℕ) (keep_keys : List Bytes) (total : ℕ) (p : Plan)
      → total ≡ sum_bytes landed
      → p ≡ (
          if leb total budget
          then record { victims = []; total = total }
          else shed budget total (sort (candidates t updates removals keep_keys)))
      → p.total ≡ sum_bytes (remove_keys p.victims landed)
  unfolding remove_keys
  planned budget keep_keys total p h e = elim (Bool-cases (leb total budget)) [
    | inl within ↦ rw (e, within) h
    | inr over ↦
        rw (e, over, h)
          (shed-sum budget (sort (candidates t updates removals keep_keys)) landed landed-IsSorted
            (sort-DistinctKeys _
              (candidates-DistinctKeys t sorted updates batch.updates_differ removals keep_keys))
            (sort-All _ _
              (candidates-Weighed t sorted updates batch.updates_differ removals keep_keys)))
  ]

-- The total that a plan starts from is the sum of what the commit leaves accounted for.
pub total_after-sum :
    (s : LruState) (updates : List (Bytes × Entry)) (removals : List Bytes) (is_cleared : Bool)
    → IsAccounted s
    → IsBatch updates removals
    → sum_bytes (remaining s is_cleared) + sum_updates updates ≤ max_u64
    → total_after s updates removals is_cleared
      ≡ sum_bytes (insert_all updates (remove_keys removals (remaining s is_cleared)))
unfolding total_after
total_after-sum s updates removals true a batch small =
    landed-sum [] tt updates removals batch small
total_after-sum s updates removals false a batch small =
    ap (λ n. with_updates s.entries updates (without_removals s.entries removals n)) a.total
    ∙ landed-sum s.entries a.sorted updates removals batch small

-- A commit that is planned and then applied leaves the accounting right: the entries are in key order
-- and the total is what they add up to, whether the locker is cleared or not, and whatever is shed. It
-- is assumed that the accounting was right before, that the commit names no key twice and none both
-- removed and updated, and that the sizes together fit a `u64`.
pub apply-IsAccounted :
    (s : LruState) (updates : List (Bytes × Entry)) (removals : List Bytes) (is_cleared : Bool)
    (budget : ℕ) (keep_keys : List Bytes)
    → IsAccounted s
    → IsBatch updates removals
    → sum_bytes (remaining s is_cleared) + sum_updates updates ≤ max_u64
    → IsAccounted
        (apply s updates removals is_cleared (plan s updates removals is_cleared budget keep_keys))
unfolding apply plan total_after
apply-IsAccounted s updates removals true budget keep_keys a batch small = record {
  sorted =
      remove_keys-IsSorted (plan s updates removals true budget keep_keys).victims _
        (landed-IsSorted [] tt updates removals batch small);
  total =
      planned [] tt updates removals batch small budget keep_keys _ _
        (total_after-sum s updates removals true a batch small) refl;
}
apply-IsAccounted s updates removals false budget keep_keys a batch small = record {
  sorted =
      remove_keys-IsSorted (plan s updates removals false budget keep_keys).victims _
        (landed-IsSorted s.entries a.sorted updates removals batch small);
  total =
      planned s.entries a.sorted updates removals batch small budget keep_keys _ _
        (total_after-sum s updates removals false a batch small) refl;
}
