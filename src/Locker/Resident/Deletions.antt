-- ===== src/Locker/Resident/Deletions.antt =====
-- A key that is deleted twice in one batch, and the byte budget: `accounting` of src/locker/resident.rs
-- with `plan` and `apply` of src/locker/lru.rs.
use crossbank.Prelude.{
  ℕ, ◌-◌, ◌≤◌, ◌<◌, ◌≡◌, refl, ap, ◌∙◌, none, some, [], ◌∷◌, arith, leb, true, false, subst, keep,
}
use crossbank.Bytes.{Bytes, bytes_eq_refl}
use crossbank.Tree
use crossbank.Tree.Laws.{get-remove, remove-IsSorted}
use crossbank.Locker.Lru.Entries.{Entry}
use crossbank.Locker.Lru.State.{LruState, sum_bytes, remove_keys, bytes_of}
use crossbank.Locker.Lru.Planning.{
  plan, apply, total_after, without_removals, with_updates, insert_all,
}
use crossbank.Locker.Lru.Planning.Sums.{sum-remove}
use crossbank.Locker.Lru.Planning.Accounting.{IsAccounted}
use crossbank.Locker.Transaction.{Pending}
use crossbank.Locker.Resident.{accounting, account_all, account, without_update, keep, false}

accounting-delete_twice :
    (key : Bytes)
    → accounting (Pending.delete key ∷ Pending.delete key ∷ [])
      ≡ record { updates = []; removals = key ∷ key ∷ []; is_cleared = false }
unfolding accounting account_all account without_update keep
accounting-delete_twice key = refl

-- The two deletions, planned and applied within the budget.
plan-delete_twice :
    (s : LruState) (key : Bytes) (e : Entry) (budget : ℕ)
    → Tree.get key s.entries ≡ some e
    → s.total ≤ budget
    → plan s [] (key ∷ key ∷ []) false budget []
      ≡ record { victims = []; total = s.total - e.bytes - e.bytes }
unfolding plan total_after without_removals with_updates
plan-delete_twice s key e budget h within =
    let fits : leb (s.total - e.bytes - e.bytes) budget ≡ true = ground arith in rw (h, fits) refl

apply-delete_twice :
    (s : LruState) (key : Bytes) (e : Entry) (budget : ℕ)
    → Tree.get key s.entries ≡ some e
    → s.total ≤ budget
    → IsAccounted (apply s [] (key ∷ key ∷ []) false (plan s [] (key ∷ key ∷ []) false budget []))
    → s.total - e.bytes - e.bytes ≡ sum_bytes (Tree.remove key (Tree.remove key s.entries))
unfolding apply remove_keys insert_all
apply-delete_twice s key e budget h within a =
    (subst (λ p. IsAccounted (apply s [] (key ∷ key ∷ []) false p))
      (plan-delete_twice s key e budget h within) a).total

-- Deleting a key twice in one batch or one transaction breaks the accounting: its size is subtracted
-- twice, so the total is no longer what the entries add up to. The accounting was right before, the key
-- had a size above zero, other keys were accounted as well, and the total was within the budget.
pub accounting-miscounts :
    (s : LruState) (key : Bytes) (e : Entry) (budget : ℕ)
    → IsAccounted s
    → Tree.get key s.entries ≡ some e
    → 0 < e.bytes
    → e.bytes < s.total
    → s.total ≤ budget
    → ¬ IsAccounted (
        let a = accounting (Pending.delete key ∷ Pending.delete key ∷ []) in
        apply s [] a.removals a.is_cleared (plan s [] a.removals a.is_cleared budget []))
unfolding accounting account_all account without_update keep
accounting-miscounts s key e budget right h some_bytes others within wrong =
    let once = sum-remove key s.entries right.sorted in
    let twice =
      sum-remove key (Tree.remove key s.entries) (remove-IsSorted key s.entries right.sorted) in
    let gone : Tree.get key (Tree.remove key s.entries) ≡ none =
      get-remove key key s.entries ∙ rw (bytes_eq_refl key) refl in
    let there : bytes_of (Tree.get key s.entries) ≡ e.bytes = ap bytes_of h in
    let nothing : bytes_of (Tree.get key (Tree.remove key s.entries)) ≡ 0 = ap bytes_of gone in
    omega (
      arith,
      once,
      twice,
      there,
      nothing,
      right.total,
      apply-delete_twice s key e budget h within wrong,
    )
