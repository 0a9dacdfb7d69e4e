-- ===== src/Locker/Resident/Flush.antt =====
-- Committing what is staged: `flush` and `flush_locked` of src/locker/resident.rs.
pub mod Batch
pub mod Stored
use crossbank.Prelude.{
  ℕ, Bool, true, false, Option, none, some, List, [], ◌∷◌, ◌++◌, length, map, if◌then◌else◌, ◌==◌,
}
use crossbank.Error.{Result, ok, err, panic}
use crossbank.Bytes.{Bytes}
use crossbank.Locker.Transaction.{Pending, ops_for_items}
use crossbank.Locker.Resident.{
  Resident, Act, ◌>>=◌, ◌>>◌, give, modify, read, continue, take_staged, restage, accounting,
  Accounting, commit, with_values,
}
use crossbank.Locker.Resident.Budget.{Budget, budget_ops, apply_budget}

abbrev pub written_keys : Accounting → List Bytes
written_keys a = map (λ u. u.0) a.updates

-- The mutations of a batch and of the budget that go with it, in one commit. A commit never evicts
-- what it writes.
unfoldable pub commit_entries : List Pending → Act Budget
commit_entries entries = do
  r ← read (λ r. r)
  ops ← with_values (λ b values. ops_for_items r.inner b entries r.mode values)
  let a = accounting entries
  (more, budget) ← budget_ops a (written_keys a)
  commit (ops ++ more)
  give (ok budget)

-- A batch whose commit failed is put back.
unfoldable pub or_restage : {A : Type 0} → List Pending → Result A × Resident → Result A × Resident
or_restage entries (ok a, r) = (ok a, r)
or_restage entries (err e, r) = (err e, restage entries r)
or_restage entries (panic, r) = (panic, r)

unfoldable pub flush_entries : List Pending → Act (Unit {0})
unfolding commit_entries or_restage
flush_entries [] r = (ok tt, r)
flush_entries (entry ∷ entries) r =
    continue (or_restage (entry ∷ entries) (commit_entries (entry ∷ entries) r))
      (λ budget. modify (apply_budget budget))

unfoldable pub flush_locked : Act (Unit {0})
unfolding flush_entries take_staged
flush_locked = do entries ← take_staged; flush_entries entries

unfoldable pub flush : Act (Unit {0})
unfolding flush_locked
flush r = if length r.staged == 0 then (ok tt, r) else flush_locked r

-- `Inner::flush_backend`: the in-memory backend has nothing to force out.
unfoldable pub flush_backend : Act (Unit {0})
flush_backend = give (ok tt)

-- `Result::and`
unfoldable pub and_result : Result (Unit {0}) → Result (Unit {0}) → Result (Unit {0})
and_result panic second = panic
and_result (err e) second = err e
and_result (ok _) second = second
