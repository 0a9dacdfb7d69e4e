-- ===== src/Locker/Lazy/Index/Changes.antt =====
-- What a write changes in the index and in the staged view.
use crossbank.Prelude.{
  ◌≡◌, refl, ap, sym, ◌∙◌, Bool, Option, none, some, List, [], ◌∷◌, ◌++◌, arith, Bool-cases, inl,
  inr, map,
}
use crossbank.Bytes.{Bytes, bytes_eq}
use crossbank.Tree
use crossbank.Tree.Laws.{get-insert, get-remove}
use crossbank.Locker.Lru.State.{contains_key}
use crossbank.Locker.Inner.{Inner}
use crossbank.Locker.Transaction.{
  TxMode, Pending, Staged, entry_view, or_view, staged_view, pending_of,
}
use crossbank.Locker.Transaction.View.{or_view_assoc, or_view-none}
use crossbank.Locker.Transaction.Lands.{Leaves}
use crossbank.Locker.Resident.{KeySet, is_some}
use crossbank.Locker.Lazy.Transact.{index_entry, index_entries}
use crossbank.Locker.Lazy.Index.{over}

pub over-or_view :
    (v w : Option (Option Bytes)) (there : Bool) → over (or_view v w) there ≡ over v (over w there)
unfolding or_view
over-or_view none w there = refl
over-or_view (some v) w there = refl

pub contains_key-insert :
    (k j p : Bytes) (keys : KeySet)
    → contains_key (Tree.insert k tt keys) j
      ≡ over (entry_view j (Pending.put k p)) (contains_key keys j)
unfolding contains_key entry_view
contains_key-insert k j p keys = elim (Bool-cases (bytes_eq k j)) [
  | inl e ↦ ground (arith, get-insert k j tt keys)
  | inr e ↦ ground (arith, get-insert k j tt keys)
]

pub contains_key-remove :
    (k j : Bytes) (keys : KeySet)
    → contains_key (Tree.remove k keys) j
      ≡ over (entry_view j (Pending.delete k)) (contains_key keys j)
unfolding contains_key entry_view
contains_key-remove k j keys = elim (Bool-cases (bytes_eq k j)) [
  | inl e ↦ ground (arith, get-remove k j keys)
  | inr e ↦ ground (arith, get-remove k j keys)
]

-- The later entries of a write-set decide.
pub staged_view-append :
    (j : Bytes) (xs ys : List Pending)
    → staged_view j (xs ++ ys) ≡ or_view (staged_view j ys) (staged_view j xs)
unfolding staged_view
staged_view-append j [] ys = sym (or_view-none (staged_view j ys))
staged_view-append j (x ∷ xs) ys =
    ap (λ v. or_view v (entry_view j x)) (staged_view-append j xs ys)
    ∙ or_view_assoc (staged_view j ys) (staged_view j xs) (entry_view j x)

pub staged_view_one : (j : Bytes) (e : Pending) → staged_view j (e ∷ []) ≡ entry_view j e
unfolding staged_view or_view
staged_view_one j e = refl

module _ {T : Type 0} where
  contains_key-index_entry :
      (j : Bytes) (e : Staged T) (keys : KeySet)
      → contains_key (index_entry e keys) j
        ≡ over (entry_view j (pending_of e)) (contains_key keys j)
  unfolding index_entry pending_of
  contains_key-index_entry j (Staged.put k p v) keys = contains_key-insert k j p keys
  contains_key-index_entry j (Staged.delete k) keys = contains_key-remove k j keys
  contains_key-index_entry j Staged.clear keys = unfold entry_view contains_key Tree.get in refl

  -- A transaction changes the index as its staged view says.
  pub contains_key-index_entries :
      (j : Bytes) (es : List (Staged T)) (keys : KeySet)
      → contains_key (index_entries es keys) j
        ≡ over (staged_view j (map pending_of es)) (contains_key keys j)
  unfolding index_entries staged_view
  contains_key-index_entries j [] keys = refl
  contains_key-index_entries j (e ∷ es) keys =
      contains_key-index_entries j es (index_entry e keys)
      ∙ ap (over (staged_view j (map pending_of es))) (contains_key-index_entry j e keys)
      ∙ sym (
          over-or_view (staged_view j (map pending_of es)) (entry_view j (pending_of e))
            (contains_key keys j))

-- What a commit leaves under a key has a value where its view says so.
pub Leaves-over :
    (i : Inner) (mode : TxMode) (view : Option (Option Bytes)) (old new : Option Bytes)
    → Leaves i mode view old new
    → is_some new ≡ over view (is_some old)
Leaves-over i mode none old new l = ap is_some l
Leaves-over i mode (some none) old new l = ap is_some l
Leaves-over i mode (some (some payload)) old new (raw, e, _) = ap is_some e
