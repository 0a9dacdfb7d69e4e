-- ===== src/Locker/Lazy/Index/Puts.antt =====
-- A put, a delete and a clear keep the index true.
use crossbank.Prelude.{
  ◌≡◌, refl, ap, sym, ◌∙◌, Bool, true, false, Option, none, some, [], ◌∷◌, ◌++◌, arith, Bool-cases,
  inl, inr, if◌then◌else◌, ◌⊎◌,
}
use crossbank.Bytes.{Bytes, IsBytes, bytes_eq}
use crossbank.Tree
use crossbank.Tree.Laws.{get-insert, get-remove}
use crossbank.Backend.Api.{records}
use crossbank.Backend.Memory.{MemoryBackend}
use crossbank.Backend.Memory.Refines.{value_at}
use crossbank.Locker.Inner.{encode_key}
use crossbank.Locker.Chunk.{ValueIds, is_pointer}
use crossbank.Locker.Lru.State.{contains_key}
use crossbank.Locker.Transaction.{Pending, entry_view, or_view, staged_view}
use crossbank.Locker.Resident.{Resident, KeySet, is_deferred, change_set, holds_key, is_some}
use crossbank.Locker.Lazy.Index.{IsTrue, record_at, over}
use crossbank.Locker.Lazy.Index.Changes.{staged_view-append, over-or_view, staged_view_one}

-- A key that is marked after a mark changed: the key itself, or one marked before.
pub holds_key-note :
    (k j : Bytes) (is_inline : Bool) (marks : Option KeySet)
    → holds_key j
        (change_set (λ keys. if is_inline then Tree.insert k tt keys else Tree.remove k keys) marks)
      ≡ true
    → (bytes_eq k j ≡ true) × (is_inline ≡ true)
      ⊎ (bytes_eq k j ≡ false) × (holds_key j marks ≡ true)
unfolding contains_key
holds_key-note k j is_inline none h = absurd (ground arith)
holds_key-note k j true (some keys) h = elim (Bool-cases (bytes_eq k j)) [
  | inl e ↦ inl (e, refl)
  | inr n ↦ inr (n, ground (arith, get-insert k j tt keys))
]
holds_key-note k j false (some keys) h = elim (Bool-cases (bytes_eq k j)) [
  | inl e ↦ absurd (ground (arith, get-remove k j keys))
  | inr n ↦ inr (n, ground (arith, get-remove k j keys))
]

-- One more entry is staged: the index changes as the entry says, and its key is not marked.
module _ (r : Resident) (t : IsTrue r) (late : is_deferred r ≡ true) where
  view-snoc :
      (e : Pending) (j : Bytes)
      → staged_view j (r.staged ++ (e ∷ [])) ≡ or_view (entry_view j e) (staged_view j r.staged)
  view-snoc e j =
      staged_view-append j r.staged (e ∷ [])
      ∙ ap (λ v. or_view v (staged_view j r.staged)) (staged_view_one j e)

  abbrev staged_with : Pending → (KeySet → KeySet) → Option KeySet → Resident
  staged_with e change marks = record r {
    staged = r.staged ++ (e ∷ []);
    index = change_set change r.index;
    known_inline = marks;
  }

  pub staged-IsTrue :
      (e : Pending) (change : KeySet → KeySet) (marks : Option KeySet)
      → ((j : Bytes)
          → contains_key (change t.keys) j ≡ over (entry_view j e) (contains_key t.keys j))
      → ((j : Bytes)
          → holds_key j marks ≡ true
          → (entry_view j e ≡ none) × (holds_key j r.known_inline ≡ true))
      → IsTrue (staged_with e change marks)
  unfolding is_deferred or_view
  staged-IsTrue e change marks changed fewer = record {
    unbudgeted = t.unbudgeted;
    lazily = t.lazily;
    prompt = λ now. absurd (ground arith);
    keys = change t.keys;
    is_index = ap (change_set change) t.is_index;
    tells = λ j jb.
        changed j
        ∙ ap (over (entry_view j e)) (t.tells j jb)
        ∙ sym (over-or_view (entry_view j e) (staged_view j r.staged) (is_some (record_at r j)))
        ∙ ap (λ v. over v (is_some (record_at r j))) (sym (view-snoc e j));
    marks = λ j jb m.
        let (other, before) = fewer j m in
        let (free, raw, stored, plain) = t.marks j jb before in
        (
          view-snoc e j ∙ ap (λ v. or_view v (staged_view j r.staged)) other ∙ free,
          raw,
          stored,
          plain,
        );
  }

-- A commit with nothing staged: the records and the index change alike.
pub committed-IsTrue :
    (r : Resident) (t : IsTrue r) (b : MemoryBackend) (values : ValueIds) (change : KeySet → KeySet)
    (marks : Option KeySet) (view : Bytes → Option (Option Bytes))
    → r.staged ≡ []
    → ((j : Bytes) → contains_key (change t.keys) j ≡ over (view j) (contains_key t.keys j))
    → ((j : Bytes)
        → IsBytes j
        → is_some (value_at b.tables records (encode_key r.inner j))
          ≡ over (view j) (is_some (record_at r j)))
    → ((j : Bytes)
        → IsBytes j
        → holds_key j marks ≡ true
        → (raw : Bytes) × (value_at b.tables records (encode_key r.inner j) ≡ some raw)
          × (is_pointer raw ≡ false))
    → IsTrue (record r {
      values = values;
      backend = b;
      index = change_set change r.index;
      known_inline = marks;
    })
unfolding is_deferred staged_view
committed-IsTrue r t b values change marks view clean changed landed plain = record {
  unbudgeted = t.unbudgeted;
  lazily = t.lazily;
  prompt = t.prompt;
  keys = change t.keys;
  is_index = ap (change_set change) t.is_index;
  tells = λ j jb.
      rw clean (changed j ∙ ap (over (view j)) (rw clean at (t.tells j jb)) ∙ sym (landed j jb));
  marks = λ j jb m.
      let (raw, stored, inlined) = plain j jb m in (ap (staged_view j) clean, raw, stored, inlined);
}
