-- ===== src/Locker/Lazy/Index/Steps.antt =====
-- A lazy locker as a system of calls: each leaves the index true.
use mathlib.Core.List.{append-nil}
use crossbank.Prelude.{
  ◌≡◌, refl, ap, sym, ◌∙◌, Bool, true, false, Option, none, some, List, [], ◌∷◌, ◌++◌, Bool-cases,
  inl, inr, if◌then◌else◌, subst, length, map, ◌==◌, ◌&&◌,
}
use crossbank.Error.{Result, ok, err, panic, is_corruption}
use crossbank.Bytes.{Bytes}
use crossbank.Backend.Memory.{MemoryBackend}
use crossbank.Locker.Policy.{skip, on_corrupt_eq}
use crossbank.Locker.Chunk.{ValueIds}
use crossbank.Locker.Inner.Value.{Postcard, to_payload, of_view, load_value}
use crossbank.Locker.Transaction.{Staged, pending_of, staged_view}
use crossbank.Locker.Resident.{
  Resident, give, change_set, is_deferred, is_some, take_staged, restage, continue, modify,
  touch_index, forget_inline, note_corrupt,
}
use crossbank.Locker.Resident.Budget.{Budget, no_budget, note_read, note_read_in}
use crossbank.Locker.Resident.Flush
use crossbank.Locker.Resident.Flush.{commit_entries, or_restage, flush_locked}
use crossbank.Locker.Resident.Flush.Batch.{IsStill, StillUnlessDone, commit_entries-StillUnlessDone}
use crossbank.Locker.Resident.Flush.Stored.{HasLanded, commit_entries-HasLanded, apply_budget-none}
use crossbank.Locker.Lazy.{delete_by, clear_locker}
use crossbank.Locker.Lazy.Values.{get_by, get_from, load_and_note, noted, touched, put_by}
use crossbank.Locker.Lazy.Transact
use crossbank.Locker.Lazy.Transact.{
  index_entries, event_of, announce_entries, merge_batches, after_transact, transact_entries,
}
use crossbank.Locker.Lazy.Index.{IsTrue, record_at, over}
use crossbank.Locker.Lazy.Index.Changes.{
  contains_key-index_entries, over-or_view, staged_view-append, Leaves-over,
}
use crossbank.Locker.Lazy.Index.Settled.{
  Upholds, IsStill-IsTrue, announce-IsTrue, give-Upholds, ensure_open-Upholds,
}
use crossbank.Locker.Lazy.Index.Batches.{flush_locked-Upholds}
use crossbank.Locker.Lazy.Index.Writes.{
  put_payload-Upholds, delete_by-Upholds, clear_locker-Upholds, nothing_marked,
}

pub restage-IsStill :
    (r s : Resident) → IsStill (record r { staged = [] }) s → IsStill r (restage r.staged s)
unfolding restage
restage-IsStill r s (v, c, l, e, m) = (
  v,
  c,
  l,
  ap (λ (x : Resident). record x { staged = r.staged ++ x.staged }) e
      ∙ ap (λ x. record r { values = v; ticks = c; lru = l; staged = x }) (append-nil r.staged),
  m,
)

module _ {T : Type 0} (r : Resident) (t : IsTrue r) where
  announce_entries-IsTrue :
      (es : List (Staged T)) (s : Resident) → IsTrue s → IsTrue (announce_entries es s)
  unfolding announce_entries
  announce_entries-IsTrue [] s u = u
  announce_entries-IsTrue (e ∷ es) s u =
      announce_entries-IsTrue es _ (announce-IsTrue (event_of e) s u)

  -- What a transaction that landed shows, with what was staged before it.
  after_transact-IsTrue :
      (es : List (Staged T)) (values : ValueIds) (b : MemoryBackend)
      → HasLanded r (λ j. staged_view j (merge_batches r.staged es)) b
      → IsTrue
          (after_transact es no_budget (record r { values = values; backend = b; staged = [] }))
  unfolding after_transact touch_index forget_inline is_deferred staged_view merge_batches
  after_transact-IsTrue es values b landed = announce_entries-IsTrue es _ (
      subst IsTrue (sym (apply_budget-none _ t.unbudgeted)) (record {
        unbudgeted = t.unbudgeted;
        lazily = t.lazily;
        prompt = λ _. refl;
        keys = index_entries es t.keys;
        is_index = ap (change_set (index_entries es)) t.is_index;
        tells = λ j jb.
            let there = is_some (record_at r j) in
            let new = staged_view j (map pending_of es) in
            contains_key-index_entries j es t.keys
            ∙ ap (over new) (t.tells j jb)
            ∙ sym (over-or_view new (staged_view j r.staged) there)
            ∙ ap (λ v. over v there) (sym (staged_view-append j r.staged (map pending_of es)))
            ∙ sym (
                Leaves-over r.inner r.mode (staged_view j (r.staged ++ map pending_of es))
                  (record_at r j) _ (landed.0 j jb));
        marks = λ j jb m. nothing_marked r t j r.known_inline m;
      }))

  transact_entries-Upholds : (es : List (Staged T)) → Upholds (transact_entries es r)
  unfolding transact_entries take_staged or_restage
  transact_entries-Upholds [] = t
  transact_entries-Upholds (e ∷ es) =
      go (commit_entries (merge_batches r.staged (e ∷ es)) (record r { staged = [] })) refl (
        commit_entries-StillUnlessDone (merge_batches r.staged (e ∷ es)) (record r { staged = [] }))
    where
      go :
          (x : Result Budget × Resident)
          → commit_entries (merge_batches r.staged (e ∷ es)) (record r { staged = [] }) ≡ x
          → StillUnlessDone (record r { staged = [] }) x
          → Upholds
              (continue (or_restage r.staged x) (λ budget. modify (after_transact (e ∷ es) budget)))
      go (ok budget, s) h i =
          let (values, b, s_is, b_is, landed) =
            commit_entries-HasLanded (merge_batches r.staged (e ∷ es)) (record r { staged = [] }) s
              budget t.unbudgeted h in
          subst (λ x. IsTrue (after_transact (e ∷ es) x s)) (sym b_is)
            (subst (λ x. IsTrue (after_transact (e ∷ es) no_budget x)) (sym s_is)
              (after_transact-IsTrue (e ∷ es) values b landed))
      go (err e, s) h i = IsStill-IsTrue r (restage r.staged s) (restage-IsStill r s i) t
      go (panic, s) h i = tt

  transact-Upholds : (f : Resident → Result (List (Staged T))) → Upholds (Transact.transact f r)
  unfolding Transact.transact
  transact-Upholds f =
      ensure_open-Upholds _ r t (give-Upholds (f r) _ r t (λ es h. transact_entries-Upholds es))

  module _ (postcard : Postcard T) where
    put_by-Upholds : (key : Bytes) (value : T) → Upholds (put_by postcard key value r)
    unfolding put_by
    put_by-Upholds key value = ensure_open-Upholds _ r t (
        give-Upholds (to_payload postcard value) _ r t
          (λ payload h. put_payload-Upholds r t key payload))

    note_corrupt-IsTrue : (key : Bytes) → IsTrue (note_corrupt key r)
    unfolding note_corrupt is_deferred
    note_corrupt-IsTrue key = record {
      unbudgeted = t.unbudgeted;
      lazily = t.lazily;
      prompt = t.prompt;
      keys = t.keys;
      is_index = t.is_index;
      tells = t.tells;
      marks = t.marks;
    }

    given-Upholds : {A : Type 0} (x : Result A) → Upholds (x, r)
    given-Upholds (ok a) = t
    given-Upholds (err e) = t
    given-Upholds panic = tt

    touched-Upholds : (key : Bytes) (found : Option T) → Upholds (touched postcard key found r)
    unfolding touched note_read note_read_in
    touched-Upholds key none = t
    touched-Upholds key (some value) =
        subst (λ l. Upholds (continue (note_read_in key l r) (λ _. give (ok (some value)))))
          (sym t.unbudgeted) t

    noted-Upholds :
        (key : Bytes) (found : Result (Option T))
        → Upholds (continue (noted postcard key found r) (touched postcard key))
    unfolding noted
    noted-Upholds key (ok found) = touched-Upholds key found
    noted-Upholds key panic = tt
    noted-Upholds key (err e) = go (on_corrupt_eq r.inner.config.on_corrupt skip && is_corruption e)
      where
        go : (skips : Bool) → IsTrue (if skips then note_corrupt key r else r)
        go true = note_corrupt-IsTrue key
        go false = t

    get_from-Upholds :
        (key : Bytes) (view : Option (Option Bytes)) → Upholds (get_from postcard key view r)
    unfolding get_from load_and_note
    get_from-Upholds key (some view) = given-Upholds (of_view postcard view)
    get_from-Upholds key none = noted-Upholds key (load_value postcard r.inner r.backend key)

    get_by-Upholds : (key : Bytes) → Upholds (get_by postcard key r)
    unfolding get_by
    get_by-Upholds key = ensure_open-Upholds _ r t (get_from-Upholds key (staged_view key r.staged))

flush-Upholds : (r : Resident) → IsTrue r → Upholds (Flush.flush r)
unfolding Flush.flush
flush-Upholds r t = elim (Bool-cases (length r.staged == 0)) [
  | inl z ↦ rw z t
  | inr n ↦ rw n (flush_locked-Upholds r t)
]

-- A call that returned, with success or an error, and what it left.
abbrev pub Returned : {A : Type 0} → Result A × Resident → Resident → Type 0
Returned (ok a, s) r = s ≡ r
Returned (err e, s) r = s ≡ r
Returned (panic, s) r = ⊥

Returned-IsTrue :
    {A : Type 0} (x : Result A × Resident) (r : Resident) → Returned x r → Upholds x → IsTrue r
Returned-IsTrue (ok a, s) r h u = subst IsTrue h u
Returned-IsTrue (err e, s) r h u = subst IsTrue h u
Returned-IsTrue (panic, s) r h u = absurd h

pub data Step {T : Type 0} (postcard : Postcard T) (r r' : Resident) : Type 0 where
  get : (key : Bytes) → Returned (get_by postcard key r) r' → Step postcard r r'
  put : (key : Bytes) (value : T) → Returned (put_by postcard key value r) r' → Step postcard r r'
  delete : (key : Bytes) → Returned (delete_by key r) r' → Step postcard r r'
  clear : Returned (clear_locker r) r' → Step postcard r r'
  transact :
      (f : Resident → Result (List (Staged T)))
      → Returned (Transact.transact f r) r'
      → Step postcard r r'
  flush : Returned (Flush.flush r) r' → Step postcard r r'

pub data Reach {T : Type 0} (postcard : Postcard T) (r : Resident) : Resident → Type 0 where
  start : Reach postcard r r
  later : {s s' : Resident} → Reach postcard r s → Step postcard s s' → Reach postcard r s'

Step-IsTrue :
    {T : Type 0} (postcard : Postcard T) (r r' : Resident)
    → IsTrue r
    → Step postcard r r'
    → IsTrue r'
Step-IsTrue postcard r r' t (Step.get key h) =
    Returned-IsTrue _ r' h (get_by-Upholds r t postcard key)
Step-IsTrue postcard r r' t (Step.put key value h) =
    Returned-IsTrue _ r' h (put_by-Upholds r t postcard key value)
Step-IsTrue postcard r r' t (Step.delete key h) = Returned-IsTrue _ r' h (delete_by-Upholds r t key)
Step-IsTrue postcard r r' t (Step.clear h) = Returned-IsTrue _ r' h (clear_locker-Upholds r t)
Step-IsTrue postcard r r' t (Step.transact f h) = Returned-IsTrue _ r' h (transact-Upholds r t f)
Step-IsTrue postcard r r' t (Step.flush h) = Returned-IsTrue _ r' h (flush-Upholds r t)

-- Whatever gets, puts, deletes, clears, transactions and flushes run on a lazy locker without a byte
-- budget, immediate or deferred, and whether they succeed or fail: if its index was true before, it is
-- true after. The index holds a key if and only if a write that is staged for it last, or else its record,
-- gives it a value; nothing is staged in a locker that does not defer; and a key that is marked as inline
-- has nothing staged and a record that is no pointer. A call that panics is not a step.
pub Reach-IsTrue :
    {T : Type 0} (postcard : Postcard T) (r r' : Resident)
    → IsTrue r
    → Reach postcard r r'
    → IsTrue r'
Reach-IsTrue postcard r r' t start = t
Reach-IsTrue postcard r r' t (later reached step) =
    Step-IsTrue postcard _ r' (Reach-IsTrue postcard r _ t reached) step
