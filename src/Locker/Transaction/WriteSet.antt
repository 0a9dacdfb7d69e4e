-- ===== src/Locker/Transaction/WriteSet.antt =====
-- A write-set is committed as its staged view reads.
use crossbank.Prelude.{
  ◌≡◌, refl, ap, sym, ◌∙◌, true, false, Option, none, some, List, [], ◌∷◌, arith, Bool-cases, inl,
  inr, if◌then◌else◌, subst,
}
use crossbank.Error.{Result, ok, err, panic, >>=-eq-ok, ok-inj}
use crossbank.Bytes.{Bytes, IsBytes, bytes_eq, bytes_eq_iff}
use crossbank.Backend.Api.{records, contains, Op, unbounded}
use crossbank.Backend.Memory.{MemoryBackend, commit}
use crossbank.Backend.Memory.Refines.{effects, value_at}
use crossbank.Key.{locker_range}
use crossbank.Key.Scope.{contains-locker_range, IsBytes-decode}
use crossbank.Locker.Chunk.{ChunkPointer, parse, is_pointer, gc_ops, ValueIds}
use crossbank.Locker.Inner.{Inner, encode_key, clear_op}
use crossbank.Locker.Inner.Walk.{walk}
use crossbank.Locker.Inner.Walk.Keeps.{walk-keeps}
use crossbank.Locker.Inner.Write.{gc_if_parsed, collect_gc, clear_value_ops}
use crossbank.Locker.Inner.Write.Effects.{effects-append, commit-ok}
use crossbank.Locker.Transaction.{
  TxMode, Pending, or_view, staged_view, after_clear, actions, actions_ops, ops_after,
  ops_for_items,
}
use crossbank.Locker.Transaction.View.{Tail, after_clear-Tail, actions-view_empty, actions-IsSorted}
use crossbank.Locker.Transaction.Lands.{Leaves, Spares}
use crossbank.Locker.Transaction.Actions.{and_then-ok, actions_ops-LandsOn}

gc_if_parsed-Spares :
    (ops : List Op) (r : Result ChunkPointer) → Spares ops → Spares (gc_if_parsed ops r)
unfolding gc_if_parsed gc_ops
gc_if_parsed-Spares ops (ok p) h k old = effects-append ops (gc_ops p ∷ []) records k old ∙ h k old
gc_if_parsed-Spares ops (err e) h k old = h k old
gc_if_parsed-Spares ops panic h k old = h k old

collect_gc-Spares :
    (ops ops' : List Op) (k : Bytes) (v : Option Bytes)
    → collect_gc ops k v ≡ ok ops'
    → Spares ops
    → Spares ops'
unfolding collect_gc
collect_gc-Spares ops ops' k none h s = subst Spares (ok-inj h) s
collect_gc-Spares ops ops' k (some raw) h s = elim (Bool-cases (is_pointer raw)) [
  | inl e ↦ subst Spares (ok-inj (rw e at h)) (gc_if_parsed-Spares ops (parse raw) s)
  | inr e ↦ subst Spares (ok-inj (rw e at h)) s
]

module _ (i : Inner) where
  -- The mutations of a clear drop the locker's records, and spare all others.
  pub clear_value_ops-effects :
      (b : MemoryBackend) (ops : List Op)
      → clear_value_ops i b ≡ ok ops
      → (k : Bytes) (old : Option Bytes)
      → effects ops records k old ≡ (if contains (locker_range i.id) k then none else old)
  unfolding clear_value_ops clear_op
  clear_value_ops-effects b ops h k old =
      let (gc, walked, h1) =
        >>=-eq-ok (walk collect_gc i b unbounded unbounded false true []) _ {y = ops} h in
      let spared =
        walk-keeps collect_gc Spares collect_gc-Spares i b unbounded unbounded false true [] gc
          walked (λ k old. refl) in
      ap (λ o. effects o records k old) (sym (ok-inj h1))
      ∙ effects-append gc (clear_op i ∷ []) records k old
      ∙ ap (λ v. if contains (locker_range i.id) k then none else v) (spared k old)

  -- What the mutations of a write-set do to the records.
  abbrev pub Lands :
      TxMode → (Bytes → Option (Option Bytes)) → (Bytes → Option Bytes → Option Bytes) → Type 0
  Lands mode view change =
      ((key : Bytes) (old : Option Bytes)
        → IsBytes key
        → Leaves i mode (view key) old (change (encode_key i key) old))
      × ((k : Bytes) (old : Option Bytes)
          → IsBytes k
          → contains (locker_range i.id) k ≡ false
          → change k old ≡ old)

  foreign_ne :
      (k : Bytes)
      → IsBytes k
      → contains (locker_range i.id) k ≡ false
      → (key : Bytes) → bytes_eq (encode_key i key) k ≡ false
  foreign_ne k kb out key = elim (Bool-cases (bytes_eq (encode_key i key) k)) [
    | inl e ↦
        let same = (bytes_eq_iff (encode_key i key) k).0 e in
        let own =
          contains-locker_range i.id key (IsBytes-decode i.id key (subst IsBytes (sym same) kb)) in
        absurd (ground (arith, ap (contains (locker_range i.id)) same))
    | inr n ↦ n
  ]

  -- A clear before the actions turns a key that they leave alone into one that is gone.
  Leaves-cleared :
      (mode : TxMode) (view : Option (Option Bytes)) (old mid new : Option Bytes)
      → mid ≡ none
      → Leaves i mode view mid new
      → Leaves i mode (or_view view (some none)) old new
  unfolding or_view
  Leaves-cleared mode none old mid new gone l = l ∙ gone
  Leaves-cleared mode (some none) old mid new gone l = l
  Leaves-cleared mode (some (some p)) old mid new gone l = l

  ops_after-Lands :
      (b : MemoryBackend) (mode : TxMode) (staged : List Pending) (tail : Option (List Pending))
      (cursor cursor' : ValueIds) (ops : List Op)
      → Tail staged tail
      → ops_after i b mode staged tail cursor ≡ (ok ops, cursor')
      → Lands mode (λ key. staged_view key staged) (effects ops records)
  unfolding ops_after
  ops_after-Lands b mode staged none cursor cursor' ops plain h =
      let l =
        actions_ops-LandsOn i b mode (actions [] staged) cursor cursor' ops
          (actions-IsSorted [] staged tt) h in
      (
        λ key old kb.
            subst (λ v. Leaves i mode v old (effects ops records (encode_key i key) old))
              (actions-view_empty key staged plain) (l.0 key old),
        λ k old kb out. l.1 k old (foreign_ne k kb out),
      )
  ops_after-Lands b mode staged (some tail) cursor cursor' ops (plain, says) h =
      let (first, middle, more, run, run2, joined) =
        and_then-ok i (clear_value_ops i b, cursor) (actions_ops i b mode (actions [] tail)) ops
          cursor' h in
      let cleared = clear_value_ops-effects b first (ap (λ w. w.0) run) in
      let l =
        actions_ops-LandsOn i b mode (actions [] tail) middle cursor' more
          (actions-IsSorted [] tail tt) run2 in
      let whole = λ (k : Bytes) (old : Option Bytes).
        ap (λ o. effects o records k old) (sym joined) ∙ effects-append first more records k old in
      (
        λ key old kb.
            let k = encode_key i key in
            let gone : effects first records k old ≡ none =
              cleared k old ∙ rw (contains-locker_range i.id key kb) refl in
            let view = actions-view_empty key tail plain in
            subst (λ v. Leaves i mode v old (effects ops records k old)) (sym (says key))
              (subst (Leaves i mode (or_view (staged_view key tail) (some none)) old)
                (sym (whole k old))
                (Leaves-cleared mode (staged_view key tail) old (effects first records k old) _ gone
                  (subst
                    (λ v.
                      Leaves i mode v (effects first records k old)
                        (effects more records k (effects first records k old)))
                    view (l.0 key (effects first records k old))))),
        λ k old kb out. whole k old ∙ l.1 k _ (foreign_ne k kb out) ∙ cleared k old ∙ rw out refl,
      )

  -- A write-set, committed, leaves under each key of the locker what its staged view says: a key that
  -- it does not touch keeps its record, a key that it deleted or cleared last has none, and a key that
  -- it put last has a record that stores that payload, sealed and within the inline limit for an eager
  -- locker, sealed or a pointer to a value of its length for a lazy one. Records outside the locker are
  -- kept. The keys are byte strings.
  pub ops_for_items-Lands :
      (b b' : MemoryBackend) (mode : TxMode) (staged : List Pending) (cursor cursor' : ValueIds)
      (ops : List Op)
      → ops_for_items i b staged mode cursor ≡ (ok ops, cursor')
      → commit b ops ≡ ok b'
      → ((key : Bytes)
          → IsBytes key
          → Leaves i mode
              (staged_view key staged)
              (value_at b.tables records (encode_key i key))
              (value_at b'.tables records (encode_key i key)))
        × ((k : Bytes)
            → IsBytes k
            → contains (locker_range i.id) k ≡ false
            → value_at b'.tables records k ≡ value_at b.tables records k)
  unfolding ops_for_items
  ops_for_items-Lands b b' mode staged cursor cursor' ops h c =
      let at = (commit-ok b b' ops c).1 records in
      let l =
        ops_after-Lands b mode staged (after_clear staged) cursor cursor' ops
          (after_clear-Tail staged) h in
      (
        λ key kb.
            let k = encode_key i key in
            subst (Leaves i mode (staged_view key staged) (value_at b.tables records k))
              (sym (at k)) (l.0 key (value_at b.tables records k) kb),
        λ k kb out. at k ∙ l.1 k (value_at b.tables records k) kb out,
      )
