-- ===== src/Locker/Lazy/Index/Writes.antt =====
-- The writes of a lazy locker, one by one, keep the index true.
use crossbank.Prelude.{
  ◌≡◌, refl, ap, sym, ◌∙◌, true, false, Option, none, some, List, [], ◌∷◌, arith, Bool-cases, inl,
  inr, if◌then◌else◌, subst, length,
}
use crossbank.Error.{ok}
use crossbank.Bytes.{Bytes, IsBytes, bytes_eq, bytes_eq_iff}
use crossbank.Tree
use crossbank.Backend.Api.{records, Op}
use crossbank.Backend.Memory
use crossbank.Backend.Memory.{MemoryBackend}
use crossbank.Backend.Memory.Refines.{value_at}
use crossbank.Key.Scope.{contains-locker_range}
use crossbank.Watch.{Event}
use crossbank.Locker.Inner.{encode_key, stores_inline}
use crossbank.Locker.Inner.Write.{put_payload_ops, delete_value_ops, clear_value_ops}
use crossbank.Locker.Inner.Write.Effects.{commit-ok}
use crossbank.Locker.Inner.Write.RoundTrip.{is_pointer-seal}
use crossbank.Locker.Chunk.{ValueIds, is_pointer, flag_postcard}
use crossbank.Locker.Lru.State.{contains_key}
use crossbank.Locker.Transaction.{Pending, lazy, entry_view}
use crossbank.Locker.Transaction.Lands.{LandsAt, lazy-LandsAt, delete-LandsAt}
use crossbank.Locker.Transaction.WriteSet.{clear_value_ops-effects}
use crossbank.Locker.Resident.{
  Resident, KeySet, prior, is_deferred, touch_index, change_set, note_inline, forget_inline,
  holds_key, is_some,
}
use crossbank.Locker.Resident.Budget.{no_budget}
use crossbank.Locker.Resident.Flush.Stored.{apply_budget-none}
use crossbank.Locker.Lazy.{
  put_deferred, put_now, put_payload, delete_deferred, delete_now, delete_by, clear_deferred,
  clear_now, clear_locker, after_put, after_delete, after_clear,
}
use crossbank.Locker.Lazy.Index.{IsTrue, record_at, over}
use crossbank.Locker.Lazy.Index.Changes.{contains_key-insert, contains_key-remove}
use crossbank.Locker.Lazy.Index.Settled.{
  Upholds, announce-IsTrue, settle-Upholds, give-Upholds, ensure_open-Upholds, with_values-Upholds,
  LandsAt-over, LandsAt-others,
}
use crossbank.Locker.Lazy.Index.Batches.{stage_and-Upholds}
use crossbank.Locker.Lazy.Index.Puts.{holds_key-note, staged-IsTrue, committed-IsTrue}

module _ (r : Resident) (t : IsTrue r) where
  -- Putting off: a mark that a put or a delete leaves is of another key.
  unmarked :
      (k j : Bytes) (v : Option Bytes)
      → holds_key j (change_set (λ keys. Tree.remove k keys) r.known_inline) ≡ true
      → ((if bytes_eq k j then some v else none) ≡ none) × (holds_key j r.known_inline ≡ true)
  unmarked k j v m = elim (holds_key-note k j false r.known_inline m) [
    | inl (_, e) ↦ absurd (ground arith)
    | inr (n, before) ↦ (rw n refl, before)
  ]

  put_deferred-Upholds :
      (key payload : Bytes) → is_deferred r ≡ true → Upholds (put_deferred key payload r)
  unfolding put_deferred touch_index note_inline entry_view
  put_deferred-Upholds key payload late =
      let e = Pending.put key payload in
      stage_and-Upholds e _ r (
        announce-IsTrue (Event.put key) _ (
          staged-IsTrue r t late e (Tree.insert key tt) _
            (λ j. contains_key-insert key j payload t.keys) (λ j. unmarked key j (some payload))))

  delete_deferred-Upholds : (key : Bytes) → is_deferred r ≡ true → Upholds (delete_deferred key r)
  unfolding delete_deferred touch_index note_inline entry_view
  delete_deferred-Upholds key late =
      let e = Pending.delete key in
      stage_and-Upholds e _ r (
        announce-IsTrue (Event.deleted key) _ (
          staged-IsTrue r t late e (Tree.remove key) _ (λ j. contains_key-remove key j t.keys)
            (λ j. unmarked key j none)))

  pub nothing_marked :
      {A : Type 0} (j : Bytes) (marks : Option KeySet)
      → holds_key j (change_set (λ _. []) marks) ≡ true
      → A
  unfolding contains_key Tree.get
  nothing_marked j none m = absurd (ground arith)
  nothing_marked j (some keys) m = absurd (ground arith)

  clear_deferred-Upholds : is_deferred r ≡ true → Upholds (clear_deferred r)
  unfolding clear_deferred touch_index forget_inline entry_view
  clear_deferred-Upholds late = stage_and-Upholds Pending.clear _ r (
      announce-IsTrue Event.cleared _ (
        staged-IsTrue r t late Pending.clear (λ _. []) _ (λ j. unfold contains_key Tree.get in refl)
          (λ j m. nothing_marked j r.known_inline m)))

  module _ (now : is_deferred r ≡ false) where
    -- The marker of a put: its record is the sealed payload.
    put-plain :
        (key payload : Bytes) (b : MemoryBackend) (ops : List Op)
        → LandsAt r.inner lazy key (some (some payload)) ops
        → Memory.commit r.backend ops ≡ ok b
        → (j : Bytes) → IsBytes j
        → holds_key j (
            change_set
              (λ keys.
                if stores_inline r.inner (length payload) flag_postcard
                then Tree.insert key tt keys
                else Tree.remove key keys)
              r.known_inline)
          ≡ true
        → (raw : Bytes) × (value_at b.tables records (encode_key r.inner j) ≡ some raw)
          × (is_pointer raw ≡ false)
    put-plain key payload b ops lands c j jb m = elim (holds_key-note key j _ r.known_inline m) [
      | inl (same, inlined) ↦
          let (raw, stored, keeps) = lands.0 (record_at r key) in
          let at = (commit-ok r.backend b ops c).1 records (encode_key r.inner key) in
          elim keeps [
            | inl (_, sealed) ↦ (
              raw,
              ap (λ k. value_at b.tables records (encode_key r.inner k))
                    (sym ((bytes_eq_iff key j).0 same))
                  ∙ at
                  ∙ stored,
              is_pointer-seal r.inner.chain payload raw sealed,
            )
            | inr (id, n, over, _) ↦ absurd (ground arith)
          ]
      | inr (other, before) ↦
          let (_, raw, stored, plain) = t.marks j jb before in
          (raw, LandsAt-others r b lazy key (some payload) ops lands c j other ∙ stored, plain)
    ]

    -- What a put that landed shows.
    after_put-IsTrue :
        (key payload : Bytes) (b : MemoryBackend) (values : ValueIds) (ops : List Op)
        → LandsAt r.inner lazy key (some (some payload)) ops
        → Memory.commit r.backend ops ≡ ok b
        → IsTrue (
            after_put key
              (stores_inline r.inner (length payload) flag_postcard)
              no_budget
              (record r { values = values; backend = b }))
    unfolding after_put note_inline touch_index entry_view
    after_put-IsTrue key payload b values ops lands c = announce-IsTrue (Event.put key) _ (
        subst IsTrue (sym (apply_budget-none _ t.unbudgeted)) (
          committed-IsTrue r t b values (Tree.insert key tt) _
            (λ j. entry_view j (Pending.put key payload)) (t.prompt now)
            (λ j. contains_key-insert key j payload t.keys)
            (λ j jb. LandsAt-over r b lazy key (some payload) ops lands c j)
            (put-plain key payload b ops lands c)))

    put_now-Upholds : (key payload : Bytes) → Upholds (put_now key payload r)
    unfolding put_now
    put_now-Upholds key payload =
        with_values-Upholds
          (λ b values. put_payload_ops r.inner b key payload flag_postcard (prior r key) values) _ r
          t
          (λ ops values h moved.
            settle-Upholds ops _ (key ∷ []) _ (record r { values = values }) moved
              (λ b c.
                after_put-IsTrue key payload b values ops
                  (lazy-LandsAt r.inner r.backend key payload (prior r key) r.values values ops h)
                  c))

    after_delete-IsTrue :
        (key : Bytes) (b : MemoryBackend) (ops : List Op)
        → LandsAt r.inner lazy key (some none) ops
        → Memory.commit r.backend ops ≡ ok b
        → IsTrue (after_delete key no_budget (record r { backend = b }))
    unfolding after_delete note_inline touch_index entry_view
    after_delete-IsTrue key b ops lands c = announce-IsTrue (Event.deleted key) _ (
        subst (λ x. IsTrue x) (sym (apply_budget-none _ t.unbudgeted))
          (committed-IsTrue r t b r.values (Tree.remove key) _
            (λ j. entry_view j (Pending.delete key)) (t.prompt now)
            (λ j. contains_key-remove key j t.keys)
            (λ j jb. LandsAt-over r b lazy key none ops lands c j)
            (λ j jb m.
              let (gone, before) = unmarked key j none m in
              let (_, raw, stored, plain) = t.marks j jb before in
              (
                raw,
                LandsAt-others r b lazy key none ops lands c j (ground arith) ∙ stored,
                plain,
              ))))

    delete_now-Upholds : (key : Bytes) → Upholds (delete_now key r)
    unfolding delete_now
    delete_now-Upholds key =
        give-Upholds (delete_value_ops r.inner r.backend key (prior r key)) _ r t (λ ops h.
          settle-Upholds ops _ [] (after_delete key) r t (λ b c.
            after_delete-IsTrue key b ops
              (delete-LandsAt r.inner r.backend lazy key (prior r key) ops h) c))

    -- After a clear the locker has no record.
    after_clear-IsTrue :
        (b : MemoryBackend) (ops : List Op)
        → clear_value_ops r.inner r.backend ≡ ok ops
        → Memory.commit r.backend ops ≡ ok b
        → IsTrue (after_clear no_budget (record r { backend = b }))
    unfolding after_clear forget_inline touch_index
    after_clear-IsTrue b ops made c = announce-IsTrue Event.cleared _ (
        subst (λ x. IsTrue x) (sym (apply_budget-none _ t.unbudgeted))
          (committed-IsTrue r t b r.values (λ _. []) _ (λ j. some none) (t.prompt now)
            (λ j. unfold contains_key Tree.get in refl)
            (λ j jb. ap is_some (
              (commit-ok r.backend b ops c).1 records (encode_key r.inner j)
              ∙ clear_value_ops-effects r.inner r.backend ops made (encode_key r.inner j) _
              ∙ ap (λ own. if own then none else record_at r j)
                  (contains-locker_range r.inner.id j jb)))
            (λ j jb m. nothing_marked j r.known_inline m)))

    clear_now-Upholds : Upholds (clear_now r)
    unfolding clear_now
    clear_now-Upholds =
        give-Upholds (clear_value_ops r.inner r.backend) _ r t
          (λ ops h. settle-Upholds ops _ [] after_clear r t (λ b c. after_clear-IsTrue b ops h c))

  pub put_payload-Upholds : (key payload : Bytes) → Upholds (put_payload key payload r)
  unfolding put_payload
  put_payload-Upholds key payload = elim (Bool-cases (is_deferred r)) [
    | inl late ↦ rw late (put_deferred-Upholds key payload late)
    | inr now ↦ rw now (put_now-Upholds now key payload)
  ]

  pub delete_by-Upholds : (key : Bytes) → Upholds (delete_by key r)
  unfolding delete_by
  delete_by-Upholds key = ensure_open-Upholds _ r t (elim (Bool-cases (is_deferred r)) [
    | inl late ↦ rw late (delete_deferred-Upholds key late)
    | inr now ↦ rw now (delete_now-Upholds now key)
  ])

  pub clear_locker-Upholds : Upholds (clear_locker r)
  unfolding clear_locker
  clear_locker-Upholds = ensure_open-Upholds _ r t (elim (Bool-cases (is_deferred r)) [
    | inl late ↦ rw late (clear_deferred-Upholds late)
    | inr now ↦ rw now (clear_now-Upholds now)
  ])
