-- ===== src/Locker/Eager/Mirror/Writes.antt =====
-- The writes of an eager locker, one by one, keep the mirror.
use crossbank.Prelude.{
  ◌≡◌, refl, ap, sym, Bool, true, false, not, ◌&&◌, Option, none, some, [], ◌∷◌, ◌++◌, arith,
  Bool-cases, inl, inr, ◌⊎◌, if◌then◌else◌, subst, length, ltb,
}
use crossbank.Error.{ok}
use crossbank.Bytes.{Bytes, IsBytes, bytes_eq}
use crossbank.Tree
use crossbank.Backend.Api.{records, Op}
use crossbank.Backend.Memory
use crossbank.Backend.Memory.{MemoryBackend}
use crossbank.Backend.Memory.Refines.{value_at, effects}
use crossbank.Key.Scope.{contains-locker_range}
use crossbank.Codec.Chain.{seal, seal_slice}
use crossbank.Codec.RoundTrip.{AllInvert}
use crossbank.Locker.Inner.{encode_key, delete_op, clear_op}
use crossbank.Locker.Inner.Value.{Postcard, of_payload}
use crossbank.Locker.Inner.Write.Effects.{commit-ok}
use crossbank.Locker.Transaction.{Pending, eager, entry_view, or_view, staged_view}
use crossbank.Locker.Transaction.View.{or_view-none}
use crossbank.Locker.Transaction.Lands.{Leaves, bytes_eq-encode_key}
use crossbank.Locker.Resident
use crossbank.Locker.Resident.{
  Resident, is_deferred, stored_but_unheld, forget_dropped, forget_all_dropped,
  index_is_authoritative, is_full, deferred_after,
}
use crossbank.Locker.Lazy.Index.{record_at}
use crossbank.Locker.Eager.{
  Locker, holds, delete_deferred, delete_now, delete_by, clear_deferred, clear_now, clear_locker,
}
use crossbank.Locker.Eager.Puts.{put_deferred, put_now}
use crossbank.Locker.Eager.Mirror.{IsMirror, entry_view-ViewOpens}
use crossbank.Locker.Eager.Mirror.Changes.{forget_dropped-held, get-put, get-delete, Decided}
use crossbank.Locker.Eager.Mirror.Landed.{
  Upholds, announced-IsMirror, ensure_open-Upholds, commit-Upholds, landed-IsMirror,
  staged-IsMirror, flush_if-Upholds,
}

-- One mutation, committed where nothing is staged.
one_op-Leaves :
    (r : Resident) (b : MemoryBackend) (op : Op) (view : Bytes → Option (Option Bytes))
    → r.staged ≡ []
    → Memory.commit r.backend (op ∷ []) ≡ ok b
    → ((j : Bytes)
        → IsBytes j
        → Leaves r.inner eager
            (view j)
            (record_at r j)
            (effects (op ∷ []) records (encode_key r.inner j) (record_at r j)))
    → (j : Bytes) → IsBytes j
    → Leaves r.inner eager
        (or_view (view j) (staged_view j r.staged))
        (record_at r j)
        (value_at b.tables records (encode_key r.inner j))
unfolding staged_view
one_op-Leaves r b op view clean c leaves j jb =
    subst
      (λ s.
        Leaves r.inner eager (or_view (view j) (staged_view j s)) (record_at r j)
          (value_at b.tables records (encode_key r.inner j)))
      (sym clean)
      (subst
        (λ v.
          Leaves r.inner eager v (record_at r j) (value_at b.tables records (encode_key r.inner j)))
        (sym (or_view-none (view j)))
        (subst (Leaves r.inner eager (view j) (record_at r j))
          (sym ((commit-ok r.backend b (op ∷ []) c).1 records (encode_key r.inner j)))
          (leaves j jb)))

module _ {T : Type 0} (postcard : Postcard T) (l : Locker T) (t : IsMirror postcard l) where
  -- The key of a put or a delete is decided.
  key-Decided :
      (key j : Bytes) (v : Option Bytes)
      → stored_but_unheld (forget_dropped key l.res) j ≡ false
      → Decided postcard (if bytes_eq key j then some v else none)
        ⊎ (stored_but_unheld l.res j ≡ false)
  key-Decided key j v h = elim (forget_dropped-held key j l.res h) [
    | inl e ↦ inl (v, rw e refl)
    | inr n ↦ inr n
  ]

  nothing_dropped :
      (j : Bytes)
      → stored_but_unheld (forget_all_dropped l.res) j ≡ false
      → Decided postcard (some none) ⊎ (stored_but_unheld l.res j ≡ false)
  nothing_dropped j h = inl (none, refl)

  pub put_deferred-Upholds :
      (key payload : Bytes) (value : T)
      → is_deferred l.res ≡ true
      → AllInvert l.res.inner.chain.filters payload
      → of_payload postcard payload ≡ ok value
      → Upholds postcard (put_deferred key payload value l)
  unfolding put_deferred Resident.stage forget_dropped entry_view Resident.announce
  put_deferred-Upholds key payload value late opens h =
      flush_if-Upholds postcard _
        (is_full (deferred_after l.res.inner.config.commit)
          (length (l.res.staged ++ (Pending.put key payload ∷ []))))
        (announced-IsMirror postcard _ _ (
          staged-IsMirror postcard l t (Pending.put key payload) _ _ late opens
            (λ j. get-put postcard key j payload value l.values h)
            (λ j. key-Decided key j (some payload))))

  delete_deferred-Upholds :
      (held : Bool) (key : Bytes)
      → is_deferred l.res ≡ true
      → Upholds postcard (delete_deferred held key l)
  unfolding delete_deferred Resident.stage forget_dropped entry_view Resident.announce
  delete_deferred-Upholds true key late =
      flush_if-Upholds postcard _
        (is_full (deferred_after l.res.inner.config.commit)
          (length (l.res.staged ++ (Pending.delete key ∷ []))))
        (announced-IsMirror postcard _ _ (
          staged-IsMirror postcard l t (Pending.delete key) _ _ late tt
            (λ j. get-delete postcard key j l.values) (λ j. key-Decided key j none)))
  delete_deferred-Upholds false key late =
      flush_if-Upholds postcard _
        (is_full (deferred_after l.res.inner.config.commit)
          (length (l.res.staged ++ (Pending.delete key ∷ []))))
        (staged-IsMirror postcard l t (Pending.delete key) _ _ late tt
          (λ j. get-delete postcard key j l.values) (λ j. key-Decided key j none))

  clear_deferred-Upholds : is_deferred l.res ≡ true → Upholds postcard (clear_deferred l)
  unfolding clear_deferred Tree.get Resident.stage forget_all_dropped entry_view Resident.announce
  clear_deferred-Upholds late =
      flush_if-Upholds postcard _
        (is_full (deferred_after l.res.inner.config.commit)
          (length (l.res.staged ++ (Pending.clear ∷ []))))
        (announced-IsMirror postcard _ _ (
          staged-IsMirror postcard l t Pending.clear _ _ late tt (λ j. refl)
            (λ j. nothing_dropped j)))

  module _ (now : is_deferred l.res ≡ false) where
    pub put_now-Upholds :
        (key payload sealed : Bytes) (value : T)
        → AllInvert l.res.inner.chain.filters payload
        → seal l.res.inner.chain payload ≡ ok sealed
        → ltb l.res.inner.config.max_inline (length sealed) ≡ false
        → of_payload postcard payload ≡ ok value
        → Upholds postcard (put_now key sealed value l)
    unfolding put_now forget_dropped entry_view Resident.announce seal_slice
    put_now-Upholds key payload sealed value opens made fits h =
        let clean = t.prompt now in
        commit-Upholds postcard l t (Op.put records (encode_key l.res.inner key) sealed ∷ []) _
          (λ b c. announced-IsMirror postcard _ _ (
            landed-IsMirror postcard l t b l.res.values l.res.staged _ _
              (λ j. entry_view j (Pending.put key payload)) clean
              (λ j. entry_view-ViewOpens l.res.inner.chain j (Pending.put key payload) opens)
              (λ j. get-put postcard key j payload value l.values h)
              (one_op-Leaves l.res b _ (λ j. entry_view j (Pending.put key payload)) clean c
                (λ j jb. elim (Bool-cases (bytes_eq key j)) [
                  | inl e ↦
                      rw (bytes_eq-encode_key l.res.inner key j, e)
                        (sealed, refl, (made, ground arith))
                  | inr n ↦ rw (bytes_eq-encode_key l.res.inner key j, n) refl
                ]))
              (λ j. key-Decided key j (some payload))))

    delete_now-landed :
        (key : Bytes) (b : MemoryBackend)
        → Memory.commit l.res.backend (delete_op l.res.inner key ∷ []) ≡ ok b
        → IsMirror postcard (record l {
          res = forget_dropped key (record l.res { backend = b });
          values = Tree.remove key l.values;
        })
    unfolding forget_dropped entry_view delete_op
    delete_now-landed key b c =
        let clean = t.prompt now in
        landed-IsMirror postcard l t b l.res.values l.res.staged _ _
          (λ j. entry_view j (Pending.delete key)) clean
          (λ j. entry_view-ViewOpens l.res.inner.chain j (Pending.delete key) tt)
          (λ j. get-delete postcard key j l.values)
          (one_op-Leaves l.res b _ (λ j. entry_view j (Pending.delete key)) clean c
            (λ j jb. elim (Bool-cases (bytes_eq key j)) [
              | inl e ↦ rw (bytes_eq-encode_key l.res.inner key j, e) refl
              | inr n ↦ rw (bytes_eq-encode_key l.res.inner key j, n) refl
            ]))
          (λ j. key-Decided key j none)

    delete_now-Upholds : (held : Bool) (key : Bytes) → Upholds postcard (delete_now held key l)
    unfolding delete_now Resident.announce
    delete_now-Upholds true key =
        commit-Upholds postcard l t (delete_op l.res.inner key ∷ []) _
          (λ b c. announced-IsMirror postcard _ _ (delete_now-landed key b c))
    delete_now-Upholds false key =
        commit-Upholds postcard l t (delete_op l.res.inner key ∷ []) _
          (λ b c. delete_now-landed key b c)

    clear_now-Upholds : Upholds postcard (clear_now l)
    unfolding clear_now forget_all_dropped Resident.announce clear_op Tree.get
    clear_now-Upholds =
        let clean = t.prompt now in
        commit-Upholds postcard l t (clear_op l.res.inner ∷ []) _ (λ b c.
          announced-IsMirror postcard _ _ (
            landed-IsMirror postcard l t b l.res.values l.res.staged _ _ (λ j. some none) clean
              (λ j p h. absurd (ground arith)) (λ j. refl)
              (one_op-Leaves l.res b _ (λ j. some none) clean c
                (λ j jb.
                  ap (λ own. if own then none else record_at l.res j)
                    (contains-locker_range l.res.inner.id j jb)))
              (λ j. nothing_dropped j)))

  pub delete_by-Upholds : (key : Bytes) → Upholds postcard (delete_by key l)
  unfolding delete_by
  delete_by-Upholds key =
      ensure_open-Upholds postcard l t _
        (elim (Bool-cases (not (holds l key) && index_is_authoritative l.res)) [
          | inl absent ↦ rw absent t
          | inr there ↦ elim (Bool-cases (is_deferred l.res)) [
            | inl late ↦ rw (there, late) (delete_deferred-Upholds (holds l key) key late)
            | inr now ↦ rw (there, now) (delete_now-Upholds now (holds l key) key)
          ]
        ])

  pub clear_locker-Upholds : Upholds postcard (clear_locker l)
  unfolding clear_locker
  clear_locker-Upholds = ensure_open-Upholds postcard l t _ (elim (Bool-cases (is_deferred l.res)) [
    | inl late ↦ rw late (clear_deferred-Upholds late)
    | inr now ↦ rw now (clear_now-Upholds now)
  ])
