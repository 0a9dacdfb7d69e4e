-- ===== src/Locker/Eager/Mirror/Transactions.antt =====
-- A transaction of an eager locker keeps the mirror.
use crossbank.Prelude.{◌≡◌, refl, ap, sym, ◌∙◌, Bool, true, false, List, [], ◌∷◌, All, subst, map}
use crossbank.Error.{Result, ok, err, panic}
use crossbank.Bytes.{Bytes, IsBytes}
use crossbank.Backend.Api.{records, Op}
use crossbank.Backend.Memory
use crossbank.Backend.Memory.{MemoryBackend}
use crossbank.Backend.Memory.Refines.{value_at}
use crossbank.Locker.Chunk.{ValueIds}
use crossbank.Locker.Inner.{encode_key}
use crossbank.Locker.Inner.Value.{Postcard}
use crossbank.Locker.Transaction.{Pending, Staged, eager, pending_of, staged_view, ops_for_items}
use crossbank.Locker.Transaction.Lands.{Leaves}
use crossbank.Locker.Transaction.WriteSet.{ops_for_items-Lands}
use crossbank.Locker.Resident
use crossbank.Locker.Resident.{
  Resident, committed, restage, with_values, stored_but_unheld, is_corrupt,
}
use crossbank.Locker.Resident.Flush.Batch.{
  StillUnlessDone, still, with_values-Stays, bind-StillUnlessDone,
}
use crossbank.Locker.Resident.Flush.Stored.{bind-ok, commit-lands}
use crossbank.Locker.Lazy.Transact.{merge_batches, event_of}
use crossbank.Locker.Lazy.Index.{record_at}
use crossbank.Locker.Lazy.Index.Changes.{staged_view-append}
use crossbank.Locker.Lazy.Index.Steps.{restage-IsStill}
use crossbank.Locker.Eager.{Locker, follow}
use crossbank.Locker.Eager.Puts.{
  commit_merged, or_put_back, hold_entry, hold_entries, announce_entry, announce_removed,
  after_transact, transact_entries, transact,
}
use crossbank.Locker.Eager.Mirror.{IsMirror, staged_view-ViewOpens}
use crossbank.Locker.Eager.Mirror.Changes.{
  IsFaithful, pending-Opens, get-hold_entries, hold_entries-held,
}
use crossbank.Locker.Eager.Mirror.Landed.{
  Upholds, announced-IsMirror, IsStill-IsMirror, give-Upholds, ensure_open-Upholds, landed-IsMirror,
}

commit-StillUnlessDone : (ops : List Op) (r : Resident) → StillUnlessDone r (Resident.commit ops r)
unfolding Resident.commit committed
commit-StillUnlessDone ops r = go (Memory.commit r.backend ops)
  where
    go : (x : Result MemoryBackend) → StillUnlessDone r (committed r x)
    go (ok b) = tt
    go (err e) = still r
    go panic = still r

commit_merged-StillUnlessDone :
    (entries : List Pending) (r : Resident) → StillUnlessDone r (commit_merged entries r)
unfolding commit_merged
commit_merged-StillUnlessDone entries r =
    bind-StillUnlessDone (with_values (λ b ids. ops_for_items r.inner b entries eager ids))
      Resident.commit r (with_values-Stays _) commit-StillUnlessDone

-- What a transaction that was committed left.
commit_merged-ok :
    (entries : List Pending) (r r' : Resident)
    → commit_merged entries r ≡ (ok tt, r')
    → (ids : ValueIds) × (b : MemoryBackend) × (r' ≡ record r { values = ids; backend = b })
      × ((j : Bytes)
          → IsBytes j
          → Leaves r.inner eager
              (staged_view j entries)
              (record_at r j)
              (value_at b.tables records (encode_key r.inner j)))
unfolding commit_merged with_values
commit_merged-ok entries r r' h =
    let call = λ (b : MemoryBackend) (ids : ValueIds). ops_for_items r.inner b entries eager ids in
    let (ops, s, made, h1) = bind-ok (with_values call) Resident.commit r r' tt h in
    let s_is : record r { values = (call r.backend r.values).1 } ≡ s = ap (λ x. x.1) made in
    let (b, c, r_is) = commit-lands ops s r' h1 in
    let c' : Memory.commit r.backend ops ≡ ok b =
      ap (λ (x : Resident). Memory.commit x.backend ops) s_is ∙ c in
    let run : call r.backend r.values ≡ (ok ops, (call r.backend r.values).1) =
      ap (λ y. (y.0, (call r.backend r.values).1)) made in
    (
      (call r.backend r.values).1,
      b,
      r_is ∙ ap (λ (x : Resident). record x { backend = b }) (sym s_is),
      (ops_for_items-Lands r.inner r.backend b eager entries r.values _ ops run c').0,
    )

module _ {T : Type 0} where
  -- Holding the entries touches the values and the dropped keys.
  hold_entry-same :
      (e : Staged T) (l : Locker T)
      → (hold_entry e l).0 ≡ record l {
        values = (hold_entry e l).0.values;
        res = record l.res { dropped = (hold_entry e l).0.res.dropped };
      }
  unfolding hold_entry Resident.forget_dropped Resident.forget_all_dropped
  hold_entry-same (Staged.put key payload value) l = refl
  hold_entry-same (Staged.delete key) l = refl
  hold_entry-same Staged.clear l = refl

  hold_entries-same :
      (es : List (Staged T)) (l : Locker T)
      → (hold_entries es l).0 ≡ record l {
        values = (hold_entries es l).0.values;
        res = record l.res { dropped = (hold_entries es l).0.res.dropped };
      }
  unfolding hold_entries
  hold_entries-same [] l = refl
  hold_entries-same (e ∷ es) l =
      let last = (hold_entries es (hold_entry e l).0).0 in
      hold_entries-same es (hold_entry e l).0
      ∙ ap
          (λ (m : Locker T). record m {
            values = last.values;
            res = record m.res { dropped = last.res.dropped };
          })
          (hold_entry-same e l)

module _ {T : Type 0} (postcard : Postcard T) where
  announce_entry-IsMirror :
      (e : Staged T) (removed : Bool) (l : Locker T)
      → IsMirror postcard l
      → IsMirror postcard (record l { res = announce_entry e removed l.res })
  unfolding announce_entry Resident.announce event_of
  announce_entry-IsMirror (Staged.put key payload value) removed l t =
      announced-IsMirror postcard l _ t
  announce_entry-IsMirror (Staged.delete key) true l t = announced-IsMirror postcard l _ t
  announce_entry-IsMirror (Staged.delete key) false l t = t
  announce_entry-IsMirror Staged.clear removed l t = announced-IsMirror postcard l _ t

  announce_removed-IsMirror :
      (es : List (Staged T)) (removed : List Bool) (l : Locker T)
      → IsMirror postcard l
      → IsMirror postcard (record l { res = announce_removed es removed l.res })
  unfolding announce_removed
  announce_removed-IsMirror [] removed l t = t
  announce_removed-IsMirror (e ∷ es) [] l t = t
  announce_removed-IsMirror (e ∷ es) (gone ∷ removed) l t =
      announce_removed-IsMirror es removed (record l { res = announce_entry e gone l.res })
        (announce_entry-IsMirror e gone l t)

  module _ (l : Locker T) (t : IsMirror postcard l) where
    after_transact-IsMirror :
        (es : List (Staged T)) (ids : ValueIds) (b : MemoryBackend)
        → All (IsFaithful postcard l.res.inner.chain) es
        → ((j : Bytes)
            → IsBytes j
            → Leaves l.res.inner eager
                (staged_view j (merge_batches l.res.staged es))
                (record_at l.res j)
                (value_at b.tables records (encode_key l.res.inner j)))
        → IsMirror postcard (
            after_transact es
              (record l { res = record l.res { values = ids; backend = b; staged = [] } }))
    unfolding after_transact merge_batches stored_but_unheld is_corrupt
    after_transact-IsMirror es ids b faithful leaves =
        let mid : Locker T = record l {
          res = record l.res { values = ids; backend = b; staged = [] };
        } in
        let held = (hold_entries es mid).0 in
        announce_removed-IsMirror es (hold_entries es mid).1 held (
          subst (IsMirror postcard) (sym (hold_entries-same es mid)) (
            landed-IsMirror postcard l t b ids [] held.res.dropped held.values
              (λ j. staged_view j (map pending_of es)) refl
              (λ j.
                staged_view-ViewOpens l.res.inner.chain j (map pending_of es)
                  (pending-Opens postcard l.res.inner.chain es faithful))
              (λ j. get-hold_entries postcard l.res.inner.chain j es mid faithful)
              (λ j jb.
                subst
                  (λ v.
                    Leaves l.res.inner eager v (record_at l.res j)
                      (value_at b.tables records (encode_key l.res.inner j)))
                  (staged_view-append j l.res.staged (map pending_of es)) (leaves j jb))
              (λ j h.
                hold_entries-held postcard j es mid (
                  ap (λ (m : Locker T). stored_but_unheld m.res j) (hold_entries-same es mid)
                  ∙ h))))

    transact_entries-Upholds :
        (es : List (Staged T))
        → All (IsFaithful postcard l.res.inner.chain) es
        → Upholds postcard (transact_entries es l)
    unfolding transact_entries Resident.take_staged
    transact_entries-Upholds [] faithful = t
    transact_entries-Upholds (e ∷ es) faithful =
        let merged = merge_batches l.res.staged (e ∷ es) in
        go (commit_merged merged (record l.res { staged = [] })) refl
          (commit_merged-StillUnlessDone merged (record l.res { staged = [] }))
      where
        go :
            (x : Result (Unit {0}) × Resident)
            → commit_merged (merge_batches l.res.staged (e ∷ es)) (record l.res { staged = [] }) ≡ x
            → StillUnlessDone (record l.res { staged = [] }) x
            → Upholds postcard (
                follow
                  (
                    (or_put_back l.res.staged x).0,
                    record l { res = (or_put_back l.res.staged x).1 },
                  )
                  (λ _ m. (ok tt, after_transact (e ∷ es) m)))
        go (ok _, r) h i =
            let (ids, b, r_is, leaves) =
              commit_merged-ok (merge_batches l.res.staged (e ∷ es)) (record l.res { staged = [] })
                r h in
            subst (λ r. IsMirror postcard (after_transact (e ∷ es) (record l { res = r })))
              (sym r_is) (after_transact-IsMirror (e ∷ es) ids b faithful leaves)
        go (err f, r) h i =
            IsStill-IsMirror postcard l (restage l.res.staged r) (restage-IsStill l.res r i) t
        go (panic, r) h i = tt

    -- A transaction whose closure stages each put with the payload of its value.
    pub transact-Upholds :
        (f : Locker T → Result (List (Staged T)))
        → ((m : Locker T) (es : List (Staged T))
            → f m ≡ ok es
            → All (IsFaithful postcard l.res.inner.chain) es)
        → Upholds postcard (transact f l)
    unfolding transact
    transact-Upholds f faithful =
        ensure_open-Upholds postcard l t _ (
          give-Upholds postcard l t (f l) _ (λ es h. transact_entries-Upholds es (faithful l es h)))
