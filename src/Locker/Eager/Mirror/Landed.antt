-- ===== src/Locker/Eager/Mirror/Landed.antt =====
-- A write that was staged or that landed, and the calls around it, keep the mirror.
use crossbank.Prelude.{
  ◌≡◌, refl, ap, sym, ◌∙◌, Bool, true, false, Option, none, some, List, [], ◌∷◌, ◌++◌, arith, inr,
  ◌⊎◌, if◌then◌else◌, subst, All, All-append,
}
use crossbank.Error.{Result, ok, err, panic, closed}
use crossbank.Bytes.{Bytes, IsBytes}
use crossbank.Tree
use crossbank.Tree.{Tree}
use crossbank.Backend.Api.{records, Op}
use crossbank.Backend.Memory
use crossbank.Backend.Memory.{MemoryBackend}
use crossbank.Backend.Memory.Refines.{value_at}
use crossbank.Watch.{Event}
use crossbank.Locker.Chunk.{ValueIds}
use crossbank.Locker.Inner.{encode_key}
use crossbank.Locker.Inner.Value.{Postcard}
use crossbank.Locker.Transaction.{Pending, eager, entry_view, or_view, staged_view}
use crossbank.Locker.Transaction.Lands.{Leaves}
use crossbank.Locker.Resident
use crossbank.Locker.Resident.{
  Resident, KeySet, Act, committed, is_deferred, stored_but_unheld, is_corrupt,
}
use crossbank.Locker.Resident.Flush.{flush_entries, flush_locked}
use crossbank.Locker.Resident.Flush.Batch.{IsStill, flush_entries-StillUnlessDone}
use crossbank.Locker.Resident.Flush.Stored.{flush_entries-HasLanded}
use crossbank.Locker.Lazy.Index.{record_at}
use crossbank.Locker.Lazy.Index.Changes.{staged_view-append, staged_view_one}
use crossbank.Locker.Eager.{Locker, Call, ◌>>=◌, follow, give, shared, flush_if}
use crossbank.Locker.Eager.Mirror.{
  IsMirror, Opens, ViewOpens, or_view-ViewOpens, staged_view-ViewOpens, pick, pick-or_view,
  stored_value, Leaves-pick, renewed-Mirrors,
}

module _ {T : Type 0} (postcard : Postcard T) where
  -- A call's outcome, where it is no panic, keeps the mirror.
  abbrev pub Upholds : {A : Type 0} → Result A × Locker T → Type 0
  Upholds (ok a, l) = IsMirror postcard l
  Upholds (err e, l) = IsMirror postcard l
  Upholds (panic, l) = Unit

  pub announced-IsMirror :
      (l : Locker T) (announced : List Event)
      → IsMirror postcard l
      → IsMirror postcard (record l { res = record l.res { announced = announced } })
  unfolding is_deferred stored_but_unheld is_corrupt
  announced-IsMirror l announced t = record {
    unbudgeted = t.unbudgeted;
    eagerly = t.eagerly;
    prompt = t.prompt;
    opens = t.opens;
    mirrors = t.mirrors;
  }

  pub IsStill-IsMirror :
      (l : Locker T) (r : Resident)
      → IsStill l.res r
      → IsMirror postcard l
      → IsMirror postcard (record l { res = r })
  unfolding is_deferred stored_but_unheld is_corrupt
  IsStill-IsMirror l r (ids, ticks, lru, e, m) t =
      subst (λ r. IsMirror postcard (record l { res = r })) (sym e)
        (record {
          unbudgeted = m t.unbudgeted;
          eagerly = t.eagerly;
          prompt = t.prompt;
          opens = t.opens;
          mirrors = t.mirrors;
        })

  module _ (l : Locker T) (t : IsMirror postcard l) where
    pub give-Upholds :
        {A B : Type 0} (x : Result A) (next : A → Call T B)
        → ((a : A) → x ≡ ok a → Upholds (next a l))
        → Upholds ((give x >>= next) l)
    give-Upholds (ok a) next k = k a refl
    give-Upholds (err e) next k = t
    give-Upholds panic next k = tt

    pub ensure_open-Upholds :
        {B : Type 0} (next : Unit {0} → Call T B)
        → Upholds (next tt l)
        → Upholds ((shared Resident.ensure_open >>= next) l)
    unfolding Resident.ensure_open
    ensure_open-Upholds next k = go l.res.is_closed
      where
        at_door : Bool → Result (Unit {0}) × Resident
        at_door shut = if shut then (err closed, l.res) else (ok tt, l.res)

        go :
            (shut : Bool)
            → Upholds (follow ((at_door shut).0, record l { res = (at_door shut).1 }) next)
        go true = t
        go false = k

    pub commit-Upholds :
        {B : Type 0} (ops : List Op) (next : Unit {0} → Call T B)
        → ((b : MemoryBackend)
            → Memory.commit l.res.backend ops ≡ ok b
            → Upholds (next tt (record l { res = record l.res { backend = b } })))
        → Upholds ((shared (Resident.commit ops) >>= next) l)
    unfolding Resident.commit committed
    commit-Upholds ops next k = go (Memory.commit l.res.backend ops) refl
      where
        go :
            (x : Result MemoryBackend)
            → Memory.commit l.res.backend ops ≡ x
            → Upholds
                (follow ((committed l.res x).0, record l { res = (committed l.res x).1 }) next)
        go (ok b) e = k b e
        go (err e) _ = t
        go panic _ = tt

    abbrev landed_as : MemoryBackend → ValueIds → List Pending → KeySet → Tree T → Locker T
    landed_as b ids staged dropped values = record l {
      res = record l.res { backend = b; values = ids; staged = staged; dropped = dropped };
      values = values;
    }

    -- A write that landed, with what was staged before it.
    pub landed-IsMirror :
        (b : MemoryBackend) (ids : ValueIds) (staged : List Pending) (dropped : KeySet)
        (values : Tree T) (view : Bytes → Option (Option Bytes))
        → staged ≡ []
        → ((j : Bytes) → ViewOpens l.res.inner.chain (view j))
        → ((j : Bytes) → Tree.get j values ≡ pick postcard (view j) (Tree.get j l.values))
        → ((j : Bytes)
            → IsBytes j
            → Leaves l.res.inner eager
                (or_view (view j) (staged_view j l.res.staged))
                (record_at l.res j)
                (value_at b.tables records (encode_key l.res.inner j)))
        → ((j : Bytes)
            → stored_but_unheld (record l.res { dropped = dropped }) j ≡ false
            → ((v : Option Bytes) × (view j ≡ some v)) ⊎ (stored_but_unheld l.res j ≡ false))
        → IsMirror postcard (landed_as b ids staged dropped values)
    unfolding is_deferred staged_view stored_but_unheld is_corrupt
    landed-IsMirror b ids staged dropped values view clean opens changed leaves fewer = record {
      unbudgeted = t.unbudgeted;
      eagerly = t.eagerly;
      prompt = λ _. clean;
      opens = subst (All (Opens l.res.inner.chain)) (sym clean) tt;
      mirrors =
          renewed-Mirrors postcard l (landed_as b ids staged dropped values) view t.mirrors changed
            (λ j jb.
              let old = stored_value postcard l.res.inner.chain (record_at l.res j) in
              ap
                (λ s. pick postcard (staged_view j s) (
                  stored_value postcard l.res.inner.chain
                    (value_at b.tables records (encode_key l.res.inner j))))
                clean
              ∙ Leaves-pick postcard l.res.inner (or_view (view j) (staged_view j l.res.staged))
                  (record_at l.res j) _
                  (or_view-ViewOpens l.res.inner.chain (view j) (staged_view j l.res.staged)
                    (opens j) (staged_view-ViewOpens l.res.inner.chain j l.res.staged t.opens))
                  (leaves j jb)
              ∙ pick-or_view postcard (view j) (staged_view j l.res.staged) old)
            fewer;
    }

    -- One more entry is staged.
    pub staged-IsMirror :
        (e : Pending) (dropped : KeySet) (values : Tree T)
        → is_deferred l.res ≡ true
        → Opens l.res.inner.chain e
        → ((j : Bytes) → Tree.get j values ≡ pick postcard (entry_view j e) (Tree.get j l.values))
        → ((j : Bytes)
            → stored_but_unheld (record l.res { dropped = dropped }) j ≡ false
            → ((v : Option Bytes) × (entry_view j e ≡ some v))
              ⊎ (stored_but_unheld l.res j ≡ false))
        → IsMirror postcard (record l {
          res = record l.res { staged = l.res.staged ++ (e ∷ []); dropped = dropped };
          values = values;
        })
    unfolding is_deferred stored_but_unheld is_corrupt
    staged-IsMirror e dropped values late opens changed fewer = record {
      unbudgeted = t.unbudgeted;
      eagerly = t.eagerly;
      prompt = λ now. absurd (ground arith);
      opens = All-append (Opens l.res.inner.chain) l.res.staged (e ∷ []) t.opens (opens, tt);
      mirrors =
          renewed-Mirrors postcard l
            (landed_as l.res.backend l.res.values (l.res.staged ++ (e ∷ [])) dropped values)
            (λ j. entry_view j e) t.mirrors changed
            (λ j jb.
              let old = stored_value postcard l.res.inner.chain (record_at l.res j) in
              ap (λ v. pick postcard v old)
                (staged_view-append j l.res.staged (e ∷ [])
                  ∙ ap (λ v. or_view v (staged_view j l.res.staged)) (staged_view_one j e))
              ∙ pick-or_view postcard (entry_view j e) (staged_view j l.res.staged) old)
            fewer;
    }

    pub flush_locked-Upholds : Upholds (shared flush_locked l)
    unfolding flush_locked Resident.take_staged or_view
    flush_locked-Upholds = go (flush_entries l.res.staged (record l.res { staged = [] })) refl
      where
        go :
            (x : Result (Unit {0}) × Resident)
            → flush_entries l.res.staged (record l.res { staged = [] }) ≡ x
            → Upholds (x.0, record l { res = x.1 })
        go (ok u, r) h =
            let (ids, b, r_is, landed) =
              flush_entries-HasLanded l.res.staged l.res r t.unbudgeted refl h in
            subst (λ r. IsMirror postcard (record l { res = r })) (sym r_is)
              (landed-IsMirror b ids [] l.res.dropped l.values (λ j. none) refl
                (λ j p h. absurd (ground arith)) (λ j. refl)
                (λ j jb.
                  subst
                    (λ m.
                      Leaves l.res.inner m (staged_view j l.res.staged) (record_at l.res j)
                        (value_at b.tables records (encode_key l.res.inner j)))
                    t.eagerly (landed.0 j jb))
                (λ j h. inr h))
        go (err e, r) h =
            IsStill-IsMirror l r (flush_entries-StillUnlessDone l.res.staged l.res e r refl h) t
        go (panic, r) h = tt

  pub flush_if-Upholds :
      (l : Locker T) (full : Bool) → IsMirror postcard l → Upholds (flush_if full l)
  flush_if-Upholds l true t = flush_locked-Upholds l t
  flush_if-Upholds l false t = t
