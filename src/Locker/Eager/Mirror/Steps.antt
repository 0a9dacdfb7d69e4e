-- ===== src/Locker/Eager/Mirror/Steps.antt =====
-- An eager locker as a system of calls: each keeps the mirror.
use crossbank.Prelude.{◌≡◌, List, All, Bool-cases, inl, inr, subst, length, ◌==◌}
use crossbank.Error.{Result, ok, err, panic}
use crossbank.Bytes.{Bytes}
use crossbank.Locker.Inner.Value.{Postcard}
use crossbank.Locker.Transaction.{Staged}
use crossbank.Locker.Resident.Flush
use crossbank.Locker.Resident.Flush.{flush_locked}
use crossbank.Locker.Eager.{Locker, delete_by, clear_locker, shared}
use crossbank.Locker.Eager.Puts
use crossbank.Locker.Eager.Puts.{put_by}
use crossbank.Locker.Eager.Mirror.{IsMirror}
use crossbank.Locker.Eager.Mirror.Changes.{IsFaithful}
use crossbank.Locker.Eager.Mirror.Landed.{Upholds, flush_locked-Upholds}
use crossbank.Locker.Eager.Mirror.Puts.{Returns, put_by-Upholds}
use crossbank.Locker.Eager.Mirror.Writes.{delete_by-Upholds, clear_locker-Upholds}
use crossbank.Locker.Eager.Mirror.Transactions.{transact-Upholds}

-- A call that returned, with success or an error, and what it left.
abbrev pub Returned : {T A : Type 0} → Result A × Locker T → Locker T → Type 0
Returned (ok a, m) l = m ≡ l
Returned (err e, m) l = m ≡ l
Returned (panic, m) l = ⊥

module _ {T : Type 0} (postcard : Postcard T) where
  Returned-IsMirror :
      {A : Type 0} (x : Result A × Locker T) (l : Locker T)
      → Returned x l
      → Upholds postcard x
      → IsMirror postcard l
  Returned-IsMirror (ok a, m) l h u = subst (IsMirror postcard) h u
  Returned-IsMirror (err e, m) l h u = subst (IsMirror postcard) h u
  Returned-IsMirror (panic, m) l h u = absurd h

  flush-Upholds : (l : Locker T) → IsMirror postcard l → Upholds postcard (shared Flush.flush l)
  unfolding Flush.flush
  flush-Upholds l t = elim (Bool-cases (length l.res.staged == 0)) [
    | inl z ↦ rw z t
    | inr n ↦ rw n (flush_locked-Upholds postcard l t)
  ]

  pub data Step (l l' : Locker T) : Type 0 where
    put :
        (key : Bytes) (value : T)
        → Returns postcard l.res.inner.chain value
        → Returned (put_by postcard key value l) l'
        → Step l l'
    delete : (key : Bytes) → Returned (delete_by key l) l' → Step l l'
    clear : Returned (clear_locker l) l' → Step l l'
    transact :
        (f : Locker T → Result (List (Staged T)))
        → ((m : Locker T) (es : List (Staged T))
            → f m ≡ ok es
            → All (IsFaithful postcard l.res.inner.chain) es)
        → Returned (Puts.transact f l) l'
        → Step l l'
    flush : Returned (shared Flush.flush l) l' → Step l l'

  pub data Reach (l : Locker T) : Locker T → Type 0 where
    start : Reach l l
    later : {m m' : Locker T} → Reach l m → Step m m' → Reach l m'

  Step-IsMirror : (l l' : Locker T) → IsMirror postcard l → Step l l' → IsMirror postcard l'
  Step-IsMirror l l' t (Step.put key value back h) =
      Returned-IsMirror _ l' h (put_by-Upholds postcard l t key value back)
  Step-IsMirror l l' t (Step.delete key h) =
      Returned-IsMirror _ l' h (delete_by-Upholds postcard l t key)
  Step-IsMirror l l' t (Step.clear h) = Returned-IsMirror _ l' h (clear_locker-Upholds postcard l t)
  Step-IsMirror l l' t (Step.transact f faithful h) =
      Returned-IsMirror _ l' h (transact-Upholds postcard l t f faithful)
  Step-IsMirror l l' t (Step.flush h) = Returned-IsMirror _ l' h (flush-Upholds l t)

  pub Reach-IsMirror : (l l' : Locker T) → IsMirror postcard l → Reach l l' → IsMirror postcard l'
  Reach-IsMirror l l' t start = t
  Reach-IsMirror l l' t (later reached step) =
      Step-IsMirror _ l' (Reach-IsMirror l _ t reached) step
