-- ===== src/Locker/Lazy/Index/Batches.antt =====
-- A flush keeps the index true, and so does a write that is staged.
use crossbank.Prelude.{
  ◌≡◌, refl, sym, ◌∙◌, Option, none, [], ◌∷◌, ◌++◌, Bool-cases, inl, inr, subst, length,
}
use crossbank.Error.{Result, ok, err, panic}
use crossbank.Bytes.{Bytes, IsBytes}
use crossbank.Backend.Api.{records}
use crossbank.Backend.Memory.{MemoryBackend}
use crossbank.Backend.Memory.Refines.{value_at}
use crossbank.Locker.Inner.{encode_key}
use crossbank.Locker.Chunk.{ValueIds}
use crossbank.Locker.Transaction.{Pending, staged_view}
use crossbank.Locker.Transaction.Lands.{Leaves}
use crossbank.Locker.Resident.{Resident, is_deferred, deferred_after, stage, is_full, take_staged}
use crossbank.Locker.Resident.Flush.{flush_entries, flush_locked}
use crossbank.Locker.Resident.Flush.Batch.{flush_entries-StillUnlessDone}
use crossbank.Locker.Resident.Flush.Stored.{HasLanded, flush_entries-HasLanded}
use crossbank.Locker.Lazy.{stage_and}
use crossbank.Locker.Lazy.Index.{IsTrue, record_at}
use crossbank.Locker.Lazy.Index.Changes.{Leaves-over}
use crossbank.Locker.Lazy.Index.Settled.{Upholds, IsStill-IsTrue}

-- The record of a key that nothing was staged for is as it was.
kept_record :
    (r : Resident) (b : MemoryBackend) (view : Bytes → Option (Option Bytes))
    → HasLanded r view b
    → (key : Bytes) → IsBytes key
    → view key ≡ none
    → value_at b.tables records (encode_key r.inner key) ≡ record_at r key
kept_record r b view landed key kb h =
    subst
      (λ v.
        Leaves r.inner r.mode v (record_at r key)
          (value_at b.tables records (encode_key r.inner key)))
      h (landed.0 key kb)

-- A batch that landed has no other view than storage.
landed-IsTrue :
    (r : Resident) (values : ValueIds) (b : MemoryBackend)
    → IsTrue r
    → HasLanded r (λ key. staged_view key r.staged) b
    → IsTrue (record r { values = values; backend = b; staged = [] })
unfolding is_deferred staged_view
landed-IsTrue r values b t landed = record {
  unbudgeted = t.unbudgeted;
  lazily = t.lazily;
  prompt = λ _. refl;
  keys = t.keys;
  is_index = t.is_index;
  tells = λ key kb.
      t.tells key kb
      ∙ sym (
          Leaves-over r.inner r.mode (staged_view key r.staged) (record_at r key) _
            (landed.0 key kb));
  marks = λ key kb m.
      let (free, raw, e, p) = t.marks key kb m in
      (refl, raw, kept_record r b (λ key. staged_view key r.staged) landed key kb free ∙ e, p);
}

pub flush_locked-Upholds : (r : Resident) → IsTrue r → Upholds (flush_locked r)
unfolding flush_locked take_staged
flush_locked-Upholds r t = go (flush_entries r.staged (record r { staged = [] })) refl
  where
    go :
        (x : Result (Unit {0}) × Resident)
        → flush_entries r.staged (record r { staged = [] }) ≡ x
        → Upholds x
    go (ok u, r') h =
        let (values, b, r_is, landed) = flush_entries-HasLanded r.staged r r' t.unbudgeted refl h in
        subst IsTrue (sym r_is) (landed-IsTrue r values b t landed)
    go (err e, r') h = IsStill-IsTrue r r' (flush_entries-StillUnlessDone r.staged r e r' refl h) t
    go (panic, r') h = tt

-- A staged write is shown at once; if the batch is full it is flushed.
pub stage_and-Upholds :
    (entry : Pending) (show : Resident → Resident) (r : Resident)
    → IsTrue (show (record r { staged = r.staged ++ (entry ∷ []) }))
    → Upholds (stage_and entry show r)
unfolding stage_and stage
stage_and-Upholds entry show r t =
    elim (Bool-cases
      (is_full (deferred_after r.inner.config.commit) (length (r.staged ++ (entry ∷ []))))) [
        | inl full ↦
            rw full (flush_locked-Upholds (show (record r { staged = r.staged ++ (entry ∷ []) })) t)
        | inr more ↦ rw more t
      ]
