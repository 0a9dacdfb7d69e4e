-- ===== src/Locker/Lazy/Index/Priors.antt =====
-- The reads that the index and the markers save a write.
use crossbank.Prelude.{
  ◌≡◌, refl, ap, sym, ◌∙◌, true, false, Option, none, some, [], arith, Bool-cases, inl, inr, subst,
  length, ◌==◌, ℕ,
}
use crossbank.Error.{◌>>=◌}
use crossbank.Bytes.{Bytes, IsBytes}
use crossbank.Backend.Api.{records}
use crossbank.Backend.Memory.Opened.{get_open}
use crossbank.Locker.Inner.{Prior, unknown, absent, inline, encode_key, fetch, needs_read}
use crossbank.Locker.Inner.Write.{gc_of, prior_ops, put_payload_ops, delete_value_ops}
use crossbank.Locker.Chunk.{ValueIds}
use crossbank.Locker.Lru.State.{contains_key}
use crossbank.Locker.Transaction.{staged_view}
use crossbank.Locker.Resident.{
  Resident, prior, prior_in, holds_key, is_some, index_is_authoritative,
}
use crossbank.Locker.Resident.Flush.Stored.{nil_of_length}
use crossbank.Locker.Lazy.Index.{IsTrue, record_at}

none_of : {A : Type 0} (v : Option A) → is_some v ≡ false → v ≡ none
none_of none h = refl
none_of (some a) h = absurd (ground arith)

module _ (r : Resident) (t : IsTrue r) (opened : r.backend.is_closed ≡ false) (key : Bytes)
    (kb : IsBytes key) where
  abbrev Saves : Prior → Type 0
  Saves p = prior_ops r.inner r.backend key p ≡ prior_ops r.inner r.backend key unknown

  -- What the write would have read.
  read_prior :
      (v : Option Bytes) → record_at r key ≡ v → prior_ops r.inner r.backend key unknown ≡ gc_of v
  unfolding prior_ops needs_read fetch
  read_prior v h =
      ap (λ x. x >>= gc_of) (get_open r.backend opened records (encode_key r.inner key))
      ∙ ap gc_of h

  absent-Saves : r.staged ≡ [] → contains_key t.keys key ≡ false → Saves absent
  unfolding prior_ops needs_read gc_of staged_view
  absent-Saves clean h =
      sym (read_prior none (none_of (record_at r key) (sym (rw clean at (t.tells key kb)) ∙ h)))

  inline-Saves : holds_key key r.known_inline ≡ true → Saves inline
  unfolding prior_ops needs_read
  inline-Saves m =
      let (_, raw, stored, plain) = t.marks key kb m in
      sym (read_prior (some raw) stored ∙ unfold gc_of in rw plain refl)

  prior_in-Saves : r.staged ≡ [] → Saves (prior_in key (some t.keys) r.known_inline)
  unfolding prior_in
  prior_in-Saves clean = elim (Bool-cases (contains_key t.keys key)) [
    | inl e ↦ elim (Bool-cases (holds_key key r.known_inline)) [
      | inl m ↦ rw (e, m) (inline-Saves m)
      | inr n ↦ rw (e, n) refl
    ]
    | inr n ↦ rw n (absent-Saves clean n)
  ]

  prior-Saves : Saves (prior r key)
  unfolding prior
  prior-Saves = elim (Bool-cases (length r.staged == 0)) [
    | inl z ↦ elim (Bool-cases (index_is_authoritative r)) [
      | inl a ↦
          rw (z, a)
            (subst (λ x. Saves (prior_in key x r.known_inline)) (sym t.is_index)
              (prior_in-Saves (nil_of_length r.staged z)))
      | inr a ↦ rw (z, a) refl
    ]
    | inr n ↦ rw n refl
  ]

  -- The fast path of a write is exact: with the proof that the index and the inline markers give of
  -- a key, a put and a delete build the very mutations that they build when they read the record
  -- first, garbage of a chunked value included. The locker has no byte budget, its index is true,
  -- its backend is open, and the key is a byte string.
  pub prior_ops-prior :
      (payload : Bytes) (flags : ℕ) (cursor : ValueIds)
      → (put_payload_ops r.inner r.backend key payload flags (prior r key) cursor
          ≡ put_payload_ops r.inner r.backend key payload flags unknown cursor)
        × (delete_value_ops r.inner r.backend key (prior r key)
            ≡ delete_value_ops r.inner r.backend key unknown)
  unfolding put_payload_ops delete_value_ops
  prior_ops-prior payload flags cursor = rw prior-Saves (refl, refl)
