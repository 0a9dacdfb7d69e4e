-- ===== src/Locker/Lazy/Values/RoundTrip.antt =====
-- A value that was put is read back.
use crossbank.Prelude.{
  ◌≤◌, ◌≡◌, ap, sym, ◌∙◌, false, Option, none, some, List, [], ◌∷◌, ◌++◌, arith, Bool-cases, inl,
  inr, if◌then◌else◌, length,
}
use mathlib.Core.List.{append-nil}
use crossbank.Error.{ok, err, closed}
use crossbank.Bytes.{Bytes}
use crossbank.Backend.Api.{Op}
use crossbank.Backend.Memory
use crossbank.Backend.Memory.{MemoryBackend}
use crossbank.Watch.{Event}
use crossbank.Codec.Filters.{max_decoded_bytes}
use crossbank.Codec.RoundTrip.{AllInvert}
use crossbank.Locker.Chunk.{flag_postcard, ValueIds}
use crossbank.Locker.Inner.{stores_inline}
use crossbank.Locker.Inner.Value.{
  Postcard, to_payload, of_payload, or_unserialised, or_undecodable, load_value,
}
use crossbank.Locker.Inner.Write.{put_payload_ops}
use crossbank.Locker.Transaction.{staged_view}
use crossbank.Locker.Resident.{
  Resident, Accounting, give, ◌>>=◌, prior, is_deferred, announce, touch_index, note_inline,
  ensure_open, modify, with_values, commit, continue,
}
use crossbank.Locker.Resident.Budget.{Budget, no_budget, budget_ops, note_read, note_read_in}
use crossbank.Locker.Resident.Flush.Stored.{
  bind-ok, budget_ops-none, commit-lands, apply_budget-none,
}
use crossbank.Locker.Lazy.{put_deferred, put_now, put_payload, after_put}
use crossbank.Locker.Lazy.Values.{put_by, get_by, get_from, load_and_note, noted, touched}
use crossbank.Locker.Lazy.Values.Decoded.{load_value-put}

-- What a put that succeeded wrote.
settle-ok :
    (ops : List Op) (a : Accounting) (keep_keys : List Bytes) (show : Budget → Resident → Resident)
    (r r' : Resident)
    → r.lru ≡ none
    → (budget_ops a keep_keys >>= λ x. commit (ops ++ x.0) >>= λ _. modify (show x.1)) r
      ≡ (ok tt, r')
    → (b : MemoryBackend) × (Memory.commit r.backend ops ≡ ok b)
      × (r' ≡ show no_budget (record r { backend = b }))
settle-ok ops a keep_keys show r r' plain h =
    let free = budget_ops-none a keep_keys r plain in
    let h1 =
      ap (λ x. continue x (λ x. commit (ops ++ x.0) >>= λ _. modify (show x.1))) (sym free) ∙ h in
    let (_, s, landed, h2) = bind-ok (commit (ops ++ [])) _ r r' tt h1 in
    let (b, c, s_is) = commit-lands (ops ++ []) r s landed in
    (
      b,
      ap (Memory.commit r.backend) (sym (append-nil ops)) ∙ c,
      sym (ap (λ x. x.1) h2) ∙ ap (show no_budget) s_is,
    )

put_now-ok :
    (r r' : Resident) (key payload : Bytes)
    → r.lru ≡ none
    → put_now key payload r ≡ (ok tt, r')
    → (ops : List Op) × (values : ValueIds) × (b : MemoryBackend) × (put_payload_ops r.inner
          r.backend key payload flag_postcard
          (prior r key)
          r.values
        ≡ (ok ops, values))
      × (Memory.commit r.backend ops ≡ ok b)
      × (r'
          ≡ after_put key
              (stores_inline r.inner (length payload) flag_postcard)
              no_budget
              (record r { values = values; backend = b }))
unfolding put_now with_values
put_now-ok r r' key payload plain h =
    let call = λ (b : MemoryBackend) (values : ValueIds).
      put_payload_ops r.inner b key payload flag_postcard (prior r key) values in
    let (ops, s, made, h1) = bind-ok (with_values call) _ r r' tt h in
    let s_is : record r { values = (call r.backend r.values).1 } ≡ s = ap (λ x. x.1) made in
    let (b, c, r_is) =
      settle-ok ops _ (key ∷ []) _ s r' (ap (λ (x : Resident). x.lru) (sym s_is) ∙ plain) h1 in
    (
      ops,
      (call r.backend r.values).1,
      b,
      ap (λ y. (y.0, (call r.backend r.values).1)) made,
      ap (λ (x : Resident). Memory.commit x.backend ops) s_is ∙ c,
      r_is
          ∙ ap
              (λ (x : Resident).
                after_put key (stores_inline r.inner (length payload) flag_postcard) no_budget
                  (record x { backend = b }))
              (sym s_is),
    )

module _ {T : Type 0} (postcard : Postcard T) where
  -- A get that finds nothing staged gives what storage gives, and changes nothing.
  get_by-stored :
      (r : Resident) (key : Bytes) (value : T)
      → r.is_closed ≡ false
      → r.staged ≡ []
      → r.lru ≡ none
      → load_value postcard r.inner r.backend key ≡ ok (some value)
      → get_by postcard key r ≡ (ok (some value), r)
  unfolding get_by ensure_open get_from load_and_note noted touched note_read note_read_in
      staged_view
  get_by-stored r key value opened clean plain h =
      ap
        (λ c.
          continue (if c then (err closed, r) else (ok tt, r))
            (λ _ r. get_from postcard key (staged_view key r.staged) r))
        opened
      ∙ ap (λ es. get_from postcard key (staged_view key es) r) clean
      ∙ ap (λ x. continue (noted postcard key x r) (touched postcard key)) h
      ∙ ap (λ l. continue (note_read_in key l r) (λ _. give (ok (some value)))) plain

  -- The put of an open locker, with the payload of its value.
  put_by-ok :
      (r r' : Resident) (key : Bytes) (value : T)
      → is_deferred r ≡ false
      → put_by postcard key value r ≡ (ok tt, r')
      → (payload : Bytes) × (to_payload postcard value ≡ ok payload)
        × (r.is_closed ≡ false)
        × (put_now key payload r ≡ (ok tt, r'))
  unfolding put_by ensure_open put_payload
  put_by-ok r r' key value now h = elim (Bool-cases r.is_closed) [
    | inl shut ↦ absurd (ground (arith, ap (λ x. x.0) (rw shut at h)))
    | inr opened ↦
        let (payload, s, made, h1) =
          bind-ok (give (to_payload postcard value)) (put_payload key) r r' tt (
            ap
              (λ c.
                continue (if c then (err closed, r) else (ok tt, r))
                  (λ _ r. continue (give (to_payload postcard value) r) (put_payload key)))
              (sym opened)
            ∙ h) in
        let s_is : r ≡ s = ap (λ x. x.1) made in
        let h2 = ap (put_payload key payload) s_is ∙ h1 in
        (
          payload,
          ap (λ x. x.0) made,
          opened,
          ap (λ c. (if c then put_deferred key payload r else put_now key payload r)) (sym now)
              ∙ h2,
        )
  ]

  -- A value that was put is read back: after a put that succeeds on a locker that does not defer, a get
  -- of the same key gives the value, whether it was stored inline or in chunks and whatever stood under
  -- the key, and changes nothing. The locker has no byte budget and nothing staged, the filters and the
  -- serialization invert each other on the value's payload, and the payload is within 256 MiB.
  pub get_by-put_by :
      (r r' : Resident) (key : Bytes) (value : T)
      → r.lru ≡ none
      → r.staged ≡ []
      → is_deferred r ≡ false
      → ((payload : Bytes)
          → postcard.to_allocvec value ≡ some payload
          → (postcard.from_bytes payload ≡ some value)
            × (length payload ≤ max_decoded_bytes)
            × ((piece : Bytes)
                → length piece ≤ length payload
                → AllInvert r.inner.chain.filters piece))
      → put_by postcard key value r ≡ (ok tt, r')
      → get_by postcard key r' ≡ (ok (some value), r')
  unfolding to_payload of_payload or_unserialised or_undecodable after_put announce note_inline
      touch_index
  get_by-put_by r r' key value plain clean now good h =
      let (payload, made, opened, run) = put_by-ok r r' key value now h in
      let (ops, values, b, built, c, r_is) = put_now-ok r r' key payload plain run in
      let (back, small, inv) =
        good payload (serialised (postcard.to_allocvec value) payload made) in
      let r_is' = r_is ∙ ap (announce (Event.put key)) (apply_budget-none _ plain) in
      let loaded =
        load_value-put postcard r.inner r.backend b key payload value (prior r key) r.values values
          ops inv small (ap or_undecodable back) built c in
      get_by-stored r' key value (ap (λ (x : Resident). x.is_closed) r_is' ∙ opened)
        (ap (λ (x : Resident). x.staged) r_is' ∙ clean) (ap (λ (x : Resident). x.lru) r_is' ∙ plain)
        (ap (λ (x : Resident). load_value postcard x.inner x.backend key) r_is' ∙ loaded)
    where
      serialised :
          (x : Option Bytes) (payload : Bytes) → or_unserialised x ≡ ok payload → x ≡ some payload
      serialised none payload h = absurd (ground arith)
      serialised (some p) payload h = ground arith
