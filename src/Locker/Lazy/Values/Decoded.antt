-- ===== src/Locker/Lazy/Values/Decoded.antt =====
-- A record that a put wrote decodes to what its payload decodes to.
use crossbank.Prelude.{
  ◌≤◌, ◌≡◌, ap, sym, ◌∙◌, true, false, some, List, arith, Bool-cases, inl, inr, subst, length, ◌==◌,
}
use crossbank.Error.{ok, ◌>>=◌, >>=-eq-ok, ok-inj}
use crossbank.Bytes.{Bytes}
use crossbank.Backend.Api.{records, Op}
use crossbank.Backend.Memory
use crossbank.Backend.Memory.{MemoryBackend}
use crossbank.Backend.Memory.Refines.{value_at}
use crossbank.Backend.Memory.Opened.{get_open}
use crossbank.Codec.Filters.{max_decoded_bytes}
use crossbank.Codec.RoundTrip.{AllInvert}
use crossbank.Locker.Chunk.{parse, is_pointer, flag_postcard, flag_raw, ValueIds}
use crossbank.Locker.Chunk.Pointer.{parse-encode_flags}
use crossbank.Locker.Inner.{Inner, Prior, encode_key, fetch}
use crossbank.Locker.Inner.Read.{load_payload, read_chunks}
use crossbank.Locker.Inner.Value.{
  Postcard, of_payload, is_raw, of_stored, decode_record, decode_found, load_value,
}
use crossbank.Locker.Inner.Write.{put_payload_ops}
use crossbank.Locker.Inner.Write.Effects.{commit-ok}
use crossbank.Locker.Inner.Write.RoundTrip.{load_payload-put, is_pointer-seal}
use crossbank.Locker.Transaction.{lazy}
use crossbank.Locker.Transaction.Lands.{Keeps, lazy-LandsAt}

of_pointer :
    (i : Inner) (b : MemoryBackend) (raw payload : Bytes)
    → is_pointer raw ≡ true
    → load_payload i b raw ≡ ok payload
    → (parse raw >>= read_chunks i b) ≡ ok payload
unfolding load_payload
of_pointer i b raw payload pointer h = rw pointer at h

module _ {T : Type 0} (postcard : Postcard T) (i : Inner) (b : MemoryBackend) where
  -- A record that loads as a payload, and was written by a put, decodes as the payload does.
  decode_record-ok :
      (raw payload : Bytes) (value : T)
      → Keeps i lazy payload raw
      → load_payload i b raw ≡ ok payload
      → of_payload postcard payload ≡ ok value
      → decode_record postcard i b raw ≡ ok value
  unfolding decode_record
  decode_record-ok raw payload value keeps loads decodes = elim (Bool-cases (is_pointer raw)) [
    | inr plain ↦ rw (loads, plain) decodes
    | inl pointer ↦ elim keeps [
      | inl (_, sealed) ↦ absurd (ground (arith, is_pointer-seal i.chain payload raw sealed))
      | inr (id, n, _, e) ↦
          let (p, parsed, _) =
            >>=-eq-ok (parse raw) (read_chunks i b) {y = payload}
              (of_pointer i b raw payload pointer loads) in
          let flags : p.flags ≡ flag_postcard =
            parse-encode_flags _ p (ap parse (sym e) ∙ parsed) in
          let plainly : is_raw postcard raw ≡ ok false =
            unfold is_raw in
            (ap (λ r. r >>= λ p. ok (p.flags == flag_raw)) parsed
              ∙ ap (λ f. ok (f == flag_raw)) flags) in
          rw (loads, pointer, plainly) (unfold of_stored in decodes)
    ]
  ]

module _ {T : Type 0} (postcard : Postcard T) where
  -- What a put stored loads as the value.
  pub load_value-put :
      (i : Inner) (b b' : MemoryBackend) (key payload : Bytes) (value : T) (known : Prior)
      (cursor cursor' : ValueIds) (ops : List Op)
      → ((piece : Bytes) → length piece ≤ length payload → AllInvert i.chain.filters piece)
      → length payload ≤ max_decoded_bytes
      → of_payload postcard payload ≡ ok value
      → put_payload_ops i b key payload flag_postcard known cursor ≡ (ok ops, cursor')
      → Memory.commit b ops ≡ ok b'
      → load_value postcard i b' key ≡ ok (some value)
  unfolding load_value decode_found fetch
  load_value-put i b b' key payload value known cursor cursor' ops inv small decodes made c =
      let (raw, found, loads) =
        load_payload-put i b b' key payload flag_postcard known cursor cursor' ops inv (omega arith)
          made c in
      let (raw', lands, keeps) =
        (lazy-LandsAt i b key payload known cursor cursor' ops made).0
          (value_at b.tables records (encode_key i key)) in
      let (opened, at) = commit-ok b b' ops c in
      let same : some raw' ≡ some raw =
        sym (at records (encode_key i key) ∙ lands)
        ∙ ok-inj (sym (get_open b' opened records (encode_key i key)) ∙ found) in
      let decoded =
        decode_record-ok postcard i b' raw payload value
          (subst (Keeps i lazy payload) (ground arith) keeps) (loads ∙ ground arith) decodes in
      ap (λ x. x >>= decode_found postcard i b') found
      ∙ ap (λ x. x >>= λ value. ok (some value)) decoded
