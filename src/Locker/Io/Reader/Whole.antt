-- ===== src/Locker/Io/Reader/Whole.antt =====
-- The streaming reader yields what the whole-value read gives.
use crossbank.Prelude.{
  ℕ, zero, suc, ◌+◌, true, false, Option, none, some, List, [], ◌∷◌, ◌++◌, ltb, length, ◌<◌, ◌≡◌,
  refl, ap, sym, ◌∙◌, map, arith, Bool-cases, inl, inr, ◌==◌,
}
use crossbank.Error.{ok}
use crossbank.Bytes.{Bytes}
use crossbank.Backend.Api.{chunks}
use crossbank.Backend.Memory.{MemoryBackend}
use crossbank.Codec.Chain.{unseal}
use crossbank.Locker.Chunk.{ChunkPointer, parse, is_pointer, chunk_key}
use crossbank.Locker.Inner.{Inner, fetch}
use mathlib.Core.List.{map-map, append-nil, append_assoc, flatten}
use crossbank.Error.{>>=-eq-ok, ok-inj}
use crossbank.Backend.Memory.Opened.{get_open}
use crossbank.Backend.Memory.Refines.{value_at}
use crossbank.Locker.Inner.Read.{
  load_payload, read_chunks, group_keys, append_piece, append_pieces, check_total, seq_range,
}
use crossbank.Locker.Inner.Read.Groups.{read_chunks-append_pieces}
use crossbank.Locker.Io.Reader
use crossbank.Locker.Io.Reader.{reader, len, drained, calls, next_chunk}

module _ (i : Inner) (b : MemoryBackend) (opened : b.is_closed ≡ false) where
  abbrev reading : ChunkPointer → ℕ → Reader.Reader
  reading p seq = record { pointer = some p; seq = seq; inline = none }

  abbrev Yields : ℕ → Reader.Reader → Bytes → Bytes → Type 0
  Yields fuel r out whole =
      (pieces : List Bytes) × (drained fuel i b r ≡ ok pieces) × (out ++ flatten pieces ≡ whole)

  -- A piece that was appended was there and opened.
  append_pieces-first :
      (p : ChunkPointer) (seq : ℕ) (out whole : Bytes) (held : Option Bytes)
      (rest : List (Option Bytes))
      → append_pieces i.chain p seq out (held ∷ rest) ≡ ok whole
      → (sealed : Bytes) × (piece : Bytes) × (held ≡ some sealed)
        × (unseal i.chain sealed ≡ ok piece)
        × (append_pieces i.chain p (seq + 1) (out ++ piece) rest ≡ ok whole)
  unfolding append_pieces append_piece
  append_pieces-first p seq out whole none rest h = absurd (ground arith)
  append_pieces-first p seq out whole (some sealed) rest h =
      let (grown, h1, h2) = >>=-eq-ok (append_piece i.chain p out sealed) _ {y = whole} h in
      let (piece, u, h3) = >>=-eq-ok (unseal i.chain sealed) _ {y = grown} h1 in
      let same : out ++ piece ≡ grown =
        elim (Bool-cases (ltb p.total_len (length (out ++ piece)))) [
          | inl e ↦ absurd (ground arith)
          | inr e ↦ ok-inj (rw e at h3)
        ] in
      (sealed, piece, refl, u, ap (λ o. append_pieces i.chain p (seq + 1) o rest) same ∙ h2)

  drained-append_pieces :
      (p : ChunkPointer) (n seq fuel : ℕ) (out whole : Bytes)
      → seq + n ≡ p.n_chunks
      → n < fuel
      → append_pieces i.chain p seq out
          (map (λ s. value_at b.tables chunks (chunk_key p.value_id s)) (seq_range seq n))
        ≡ ok whole
      → Yields fuel (reading p seq) out whole
  unfolding drained append_pieces seq_range next_chunk Reader.next_inline Reader.next_stored
      Reader.after_get Reader.next_piece flatten
  drained-append_pieces p n seq zero out whole e more h = absurd (omega arith)
  drained-append_pieces p zero seq (suc fuel) out whole e more h =
      let stop : ltb seq p.n_chunks ≡ false = ground arith in
      ([], rw stop refl, append-nil out ∙ ok-inj h)
  drained-append_pieces p (suc n) seq (suc fuel) out whole e more h =
      let k = chunk_key p.value_id seq in
      let (sealed, piece, held, u, h1) =
        append_pieces-first p seq out whole (value_at b.tables chunks k) _ h in
      let (pieces, run, joined) =
        drained-append_pieces p n (seq + 1) fuel (out ++ piece) whole (omega arith) (omega arith)
          h1 in
      let going : ltb seq p.n_chunks ≡ true = ground arith in
      (
        piece ∷ pieces,
        rw (going, get_open b opened chunks k, held, u, run) refl,
        sym (append_assoc out piece (flatten pieces)) ∙ joined,
      )

  -- What a reader of a record gives.
  abbrev pub Streams : Bytes → Bytes → Type 0
  Streams key whole =
      (r : Reader.Reader) × (pieces : List Bytes) × (reader i b key ≡ ok (some r))
      × (drained (calls r) i b r ≡ ok pieces)
      × (flatten pieces ≡ whole)
      × (len r ≡ length whole)

  check_total-ok :
      (p : ChunkPointer) (out whole : Bytes)
      → check_total p out ≡ ok whole
      → (out ≡ whole) × (p.total_len ≡ length whole)
  unfolding check_total
  check_total-ok p out whole h = elim (Bool-cases (length out == p.total_len)) [
    | inl e ↦ let same = ok-inj (rw e at h) in (same, ground (arith, ap length same))
    | inr e ↦ absurd (ground arith)
  ]

  stored-Streams :
      (key raw whole : Bytes) (p : ChunkPointer)
      → fetch i b key ≡ ok (some raw)
      → is_pointer raw ≡ true
      → parse raw ≡ ok p
      → read_chunks i b p ≡ ok whole
      → Streams key whole
  unfolding reader Reader.reader_of Reader.from_pointer len group_keys
  stored-Streams key raw whole p found pointer parsed h =
      let stored =
        map (λ s. value_at b.tables chunks (chunk_key p.value_id s)) (seq_range 0 p.n_chunks) in
      let (out, h1, h2) =
        >>=-eq-ok _ (check_total p) {y = whole}
          (sym (read_chunks-append_pieces i b p opened) ∙ h) in
      let (same, total) = check_total-ok p out whole h2 in
      let (pieces, run, joined) =
        drained-append_pieces p p.n_chunks 0 (p.n_chunks + 2) [] out (omega arith) (omega arith) (
          ap (append_pieces i.chain p 0 []) (
            sym (
              map-map (λ k. value_at b.tables chunks k) (chunk_key p.value_id)
                (seq_range 0 p.n_chunks)))
          ∙ h1) in
      (reading p 0, pieces, rw (found, pointer, parsed) refl, run, joined ∙ same, total)

  inline-Streams :
      (key raw whole : Bytes)
      → fetch i b key ≡ ok (some raw)
      → is_pointer raw ≡ false
      → unseal i.chain raw ≡ ok whole
      → Streams key whole
  unfolding reader Reader.reader_of Reader.from_inline len drained next_chunk Reader.next_inline
      Reader.next_stored flatten
  inline-Streams key raw whole found plain opens = (
    Reader.from_inline whole,
    whole ∷ [],
    rw (found, plain, opens) refl,
    refl,
    append-nil whole,
    refl,
  )

  -- Where the record of a key loads to a payload, a reader of the key opens, says that payload's
  -- length, and yields pieces that end and that together are the payload. The backend is open.
  pub reader-Streams :
      (key raw whole : Bytes)
      → fetch i b key ≡ ok (some raw)
      → load_payload i b raw ≡ ok whole
      → Streams key whole
  unfolding load_payload
  reader-Streams key raw whole found h = elim (Bool-cases (is_pointer raw)) [
    | inl e ↦
        let (p, parsed, h1) = >>=-eq-ok (parse raw) _ {y = whole} (rw e at h) in
        stored-Streams key raw whole p found e parsed h1
    | inr e ↦ inline-Streams key raw whole found e (rw e at h)
  ]
