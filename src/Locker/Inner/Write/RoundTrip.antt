-- ===== src/Locker/Inner/Write/RoundTrip.antt =====
-- What `put_payload_ops` stores, `load_payload` reads back.
use crossbank.Prelude.{
  ℕ, ◌^◌, ◌≤◌, ◌<◌, ◌≡◌, refl, ap, sym, ◌∙◌, Bool, true, false, ◌&&◌, Option, some, List, [], ◌∷◌,
  ◌++◌, map, arith, if◌then◌else◌, length, ltb, All, inl, inr,
}
use mathlib.Core.List.{map-map}
use mathlib.Core.Path.{fun_ext}
use crossbank.Error.{Error, Result, ok, err, corrupt, over_limit, ◌>>=◌, >>=-eq-ok, ok-inj}
use crossbank.Bytes.{Bytes}
use crossbank.Backend.Api.{records, chunks, Op}
use crossbank.Backend.Memory.{MemoryBackend, commit}
use crossbank.Backend.Memory.Opened.{get_open}
use crossbank.Backend.Memory.Refines.{effects, value_at}
use crossbank.Codec.Filters.{max_decoded_bytes}
use crossbank.Codec.Chain.{FilterChain, seal, seal_slice, header, forward_all}
use crossbank.Codec.RoundTrip.{AllInvert, unseal-seal}
use crossbank.Locker.Chunk.{
  ChunkPointer, encode, within_limits, parse, is_pointer, chunk_key, ValueIds,
}
use crossbank.Locker.Chunk.Pointer.{parse-encode_eq, is_pointer-header, is_pointer-encode}
use crossbank.Locker.Chunk.Ids.{allocate-ok}
use crossbank.Locker.Inner.{Inner, Prior, encode_key, fetch}
use crossbank.Locker.Inner.Read.{
  load_payload, read_chunks, group_keys, append_pieces, check_total, seq_range,
}
use crossbank.Locker.Inner.Read.Groups.{read_chunks-append_pieces}
use crossbank.Locker.Inner.Write.{pieces_of, put_payload_ops}
use crossbank.Locker.Inner.Write.Cases.{Inlined, Laid, put_payload_ops-cases, chunked_ops-Laid}
use crossbank.Locker.Inner.Write.Pieces.{
  flatten-pieces_of, pieces_of-within, length-pieces_of, length-piece_ops, piece_ops-fits,
  append_stored, Opens,
}
use crossbank.Locker.Inner.Write.Effects.{effects-append, effects-put, commit-ok, counter-elsewhere}

-- The chain's sealed values are no pointers.
pub is_pointer-seal :
    (c : FilterChain) (payload sealed : Bytes)
    → seal c payload ≡ ok sealed
    → is_pointer sealed ≡ false
unfolding seal
is_pointer-seal c payload sealed h =
    let (body, run, e) =
      >>=-eq-ok (forward_all c.filters payload) (λ b. ok (header c.id ++ b)) {y = sealed} h in
    ap is_pointer (sym (ok-inj e)) ∙ is_pointer-header c.id body

ltb_of_le : (m n : ℕ) → n ≤ m → ltb m n ≡ false
ltb_of_le m n h = ground arith

loads :
    (f : ChunkPointer → Result Bytes) (c : Bool) (e : Error) {r : Result ChunkPointer}
    {p : ChunkPointer} {payload : Bytes}
    → r ≡ (if c then err e else ok p)
    → f p ≡ ok payload
    → (r >>= f) ≡ (if c then err e else ok payload)
loads f true e h k = ap (λ m. m >>= f) h
loads f false e h k = ap (λ m. m >>= f) h ∙ k

-- What the record under the key reads as: the payload, or over the limit a refusal.
abbrev pub Stored : Inner → MemoryBackend → Bytes → Bytes → Type 0
Stored i b key payload =
    (raw : Bytes) × (fetch i b key ≡ ok (some raw))
    × (load_payload i b raw ≡ (
        if is_pointer raw && ltb max_decoded_bytes (length payload)
        then err (corrupt (over_limit (length payload)))
        else ok payload))

module _ (i : Inner) (b b' : MemoryBackend) (key payload : Bytes) (flags : ℕ) (gc ops : List Op)
    (committed : commit b ops ≡ ok b') where
  put-inline :
      AllInvert i.chain.filters payload
      → Inlined i key payload flags gc ops
      → Stored i b' key payload
  unfolding fetch load_payload
  put-inline inv w =
      let (opened, at) = commit-ok b b' ops committed in
      let plain = is_pointer-seal i.chain payload w.sealed w.is_sealed in
      let key' = encode_key i key in
      let old = value_at b.tables records key' in
      (
        w.sealed,
        get_open b' opened records key'
            ∙ ap ok (
                at records key'
                ∙ ap (λ o. effects o records key' old) w.is_ops
                ∙ effects-put gc [] key' w.sealed old (λ _. refl)),
        rw plain (unseal-seal i.chain payload w.sealed inv w.is_sealed),
      )

  module _ (cursor : ValueIds) (id : ℕ) (w : Laid i key payload flags gc ops cursor id) where
    abbrev laid : ChunkPointer
    laid = record {
      value_id = id;
      n_chunks = w.n_chunks;
      total_len = length payload;
      flags = flags;
    }

    abbrev parts : List Bytes
    parts = pieces_of (length payload) i.config.chunk_size payload

    counted : w.n_chunks ≡ length parts
    counted = omega (arith, length-piece_ops i.chain id 0 parts w.writes w.n_chunks w.is_writes)

    -- What the commit leaves under the key of a piece.
    abbrev piece_at : ℕ → Option Bytes
    piece_at s =
        effects w.writes chunks (chunk_key id s)
          (effects gc chunks (chunk_key id s) (value_at b.tables chunks (chunk_key id s)))

    piece_at-committed : (s : ℕ) → value_at b'.tables chunks (chunk_key id s) ≡ piece_at s
    piece_at-committed s =
        let k = chunk_key id s in
        let old = value_at b.tables chunks k in
        (commit-ok b b' ops committed).1 chunks k
        ∙ ap (λ o. effects o chunks k old) w.is_ops
        ∙ effects-append gc _ chunks k old
        ∙ effects-append w.writes _ chunks k (effects gc chunks k old)
        ∙ (counter-elsewhere cursor k (piece_at s)).1

    Opens-All :
        ((piece : Bytes) → length piece ≤ length payload → AllInvert i.chain.filters piece)
        → (ps : List Bytes) → All (λ p. length p ≤ length payload) ps
        → All (λ p. Opens i.chain p) ps
    unfolding seal_slice
    Opens-All inv [] a = tt
    Opens-All inv (p ∷ ps) a =
        (λ sealed s. unseal-seal i.chain p sealed (inv p a.0) s, Opens-All inv ps a.1)

    read_laid :
        ((piece : Bytes) → length piece ≤ length payload → AllInvert i.chain.filters piece)
        → read_chunks i b' laid ≡ ok payload
    unfolding group_keys check_total
    read_laid inv =
        let opened = (commit-ok b b' ops committed).0 in
        let joined =
          flatten-pieces_of (length payload) i.config.chunk_size payload w.positive (omega arith) in
        read_chunks-append_pieces i b' laid opened
        ∙ ap (λ l. append_pieces i.chain laid 0 [] l >>= check_total laid)
            (map-map (λ k. value_at b'.tables chunks k) (chunk_key id) (seq_range 0 w.n_chunks)
              ∙ ap (λ f. map f (seq_range 0 w.n_chunks)) (fun_ext piece_at-committed)
              ∙ ap (λ n. map piece_at (seq_range 0 n)) counted)
        ∙ ap (λ m. m >>= check_total laid)
            (append_stored i.chain laid 0 [] parts w.writes w.n_chunks _
              (Opens-All inv parts (
                pieces_of-within (length payload) i.config.chunk_size (length payload) payload
                  (omega arith)))
              (omega (arith, ap length joined)) w.is_writes)
        ∙ rw joined (ground arith)

    -- The pointer parses, but over the limit of a value.
    parse-laid :
        id < 256 ^ 8
        → length payload < 256 ^ 8
        → parse (encode laid) ≡ (
            if ltb max_decoded_bytes (length payload)
            then err (corrupt (over_limit (length payload)))
            else ok laid)
    unfolding within_limits
    parse-laid small_id small =
        let few : length parts ≤ length payload =
          length-pieces_of (length payload) i.config.chunk_size payload w.positive in
        let fits =
          piece_ops-fits i.chain id 0 parts w.writes w.n_chunks (omega arith) w.is_writes in
        parse-encode_eq laid small_id (omega (arith, fits)) small
        ∙ rw (ltb_of_le (length payload) w.n_chunks (omega (arith, counted))) refl

  put-chunked :
      (cursor : ValueIds) (id : ℕ)
      → id < 256 ^ 8
      → length payload < 256 ^ 8
      → ((piece : Bytes) → length piece ≤ length payload → AllInvert i.chain.filters piece)
      → Laid i key payload flags gc ops cursor id
      → Stored i b' key payload
  unfolding fetch load_payload
  put-chunked cursor id small_id small inv w =
      let (opened, at) = commit-ok b b' ops committed in
      let key' = encode_key i key in
      let old = value_at b.tables records key' in
      let p : ChunkPointer = record {
        value_id = id;
        n_chunks = w.n_chunks;
        total_len = length payload;
        flags = flags;
      } in
      (
        encode p,
        get_open b' opened records key'
            ∙ ap ok (
                at records key'
                ∙ ap (λ o. effects o records key' old) w.is_ops
                ∙ effects-append gc _ records key' old
                ∙ effects-put w.writes _ key' (encode p) _
                    (λ v. (counter-elsewhere cursor key' v).0)),
        rw (is_pointer-encode p) (
            loads (read_chunks i b') _ _ (parse-laid cursor id w small_id small)
              (read_laid cursor id w inv)),
      )

-- A put that succeeds, inline or chunked, stores what reads back as the payload: after its mutations
-- are committed the record under the key is there, and loading it gives the payload, whatever stood
-- under the key before and in the chunk table. The one exception is a chunked payload over the limit
-- of 256 MiB: the put succeeds, and the load refuses the pointer. It is assumed that the filters invert
-- each other on byte strings no longer than the payload, and that its length fits a `u64`.
pub load_payload-put :
    (i : Inner) (b b' : MemoryBackend) (key payload : Bytes) (flags : ℕ) (prior : Prior)
    (cursor cursor' : ValueIds) (ops : List Op)
    → ((piece : Bytes) → length piece ≤ length payload → AllInvert i.chain.filters piece)
    → length payload < 2 ^ 64
    → put_payload_ops i b key payload flags prior cursor ≡ (ok ops, cursor')
    → commit b ops ≡ ok b'
    → Stored i b' key payload
load_payload-put i b b' key payload flags prior cursor cursor' ops inv small h committed =
    let (gc, _, w) = put_payload_ops-cases i b key payload flags prior cursor cursor' ops h in
    elim w [
      | inl n ↦ put-inline i b b' key payload flags gc ops committed (inv payload (omega arith)) n
      | inr c ↦
          let (_, _, fits) = allocate-ok b cursor cursor' c.value_id c.is_id in
          put-chunked i b b' key payload flags gc ops committed cursor' c.value_id
            (omega (arith, fits)) (omega (arith, small)) inv
            (chunked_ops-Laid i key payload flags gc ops cursor' c.value_id c.is_ops)
    ]
