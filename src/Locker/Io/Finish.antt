-- ===== src/Locker/Io/Finish.antt =====
-- Finishing a streamed value publishes it whole.
use crossbank.Prelude.{
  ℕ, ◌^◌, ◌≤◌, ◌<◌, ◌≡◌, refl, ap, sym, subst, ◌∙◌, true, false, none, some, List, [], ◌∷◌, ◌++◌,
  map, arith, length,
}
use mathlib.Core.List.{map-map, append-nil}
use mathlib.Core.Path.{fun_ext}
use crossbank.Error.{Result, ok, ◌>>=◌, >>=-eq-ok, ok-inj}
use crossbank.Bytes.{Bytes, bytes_eq, bytes_eq_refl}
use crossbank.Backend.Api.{records, chunks, Op, put}
use crossbank.Backend.Memory.{MemoryBackend, commit, apply_all}
use crossbank.Backend.Memory.Opened.{get_open, commit_open}
use crossbank.Backend.Memory.Refines.{value_at}
use crossbank.Codec.Filters.{max_decoded_bytes}
use crossbank.Codec.Chain.{seal_slice}
use crossbank.Locker.Chunk.{ChunkPointer, encode, parse, is_pointer, chunk_key}
use crossbank.Locker.Chunk.Pointer.{parse-encode, is_pointer-encode}
use crossbank.Locker.Inner.{Inner, encode_key, fetch}
use crossbank.Locker.Inner.Read.{load_payload, group_keys, append_pieces, check_total, seq_range}
use crossbank.Locker.Inner.Read.Groups.{read_chunks-append_pieces}
use crossbank.Locker.Inner.Write.{gc_of}
use crossbank.Locker.Inner.Write.Effects.{commit-ok, effects-append}
use crossbank.Watch
use crossbank.Locker.Io.{Writer, flush_piece, flush_rest, finish, pointer_of, Published}
use crossbank.Locker.Io.Stream.{Seals, IsWriting, flush_piece-Continues}
use crossbank.Locker.Io.Garbage.{Spares, Harmless, gc_of-Harmless}

module _ (i : Inner) (seals : Seals i.chain) where
  pub flush_piece-records :
      (b b' : MemoryBackend) (w w' : Writer) (piece k : Bytes)
      → flush_piece i b w piece ≡ ok (b', w')
      → value_at b'.tables records k ≡ value_at b.tables records k
  unfolding flush_piece
  flush_piece-records b b' w w' piece k h =
      let (sealed, _, h1) = >>=-eq-ok (seal_slice i.chain piece) _ {y = (b', w')} h in
      let (b1, c, h2) =
        >>=-eq-ok (commit b (put chunks (chunk_key w.value_id w.seq) sealed ∷ [])) _ {y = (b', w')}
          h1 in
      ap (λ x. value_at x.0.tables records k) (sym (ok-inj h2))
      ∙ (commit-ok b b1 (put chunks (chunk_key w.value_id w.seq) sealed ∷ []) c).1 records k

  -- The leftover is flushed as a last piece.
  abbrev Flushed : MemoryBackend → Writer → Bytes → Type 0
  Flushed b w written =
      (b' : MemoryBackend) × (w' : Writer) × (flush_rest i b w w.buf ≡ ok (b', w'))
      × IsWriting i seals b' w' written
      × (w'.buf ≡ [])
      × (w'.key ≡ w.key)
      × (w'.value_id ≡ w.value_id)
      × ((k : Bytes) → value_at b'.tables records k ≡ value_at b.tables records k)

  flush_rest-Flushed :
      (b : MemoryBackend) (w : Writer) (written rest : Bytes)
      → w.buf ≡ rest
      → length written ≤ max_decoded_bytes
      → IsWriting i seals b w written
      → Flushed b w written
  unfolding flush_rest
  flush_rest-Flushed b w written [] e small v =
      (b, w, ap (flush_rest i b w) e, v, e, refl, refl, λ k. refl)
  flush_rest-Flushed b w written (x ∷ xs) e small v =
      let (b', w', run, v', left, key, id) =
        flush_piece-Continues i seals b w (x ∷ xs) [] written (omega arith) small
          (e ∙ sym (append-nil (x ∷ xs))) v in
      (
        b',
        w',
        ap (flush_rest i b w) e ∙ run,
        v',
        left,
        key,
        id,
        λ k. flush_piece-records b b' (record w { buf = [] }) w' (x ∷ xs) k run,
      )

  -- The pieces that are stored read as the whole value, under the writer's pointer.
  loads_whole :
      (b b'' : MemoryBackend) (w : Writer) (written : Bytes) (gc : List Op) (k v : Bytes)
      → w.value_id < 256 ^ 8
      → length written ≤ max_decoded_bytes
      → w.buf ≡ []
      → IsWriting i seals b w written
      → Harmless w.value_id gc
      → commit b (gc ++ (put records k v ∷ [])) ≡ ok b''
      → load_payload i b'' (encode (pointer_of w)) ≡ ok written
  unfolding load_payload group_keys check_total
  loads_whole b b'' w written gc k v small_id small flushed_all writing harmless c =
      let p = pointer_of w in
      let id = w.value_id in
      let (opened, at) = commit-ok b b'' (gc ++ (put records k v ∷ [])) c in
      let whole : writing.flushed ≡ written =
        sym (append-nil writing.flushed)
        ∙ ap (λ x. writing.flushed ++ x) (sym flushed_all)
        ∙ writing.joined in
      let total : length writing.flushed ≡ w.total_len = ap length whole ∙ sym writing.total in
      let piece : (s : ℕ)
          → value_at b''.tables chunks (chunk_key id s)
            ≡ value_at b.tables chunks (chunk_key id s) =
        λ s.
          at chunks (chunk_key id s)
          ∙ effects-append gc (put records k v ∷ []) chunks (chunk_key id s) _
          ∙ harmless.0 s _ in
      let parsed : parse (encode p) ≡ ok p = parse-encode p (record {
        id_fits = small_id;
        flags_fit = omega arith;
        total_fits = omega (arith, writing.total);
        chunks_fit = omega (arith, writing.counted, total);
      }) in
      rw (is_pointer-encode p, parsed)
        (read_chunks-append_pieces i b'' p opened
          ∙ ap (λ l. append_pieces i.chain p 0 [] l >>= check_total p)
              (map-map (λ j. value_at b''.tables chunks j) (chunk_key id) (seq_range 0 w.seq)
                ∙ ap (λ f. map f (seq_range 0 w.seq)) (fun_ext piece))
          ∙ ap (λ m. m >>= check_total p) (writing.appends p (omega (arith, total)))
          ∙ rw whole (ground (arith, writing.total)))

  -- What another reader then finds, what became of the other records and of the value that was replaced,
  -- and what the locker is told.
  abbrev pub Publishes : MemoryBackend → Published → Bytes → Bytes → Type 0
  Publishes b out key written =
      ((raw : Bytes) × (fetch i out.backend key ≡ ok (some raw))
        × (load_payload i out.backend raw ≡ ok written))
      × ((j : Bytes)
          → bytes_eq (encode_key i key) j ≡ false
          → value_at out.backend.tables records j ≡ value_at b.tables records j)
      × ((raw : Bytes) (p : ChunkPointer)
          → value_at b.tables records (encode_key i key) ≡ some raw
          → is_pointer raw ≡ true
          → parse raw ≡ ok p
          → (s : ℕ) → value_at out.backend.tables chunks (chunk_key p.value_id s) ≡ none)
      × (out.indexed ≡ key)
      × (out.is_inline ≡ false)
      × (out.announced ≡ Watch.put key)

  -- It says no more of the backend before than what its records are.
  pub Publishes-same :
      (b b' : MemoryBackend) (out : Published) (key written : Bytes)
      → ((k : Bytes) → value_at b'.tables records k ≡ value_at b.tables records k)
      → Publishes b' out key written
      → Publishes b out key written
  Publishes-same b b' out key written same (found, others, taken, indexed, inline, told) = (
    found,
    λ j apart. others j apart ∙ same j,
    λ raw p held. taken raw p (same (encode_key i key) ∙ held),
    indexed,
    inline,
    told,
  )

  -- `finish` past the flush.
  abbrev publish : MemoryBackend → Writer → Result Published
  publish b w = fetch i b w.key >>= λ existing. gc_of existing >>= λ gc.
      commit b (gc ++ (put records (encode_key i w.key) (encode (pointer_of w)) ∷ [])) >>= λ b'.
      ok (record { backend = b'; indexed = w.key; is_inline = false; announced = Watch.put w.key })

  publish-Publishes :
      (b : MemoryBackend) (w : Writer) (written : Bytes)
      → w.value_id < 256 ^ 8
      → length written ≤ max_decoded_bytes
      → w.buf ≡ []
      → IsWriting i seals b w written
      → Spares w.value_id (value_at b.tables records (encode_key i w.key))
      → (out : Published) × (publish b w ≡ ok out) × Publishes b out w.key written
  unfolding fetch
  publish-Publishes b w written small_id small empty v spares =
      let k = encode_key i w.key in
      let old = value_at b.tables records k in
      let (gc, collected, harmless, taken) = gc_of-Harmless w.value_id old small_id spares in
      let last = put records k (encode (pointer_of w)) in
      let b' : MemoryBackend = record {
        tables = apply_all b.tables (gc ++ (last ∷ []));
        is_closed = false;
      } in
      let c : commit b (gc ++ (last ∷ [])) ≡ ok b' = commit_open b v.opened (gc ++ (last ∷ [])) in
      let at = (commit-ok b b' (gc ++ (last ∷ [])) c).1 in
      let held : value_at b'.tables records k ≡ some (encode (pointer_of w)) =
        at records k ∙ effects-append gc (last ∷ []) records k old ∙ rw (bytes_eq_refl k) refl in
      (
        record { backend = b'; indexed = w.key; is_inline = false; announced = Watch.put w.key },
        rw (get_open b v.opened records k, collected, c) refl,
        (
          (
            encode (pointer_of w),
            get_open b' refl records k ∙ ap ok held,
            loads_whole b b' w written gc k (encode (pointer_of w)) small_id small empty v harmless
                c,
          ),
          λ j apart.
              at records j
              ∙ effects-append gc (last ∷ []) records j (value_at b.tables records j)
              ∙ rw apart (harmless.1 j (value_at b.tables records j)),
          λ raw p held pointer parsed s.
              at chunks (chunk_key p.value_id s)
              ∙ effects-append gc (last ∷ []) chunks (chunk_key p.value_id s) _
              ∙ taken raw p held pointer parsed s _,
          refl,
          refl,
          refl,
        ),
      )

  pub finish-Publishes :
      (b : MemoryBackend) (w : Writer) (written : Bytes)
      → w.value_id < 256 ^ 8
      → length written ≤ max_decoded_bytes
      → IsWriting i seals b w written
      → Spares w.value_id (value_at b.tables records (encode_key i w.key))
      → (out : Published) × (finish i b w ≡ ok out) × Publishes b out w.key written
  unfolding finish
  finish-Publishes b w written small_id small writing spares =
      let (b', w', run, v, left, key, id, same) =
        flush_rest-Flushed b w written w.buf refl small writing in
      let k = encode_key i w.key in
      let spared : Spares w'.value_id (value_at b'.tables records (encode_key i w'.key)) =
        rw (id, key, same k) spares in
      let (out, done, published) =
        publish-Publishes b' w' written (omega (arith, small_id, id)) small left v spared in
      (
        out,
        ap (λ m. m >>= λ x. publish x.0 x.1) run ∙ done,
        Publishes-same b b' out w.key written same
            (subst (λ j. Publishes b' out j written) key published),
      )
