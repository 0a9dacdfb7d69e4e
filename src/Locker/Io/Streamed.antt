-- ===== src/Locker/Io/Streamed.antt =====
-- A value that is streamed, from the start of its writer to the end.
use crossbank.Prelude.{
  ℕ, zero, suc, ◌^◌, ◌≤◌, ◌<◌, ◌≡◌, refl, ap, sym, subst, ◌∙◌, false, none, some, List, [], ◌∷◌,
  ◌++◌, arith, length, leb, take, drop, length-append, Bool-cases, inl, inr,
}
use mathlib.Core.List.{append-nil, append_assoc, flatten}
use crossbank.Error.{Result, ok, err, panic, ◌>>=◌, >>=-eq-ok, ok-inj}
use crossbank.Bytes.{Bytes}
use crossbank.Backend.Api.{records}
use crossbank.Backend.Memory.{MemoryBackend}
use crossbank.Backend.Memory.Refines.{value_at}
use crossbank.Codec.Filters.{max_decoded_bytes}
use crossbank.Locker.Chunk.{ValueIds, allocate, counter_op, counter_op_for}
use crossbank.Locker.Inner.{Inner, encode_key}
use crossbank.Locker.Inner.Read.{append_pieces, seq_range}
use crossbank.Locker.Inner.Write.Effects.{commit-ok}
use crossbank.Locker.Io.{
  Writer, Published, start, start_from, commit_counter, flush_piece, flush_full, write_chunk,
  finish,
}
use crossbank.Locker.Io.Stream.{Seals, IsWriting, write_chunk-Continues}
use crossbank.Locker.Io.Garbage.{Spares}
use crossbank.Locker.Io.Finish.{flush_piece-records, Publishes, Publishes-same, finish-Publishes}

-- A caller that writes one chunk after the other.
unfoldable pub write_all :
    Inner → MemoryBackend → Writer → List Bytes → Result (MemoryBackend × Writer)
write_all i b w [] = ok (b, w)
write_all i b w (c ∷ cs) = do (b', w') ← write_chunk i b w c; write_all i b' w' cs

module _ (i : Inner) (seals : Seals i.chain) where
  abbrev SameRecords : MemoryBackend → MemoryBackend → Type 0
  SameRecords b b' = (k : Bytes) → value_at b'.tables records k ≡ value_at b.tables records k

  flush_full-records :
      (fuel : ℕ) (b b' : MemoryBackend) (w w' : Writer)
      → flush_full fuel i b w ≡ ok (b', w')
      → SameRecords b b'
  unfolding flush_full
  flush_full-records zero b b' w w' h k = absurd (ground arith)
  flush_full-records (suc fuel) b b' w w' h k =
      elim (Bool-cases (leb i.config.chunk_size (length w.buf))) [
        | inl more ↦
            let (x, run, h1) =
              >>=-eq-ok
                (flush_piece i b (record w { buf = drop i.config.chunk_size w.buf })
                  (take i.config.chunk_size w.buf))
                _ {y = (b', w')} (rw (more, flush_full) at h) in
            flush_full-records fuel x.0 b' x.1 w' h1 k
            ∙ flush_piece-records i seals b x.0 (record w { buf = drop i.config.chunk_size w.buf })
                x.1 (take i.config.chunk_size w.buf) k run
        | inr stop ↦
            ap (λ x. value_at x.0.tables records k) (sym (ok-inj (rw (stop, flush_full) at h)))
      ]

  write_chunk-records :
      (b b' : MemoryBackend) (w w' : Writer) (bytes : Bytes)
      → write_chunk i b w bytes ≡ ok (b', w')
      → SameRecords b b'
  unfolding write_chunk
  write_chunk-records b b' w w' bytes h = flush_full-records _ b b' _ w' h

  -- The counter lies in `meta`.
  counter-records :
      (b b' : MemoryBackend) (cursor : ValueIds)
      → b.is_closed ≡ false
      → commit_counter b (counter_op cursor) ≡ ok b'
      → (b'.is_closed ≡ false) × SameRecords b b'
  unfolding commit_counter counter_op counter_op_for
  counter-records b b' none opened h = (
    ap (λ m. m.is_closed) (sym (ok-inj h)) ∙ opened,
    λ k. ap (λ m. value_at m.tables records k) (sym (ok-inj h)),
  )
  counter-records b b' (some n) opened h =
      let (opened', at) = commit-ok b b' _ h in (opened', λ k. at records k)

  -- What a started writer is.
  abbrev Started : Bytes → MemoryBackend → MemoryBackend → Writer → Type 0
  Started key b b' w = IsWriting i seals b' w [] × SameRecords b b' × (w.key ≡ key)

  start_from-Started :
      (b b' : MemoryBackend) (key : Bytes) (answer : Result ℕ × ValueIds) (cursor' : ValueIds)
      (w : Writer)
      → start_from b key answer ≡ (ok (b', w), cursor')
      → b.is_closed ≡ false
      → Started key b b' w
  unfolding start_from append_pieces seq_range
  start_from-Started b b' key (panic, cursor) cursor' w h opened =
      absurd (ground (arith, ap (λ x. x.0) h))
  start_from-Started b b' key (err e, cursor) cursor' w h opened =
      absurd (ground (arith, ap (λ x. x.0) h))
  start_from-Started b b' key (ok id, cursor) cursor' w h opened =
      let (b1, c, h1) =
        >>=-eq-ok (commit_counter b (counter_op cursor)) _ {y = (b', w)} (ap (λ x. x.0) h) in
      let (opened', same) = counter-records b b1 cursor opened c in
      subst (λ x. IsWriting i seals x.0 x.1 [] × SameRecords b x.0 × (x.1.key ≡ key)) (ok-inj h1)
        (
          record {
            opened = opened';
            flushed = [];
            appends = λ p fits. refl;
            joined = refl;
            counted = omega arith;
            total = refl;
          },
          same,
          refl,
        )

  -- All chunks written, the writer stands for them one after the other.
  abbrev Written : MemoryBackend → Writer → Bytes → List Bytes → Type 0
  Written b w before cs =
      (b' : MemoryBackend) × (w' : Writer) × (write_all i b w cs ≡ ok (b', w'))
      × IsWriting i seals b' w' (before ++ flatten cs)
      × (w'.key ≡ w.key)
      × (w'.value_id ≡ w.value_id)
      × SameRecords b b'

  write_all-Written :
      (b : MemoryBackend) (w : Writer) (before : Bytes) (cs : List Bytes)
      → 0 < i.config.chunk_size
      → length (before ++ flatten cs) ≤ max_decoded_bytes
      → IsWriting i seals b w before
      → Written b w before cs
  unfolding write_all flatten
  write_all-Written b w before [] pos small v =
      (b, w, refl, subst (IsWriting i seals b w) (sym (append-nil before)) v, refl, refl, λ k. refl)
  write_all-Written b w before (c ∷ cs) pos small v =
      let assoc = append_assoc before c (flatten cs) in
      let whole : length ((before ++ c) ++ flatten cs) ≤ max_decoded_bytes =
        omega (arith, small, ap length assoc) in
      let (b1, w1, run, v1, key1, id1) =
        write_chunk-Continues i seals b w before c pos
          (omega (arith, whole, length-append (before ++ c) (flatten cs))) v in
      let (b2, w2, run2, v2, key2, id2, same2) =
        write_all-Written b1 w1 (before ++ c) cs pos whole v1 in
      (
        b2,
        w2,
        ap (λ m. m >>= λ x. write_all i x.0 x.1 cs) run ∙ run2,
        subst (IsWriting i seals b2 w2) assoc v2,
        key2 ∙ key1,
        id2 ∙ id1,
        λ k. same2 k ∙ write_chunk-records b b1 w w1 c run k,
      )

  -- The end of a streamed value.
  abbrev pub Ends : MemoryBackend → Writer → List Bytes → Bytes → Bytes → Type 0
  Ends b w cs key whole =
      (b' : MemoryBackend) × (w' : Writer) × (out : Published) × (write_all i b w cs ≡ ok (b', w'))
      × (finish i b' w' ≡ ok out)
      × Publishes i seals b out key whole

  pub start-Ends :
      (b b' : MemoryBackend) (key : Bytes) (cursor cursor' : ValueIds) (w : Writer)
      (cs : List Bytes)
      → b.is_closed ≡ false
      → 0 < i.config.chunk_size
      → start b key cursor ≡ (ok (b', w), cursor')
      → w.value_id < 256 ^ 8
      → Spares w.value_id (value_at b.tables records (encode_key i key))
      → length (flatten cs) ≤ max_decoded_bytes
      → Ends b' w cs key (flatten cs)
  unfolding start
  start-Ends b b' key cursor cursor' w cs opened pos started small_id spares small =
      let (v, same, named) =
        start_from-Started b b' key (allocate b cursor) cursor' w started opened in
      let (b1, w1, run, v1, key1, id1, same1) = write_all-Written b' w [] cs pos small v in
      let at : w1.key ≡ key = key1 ∙ named in
      let spared : Spares w1.value_id (value_at b1.tables records (encode_key i w1.key)) =
        rw (at, id1, same1 (encode_key i key), same (encode_key i key)) spares in
      let (out, done, published) =
        finish-Publishes i seals b1 w1 (flatten cs) (omega (arith, small_id, id1)) small v1
          spared in
      (
        b1,
        w1,
        out,
        run,
        done,
        Publishes-same i seals b' b1 out key (flatten cs) same1
            (subst (λ j. Publishes i seals b1 out j (flatten cs)) at published),
      )
