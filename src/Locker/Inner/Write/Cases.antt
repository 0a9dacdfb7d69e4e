-- ===== src/Locker/Inner/Write/Cases.antt =====
-- The ways `put_payload_ops` succeeds, and what its mutations are in each.
use crossbank.Prelude.{
  ℕ, ◌<◌, ◌≡◌, refl, ap, sym, ◌∙◌, true, false, List, [], ◌∷◌, ◌++◌, arith, length, ◌==◌,
  Bool-cases, inl, inr, ◌⊎◌,
}
use crossbank.Error.{Result, ok, err, panic, >>=-eq-ok, ok-inj}
use crossbank.Bytes.{Bytes}
use crossbank.Backend.Api.{records, Op, put}
use crossbank.Backend.Memory.{MemoryBackend}
use crossbank.Codec.Chain.{seal}
use crossbank.Locker.Chunk.{encode, ValueIds, allocate, counter_op}
use crossbank.Locker.Inner.{Inner, Prior, encode_key, stores_inline}
use crossbank.Locker.Inner.Write.{
  prior_ops, pieces_of, pieces, piece_ops, to_list, chunked_ops, after_allocate, put_after_prior,
  put_payload_ops,
}

-- The two ways a put succeeds.
pub record Inlined (i : Inner) (key payload : Bytes) (flags : ℕ) (gc ops : List Op) : Type 0 where
  pub fits : stores_inline i (length payload) flags ≡ true
  pub sealed : Bytes
  pub is_sealed : seal i.chain payload ≡ ok sealed
  pub is_ops : ops ≡ gc ++ (put records (encode_key i key) sealed ∷ [])

pub record Chunked (i : Inner) (b : MemoryBackend) (key payload : Bytes) (flags : ℕ)
    (gc ops : List Op) (cursor cursor' : ValueIds) : Type 0 where
  pub overflows : stores_inline i (length payload) flags ≡ false
  pub value_id : ℕ
  pub is_id : allocate b cursor ≡ (ok value_id, cursor')
  pub is_ops : chunked_ops i key payload flags gc cursor' value_id ≡ ok ops

after_allocate-ok :
    (i : Inner) (b : MemoryBackend) (key payload : Bytes) (flags : ℕ) (gc ops : List Op)
    (w : Result ℕ × ValueIds) (cursor' : ValueIds)
    → after_allocate i key payload flags gc w ≡ (ok ops, cursor')
    → (id : ℕ) × (w ≡ (ok id, cursor')) × (chunked_ops i key payload flags gc cursor' id ≡ ok ops)
unfolding after_allocate
after_allocate-ok i b key payload flags gc ops (ok id, c) cursor' h =
    let e : c ≡ cursor' = ap (λ w. w.1) h in
    (
      id,
      ap (λ c. (ok id, c)) e,
      ap (λ c. chunked_ops i key payload flags gc c id) (sym e) ∙ ap (λ w. w.0) h,
    )
after_allocate-ok i b key payload flags gc ops (err e, c) cursor' h =
    absurd (ground (arith, ap (λ w. w.0) h))
after_allocate-ok i b key payload flags gc ops (panic, c) cursor' h =
    absurd (ground (arith, ap (λ w. w.0) h))

put_after_prior-cases :
    (i : Inner) (b : MemoryBackend) (key payload : Bytes) (flags : ℕ) (cursor cursor' : ValueIds)
    (g : Result (List Op)) (ops : List Op)
    → put_after_prior i b key payload flags cursor g ≡ (ok ops, cursor')
    → (gc : List Op) × (g ≡ ok gc)
      × (Inlined i key payload flags gc ops ⊎ Chunked i b key payload flags gc ops cursor cursor')
unfolding put_after_prior
put_after_prior-cases i b key payload flags cursor cursor' (ok gc) ops h = (
  gc,
  refl,
  elim (Bool-cases (stores_inline i (length payload) flags)) [
    | inl e ↦
        let run = ap (λ w. w.0) (rw e at h) in
        let (sealed, s, o) = >>=-eq-ok (seal i.chain payload) _ {y = ops} run in
        inl (record { fits = e; sealed = sealed; is_sealed = s; is_ops = sym (ok-inj o) })
    | inr n ↦
        let (id, a, o) =
          after_allocate-ok i b key payload flags gc ops (allocate b cursor) cursor' (rw n at h) in
        inr (record { overflows = n; value_id = id; is_id = a; is_ops = o })
  ],
)
put_after_prior-cases i b key payload flags cursor cursor' (err e) ops h =
    absurd (ground (arith, ap (λ w. w.0) h))
put_after_prior-cases i b key payload flags cursor cursor' panic ops h =
    absurd (ground (arith, ap (λ w. w.0) h))

pub put_payload_ops-cases :
    (i : Inner) (b : MemoryBackend) (key payload : Bytes) (flags : ℕ) (prior : Prior)
    (cursor cursor' : ValueIds) (ops : List Op)
    → put_payload_ops i b key payload flags prior cursor ≡ (ok ops, cursor')
    → (gc : List Op) × (prior_ops i b key prior ≡ ok gc)
      × (Inlined i key payload flags gc ops ⊎ Chunked i b key payload flags gc ops cursor cursor')
unfolding put_payload_ops
put_payload_ops-cases i b key payload flags prior cursor cursor' ops h =
    put_after_prior-cases i b key payload flags cursor cursor' (prior_ops i b key prior) ops h

-- The parts of a chunked write.
pub record Laid (i : Inner) (key payload : Bytes) (flags : ℕ) (gc ops : List Op) (cursor : ValueIds)
    (id : ℕ) : Type 0 where
  pub n_chunks : ℕ
  pub writes : List Op
  pub positive : 0 < i.config.chunk_size
  pub is_writes :
      piece_ops i.chain id 0 (pieces_of (length payload) i.config.chunk_size payload)
      ≡ ok (writes, n_chunks)
  pub is_ops :
      ops
      ≡ gc
        ++ (writes
            ++ (put records (encode_key i key) (
                  encode (record {
                    value_id = id;
                    n_chunks = n_chunks;
                    total_len = length payload;
                    flags = flags;
                  }))
                ∷ to_list (counter_op cursor)))

pub chunked_ops-Laid :
    (i : Inner) (key payload : Bytes) (flags : ℕ) (gc ops : List Op) (cursor : ValueIds) (id : ℕ)
    → chunked_ops i key payload flags gc cursor id ≡ ok ops
    → Laid i key payload flags gc ops cursor id
unfolding chunked_ops pieces
chunked_ops-Laid i key payload flags gc ops cursor id h =
    elim (Bool-cases (i.config.chunk_size == 0)) [
      | inl z ↦ absurd (ground arith)
      | inr n ↦
          let (w, r, o) =
            >>=-eq-ok
              (piece_ops i.chain id 0 (pieces_of (length payload) i.config.chunk_size payload)) _
              {y = ops} (rw n at h) in
          record {
            n_chunks = w.1;
            writes = w.0;
            positive = ground arith;
            is_writes = r;
            is_ops = sym (ok-inj o);
          }
    ]
