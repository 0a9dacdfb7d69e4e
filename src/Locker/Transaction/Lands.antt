-- ===== src/Locker/Transaction/Lands.antt =====
-- What the mutations of a write-set leave under each stored key.
use crossbank.Prelude.{
  ℕ, ◌≡◌, refl, ap, sym, ◌∙◌, true, false, Option, none, some, List, [], ◌∷◌, ◌++◌, arith,
  Bool-cases, inl, inr, length, ◌≤◌, ltb, ◌⊎◌, subst,
}
use mathlib.Core.List.{append_assoc}
use crossbank.Error.{Result, ok, err, panic, >>=-eq-ok, ok-inj}
use crossbank.Bytes.{Bytes, bytes_eq, bytes_eq_refl, bytes_eq-append}
use crossbank.Bytes.Number.{to_be}
use crossbank.Backend.Api.{records, Op}
use crossbank.Backend.Memory.{MemoryBackend}
use crossbank.Backend.Memory.Refines.{effects}
use crossbank.Key.{encode_bytes}
use crossbank.Codec.Chain.{seal, seal_slice}
use crossbank.Locker.Chunk.{
  ChunkPointer, encode, parse, is_pointer, gc_ops, flag_postcard, ValueIds, counter_op,
}
use crossbank.Locker.Inner.{needs_read, Inner, Prior, encode_key, fetch, stores_inline, delete_op}
use crossbank.Locker.Inner.Write.{
  gc_of, prior_ops, gc_if_parsed, delete_value_ops, put_payload_ops, to_list,
}
use crossbank.Locker.Inner.Write.Effects.{effects-append, effects-put, counter-elsewhere}
use crossbank.Locker.Inner.Write.Pieces.{piece_ops-elsewhere}
use crossbank.Locker.Inner.Write.Cases.{put_payload_ops-cases, chunked_ops-Laid}
use crossbank.Locker.Transaction.{TxMode, eager, lazy, eager_gc, eager_put_ops}

-- What a put of a payload may store: the sealed payload, where it fits; for a lazy locker also a
-- pointer to a value of its length.
abbrev pub Keeps : Inner → TxMode → Bytes → Bytes → Type 0
Keeps i eager payload raw =
    (seal_slice i.chain payload ≡ ok raw) × (length raw ≤ i.config.max_inline)
Keeps i lazy payload raw =
    ((stores_inline i (length payload) flag_postcard ≡ true) × (seal i.chain payload ≡ ok raw))
    ⊎ ((id : ℕ) × (n : ℕ) × (stores_inline i (length payload) flag_postcard ≡ false)
        × (raw
            ≡ encode (record {
              value_id = id;
              n_chunks = n;
              total_len = length payload;
              flags = flag_postcard;
            })))

-- The record under a key, as the view of the key says: untouched, gone, or what its payload stores.
abbrev pub Leaves : Inner → TxMode → Option (Option Bytes) → Option Bytes → Option Bytes → Type 0
Leaves i mode none old new = new ≡ old
Leaves i mode (some none) old new = new ≡ none
Leaves i mode (some (some payload)) old new =
    (raw : Bytes) × (new ≡ some raw) × Keeps i mode payload raw

-- Mutations that leave every record as it is.
abbrev pub Spares : List Op → Type 0
Spares ops = (k : Bytes) (old : Option Bytes) → effects ops records k old ≡ old

gc_of-Spares : (existing : Option Bytes) (gc : List Op) → gc_of existing ≡ ok gc → Spares gc
unfolding gc_of gc_ops
gc_of-Spares none gc h k old = ap (λ g. effects g records k old) (sym (ok-inj h))
gc_of-Spares (some raw) gc h k old = elim (Bool-cases (is_pointer raw)) [
  | inl e ↦
      let (p, _, h1) = >>=-eq-ok (parse raw) _ {y = gc} (rw e at h) in
      ap (λ g. effects g records k old) (sym (ok-inj h1))
  | inr e ↦ ap (λ g. effects g records k old) (sym (ok-inj (rw e at h)))
]

prior_ops-Spares :
    (i : Inner) (b : MemoryBackend) (key : Bytes) (prior : Prior) (gc : List Op)
    → prior_ops i b key prior ≡ ok gc
    → Spares gc
unfolding prior_ops
prior_ops-Spares i b key prior gc h = elim (Bool-cases (needs_read prior)) [
  | inl e ↦
      let (existing, _, h1) = >>=-eq-ok (fetch i b key) _ {y = gc} (rw e at h) in
      gc_of-Spares existing gc h1
  | inr e ↦ λ k old. ap (λ g. effects g records k old) (sym (ok-inj (rw e at h)))
]

eager_gc-Spares : (existing : Option Bytes) → Spares (eager_gc existing)
unfolding eager_gc gc_ops
eager_gc-Spares none k old = refl
eager_gc-Spares (some raw) k old = elim (Bool-cases (is_pointer raw)) [
  | inl e ↦ rw e (of_parsed (parse raw) k old)
  | inr e ↦ rw e refl
]
  where
    of_parsed : (r : Result ChunkPointer) → Spares (gc_if_parsed [] r)
    of_parsed (ok p) k old = refl
    of_parsed (err e) k old = refl
    of_parsed panic k old = refl

module _ (i : Inner) where
  pub bytes_eq-encode_key :
      (a b : Bytes) → bytes_eq (encode_key i a) (encode_key i b) ≡ bytes_eq a b
  unfolding encode_bytes
  bytes_eq-encode_key a b = bytes_eq-append (to_be 4 i.id) a b

  -- Mutations for one key: it is left as the view says, and every other record as it is.
  abbrev pub LandsAt : TxMode → Bytes → Option (Option Bytes) → List Op → Type 0
  LandsAt mode key view ops =
      ((old : Option Bytes) → Leaves i mode view old (effects ops records (encode_key i key) old))
      × ((k : Bytes) (old : Option Bytes)
          → bytes_eq (encode_key i key) k ≡ false
          → effects ops records k old ≡ old)

  -- A record that is put between mutations that spare the records.
  put-LandsAt :
      (mode : TxMode) (key payload raw : Bytes) (xs ys : List Op)
      → Spares xs
      → Spares ys
      → Keeps i mode payload raw
      → LandsAt mode key (some (some payload)) (xs ++ (Op.put records (encode_key i key) raw ∷ ys))
  put-LandsAt mode key payload raw xs ys before after keeps = (
    λ old. (
      raw,
      effects-put xs ys (encode_key i key) raw old (λ w. after (encode_key i key) w),
      keeps,
    ),
    λ k old other.
        effects-append xs (Op.put records (encode_key i key) raw ∷ ys) records k old
        ∙ after k _
        ∙ rw other (before k old),
  )

  pub delete-LandsAt :
      (b : MemoryBackend) (mode : TxMode) (key : Bytes) (prior : Prior) (ops : List Op)
      → delete_value_ops i b key prior ≡ ok ops
      → LandsAt mode key (some none) ops
  unfolding delete_value_ops delete_op
  delete-LandsAt b mode key prior ops h =
      let (gc, collected, h1) = >>=-eq-ok (prior_ops i b key prior) _ {y = ops} h in
      let spared = prior_ops-Spares i b key prior gc collected in
      subst (LandsAt mode key (some none)) (ok-inj h1) (
        λ old.
            effects-append gc (delete_op i key ∷ []) records (encode_key i key) old
            ∙ rw (bytes_eq_refl (encode_key i key)) refl,
        λ k old other.
            effects-append gc (delete_op i key ∷ []) records k old ∙ rw other (spared k old),
      )

  pub eager-LandsAt :
      (b : MemoryBackend) (key payload : Bytes) (ops : List Op)
      → eager_put_ops i b key payload ≡ ok ops
      → LandsAt eager key (some (some payload)) ops
  unfolding eager_put_ops
  eager-LandsAt b key payload ops h =
      let (sealed, s, h1) = >>=-eq-ok (seal_slice i.chain payload) _ {y = ops} h in
      elim (Bool-cases (ltb i.config.max_inline (length sealed))) [
        | inl over ↦ absurd (ground arith)
        | inr fits ↦
            let (existing, _, h2) = >>=-eq-ok (fetch i b key) _ {y = ops} (rw fits at h1) in
            subst (LandsAt eager key (some (some payload))) (ok-inj h2) (
              put-LandsAt eager key payload sealed (eager_gc existing) [] (eager_gc-Spares existing)
                (λ k old. refl) (s, ground arith))
      ]

  pub lazy-LandsAt :
      (b : MemoryBackend) (key payload : Bytes) (prior : Prior) (cursor cursor' : ValueIds)
      (ops : List Op)
      → put_payload_ops i b key payload flag_postcard prior cursor ≡ (ok ops, cursor')
      → LandsAt lazy key (some (some payload)) ops
  lazy-LandsAt b key payload prior cursor cursor' ops h =
      let (gc, collected, ways) =
        put_payload_ops-cases i b key payload flag_postcard prior cursor cursor' ops h in
      let spared = prior_ops-Spares i b key prior gc collected in
      elim ways [
        | inl w ↦ subst (LandsAt lazy key (some (some payload))) (sym w.is_ops) (
            put-LandsAt lazy key payload w.sealed gc [] spared (λ k old. refl)
              (inl (w.fits, w.is_sealed)))
        | inr w ↦
            let l =
              chunked_ops-Laid i key payload flag_postcard gc ops cursor' w.value_id w.is_ops in
            let pieces : Spares l.writes = λ k old.
              piece_ops-elsewhere i.chain w.value_id 0 _ l.writes l.n_chunks records k old refl
                l.is_writes in
            subst (LandsAt lazy key (some (some payload)))
              (append_assoc gc l.writes _ ∙ sym l.is_ops)
              (put-LandsAt lazy key payload _ (gc ++ l.writes) (to_list (counter_op cursor'))
                (λ k old. effects-append gc l.writes records k old ∙ pieces k _ ∙ spared k old)
                (λ k old. (counter-elsewhere cursor' k old).0)
                (inr (w.value_id, l.n_chunks, w.overflows, refl)))
      ]
