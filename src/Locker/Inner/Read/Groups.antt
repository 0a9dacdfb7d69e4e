-- ===== src/Locker/Inner/Read/Groups.antt =====
-- Fetching the pieces group by group reads what fetching them one by one would.
use crossbank.Prelude.{
  ℕ, zero, suc, ◌+◌, ◌-◌, ◌≤◌, min, ◌≡◌, refl, ap, sym, ◌∙◌, true, false, Option, none, some, List,
  [], ◌∷◌, ◌++◌, map, arith, length, ltb, Bool-cases, inl, inr, length-map,
}
use mathlib.Core.List.{map-append}
use crossbank.Error.{Result, ok, ◌>>=◌, >>=_assoc, >>=-cong}
use crossbank.Bytes.{Bytes}
use crossbank.Backend.Api.{chunks}
use crossbank.Backend.Memory.{MemoryBackend}
use crossbank.Backend.Memory.Opened.{get_many_open}
use crossbank.Backend.Memory.Refines.{value_at}
use crossbank.Codec.Chain.{FilterChain}
use crossbank.Locker.Chunk.{ChunkPointer, chunk_key}
use crossbank.Locker.Inner.{Inner}
use crossbank.Locker.Inner.Read.{
  chunk_fetch_group, seq_range, group_keys, append_piece, append_pieces, read_groups, check_total,
  read_chunks,
}

length-seq_range : (seq n : ℕ) → length (seq_range seq n) ≡ n
unfolding seq_range
length-seq_range seq zero = refl
length-seq_range seq (suc n) = ap suc (length-seq_range (seq + 1) n)

seq_range-cons : (seq n : ℕ) → seq_range seq (suc n) ≡ seq ∷ seq_range (seq + 1) n
unfolding seq_range
seq_range-cons seq n = refl

pub seq_range-add : (seq m n : ℕ) → seq_range seq (m + n) ≡ seq_range seq m ++ seq_range (seq + m) n
seq_range-add seq zero n =
    ap (seq_range seq) {x = 0 + n} (omega arith)
    ∙ ap (λ s. seq_range s n) {x = seq} {y = seq + 0} (omega arith)
    ∙ unfold seq_range in refl
seq_range-add seq (suc m) n =
    ap (seq_range seq) {x = suc m + n} {y = suc (m + n)} (omega arith)
    ∙ seq_range-cons seq (m + n)
    ∙ ap (◌∷◌ seq) (
        seq_range-add (seq + 1) m n
        ∙ ap (λ s. seq_range (seq + 1) m ++ seq_range s n) {x = seq + 1 + m} {y = seq + suc m}
            (omega arith))
    ∙ ap (λ t. t ++ seq_range (seq + suc m) n) (sym (seq_range-cons seq m))

module _ (c : FilterChain) (p : ChunkPointer) where
  pub append_pieces-append :
      (seq : ℕ) (out : Bytes) (xs ys : List (Option Bytes))
      → append_pieces c p seq out (xs ++ ys)
        ≡ (append_pieces c p seq out xs >>= λ out'. append_pieces c p (seq + length xs) out' ys)
  unfolding append_pieces
  append_pieces-append seq out [] ys =
      ap (λ s. append_pieces c p s out ys) {x = seq} {y = seq + 0} (omega arith)
  append_pieces-append seq out (none ∷ xs) ys = refl
  append_pieces-append seq out (some v ∷ xs) ys =
      >>=-cong (append_piece c p out v) _ _ (λ out'.
        append_pieces-append (seq + 1) out' xs ys
        ∙ ap (λ s. append_pieces c p (seq + 1) out' xs >>= λ out''. append_pieces c p s out'' ys)
            {x = seq + 1 + length xs} {y = seq + suc (length xs)} (omega arith))
      ∙ >>=_assoc (append_piece c p out v) (λ out'. append_pieces c p (seq + 1) out' xs)
          (λ out''. append_pieces c p (seq + suc (length xs)) out'' ys)

  module _ (b : MemoryBackend) (opened : b.is_closed ≡ false) where
    -- The pieces that are stored for `n` numbers from `seq` on.
    abbrev stored_pieces : ℕ → ℕ → List (Option Bytes)
    stored_pieces seq n = map (λ k. value_at b.tables chunks k) (group_keys p seq n)

    -- What a round does with the pieces that came back.
    abbrev fetched : ℕ → ℕ → Bytes → List (Option Bytes) → Result Bytes
    fetched rounds seq out sealed = do
      out' ← append_pieces c p seq out sealed
      read_groups rounds c b p (min (seq + chunk_fetch_group) p.n_chunks) out'

    length-stored_pieces : (seq n : ℕ) → length (stored_pieces seq n) ≡ n
    unfolding group_keys
    length-stored_pieces seq n =
        length-map (λ k. value_at b.tables chunks k) (group_keys p seq n)
        ∙ length-map (λ s. chunk_key p.value_id s) (seq_range seq n)
        ∙ length-seq_range seq n

    stored_pieces-add :
        (seq m n : ℕ) → stored_pieces seq (m + n) ≡ stored_pieces seq m ++ stored_pieces (seq + m) n
    unfolding group_keys
    stored_pieces-add seq m n =
        rw
          (
            seq_range-add seq m n,
            map-append (λ s. chunk_key p.value_id s) (seq_range seq m) (seq_range (seq + m) n),
          )
          (map-append (λ k. value_at b.tables chunks k) _ _)

    -- One group, then the rest, is the whole.
    group_step :
        (seq m n : ℕ) (out : Bytes)
        → append_pieces c p seq out (stored_pieces seq (m + n)) ≡ (
            append_pieces c p seq out (stored_pieces seq m) >>= λ out'.
            append_pieces c p (seq + m) out' (stored_pieces (seq + m) n))
    group_step seq m n out =
        ap (append_pieces c p seq out) (stored_pieces-add seq m n)
        ∙ append_pieces-append seq out (stored_pieces seq m) (stored_pieces (seq + m) n)
        ∙ ap
            (λ k. append_pieces c p seq out (stored_pieces seq m) >>= λ out'.
              append_pieces c p (seq + k) out' (stored_pieces (seq + m) n))
            (length-stored_pieces seq m)

    round :
        (rounds seq : ℕ) (out : Bytes)
        → ltb seq p.n_chunks ≡ true
        → read_groups (suc rounds) c b p seq out ≡ (
            append_pieces c p seq out
              (stored_pieces seq (min (seq + chunk_fetch_group) p.n_chunks - seq))
            >>= λ out'. read_groups rounds c b p (min (seq + chunk_fetch_group) p.n_chunks) out')
    unfolding read_groups
    round rounds seq out more =
        rw (more, read_groups)
          (ap (λ m. m >>= fetched rounds seq out)
            (get_many_open b opened chunks
              (group_keys p seq (min (seq + chunk_fetch_group) p.n_chunks - seq))))

    ended :
        (rounds seq : ℕ) (out : Bytes)
        → ltb seq p.n_chunks ≡ false
        → read_groups rounds c b p seq out ≡ ok out
    unfolding read_groups
    ended zero seq out stop = rw stop refl
    ended (suc rounds) seq out stop = rw (stop, read_groups) refl

    nothing_left :
        (seq n : ℕ) (out : Bytes) → n ≡ 0 → append_pieces c p seq out (stored_pieces seq n) ≡ ok out
    unfolding append_pieces group_keys
    nothing_left seq n out h = rw h refl

    read_groups_lem :
        (rounds seq : ℕ) (out : Bytes)
        → seq ≤ p.n_chunks
        → p.n_chunks - seq ≤ rounds
        → read_groups rounds c b p seq out
          ≡ append_pieces c p seq out (stored_pieces seq (p.n_chunks - seq))
    read_groups_lem zero seq out h r =
        ended zero seq out (ground arith)
        ∙ sym (nothing_left seq (p.n_chunks - seq) out (omega arith))
    read_groups_lem (suc rounds) seq out h r = elim (Bool-cases (ltb seq p.n_chunks)) [
      | inl more ↦
          let upto = min (seq + chunk_fetch_group) p.n_chunks in
          let m = upto - seq in
          let n = p.n_chunks - upto in
          let left : m + n ≡ p.n_chunks - seq = ground arith in
          let next : seq + m ≡ upto = ground arith in
          round rounds seq out more
          ∙ >>=-cong (append_pieces c p seq out (stored_pieces seq m)) _ _
              (λ out'. read_groups_lem rounds upto out' (omega arith) (ground arith))
          ∙ ap
              (λ k. append_pieces c p seq out (stored_pieces seq m) >>= λ out'.
                append_pieces c p k out' (stored_pieces k n))
              (sym next)
          ∙ sym (group_step seq m n out)
          ∙ ap (λ k. append_pieces c p seq out (stored_pieces seq k)) left
      | inr stop ↦
          ended (suc rounds) seq out stop
          ∙ sym (nothing_left seq (p.n_chunks - seq) out (ground arith))
    ]

-- On an open backend the whole-value read, in groups of 64 pieces, gives what appending the stored
-- pieces one by one gives, with the same errors, and then tests the total length. It always ends.
pub read_chunks-append_pieces :
    (i : Inner) (b : MemoryBackend) (p : ChunkPointer)
    → b.is_closed ≡ false
    → read_chunks i b p ≡ (
        append_pieces i.chain p 0 []
          (map (λ k. value_at b.tables chunks k) (group_keys p 0 p.n_chunks))
        >>= check_total p)
unfolding read_chunks
read_chunks-append_pieces i b p opened =
    ap (λ m. m >>= check_total p)
      (read_groups_lem i.chain p b opened p.n_chunks 0 [] (omega arith) (omega arith)
        ∙ ap (λ n. append_pieces i.chain p 0 [] (stored_pieces i.chain p b opened 0 n))
            {x = p.n_chunks - 0} (omega arith))
