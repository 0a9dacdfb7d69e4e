-- ===== src/Locker/Inner/Write/Pieces.antt =====
-- The pieces of a payload, and what the mutations of a chunked write leave in `chunks`.
use crossbank.Prelude.{
  ℕ, zero, suc, ◌+◌, ◌^◌, ◌≤◌, ◌<◌, ◌≡◌, refl, ap, sym, ◌∙◌, false, ◌&&◌, Option, some, List, [],
  ◌∷◌, ◌++◌, map, arith, if◌then◌else◌, length, ltb, drop, take-append-drop, length-drop,
  length-take, length-append, All, drop-append_of_length, Bool-cases, inl, inr,
}
use mathlib.Core.List.{flatten, append-nil, append_assoc}
use crossbank.Error.{ok, ◌>>=◌, >>=-eq-ok, ok-inj}
use crossbank.Bytes.{Bytes, bytes_eq, bytes_eq_iff, bytes_eq_refl}
use crossbank.Bytes.Number.{to_be, to_be-inj, length-to_be}
use crossbank.Backend.Api.{Table, chunks, Op, put}
use crossbank.Backend.Memory.Refines.{same_table, effects}
use crossbank.Codec.Chain.{FilterChain, seal_slice, unseal}
use crossbank.Locker.Chunk.{ChunkPointer, chunk_key}
use crossbank.Locker.Inner.Read.{seq_range, append_piece, append_pieces}
use crossbank.Locker.Inner.Write.{pieces_of, next_seq, piece_ops}

-- The pieces joined are the payload.
pub flatten-pieces_of :
    (fuel n : ℕ) (payload : Bytes)
    → 0 < n
    → length payload ≤ fuel
    → flatten (pieces_of fuel n payload) ≡ payload
unfolding pieces_of flatten
flatten-pieces_of zero n [] pos h = refl
flatten-pieces_of zero n (b ∷ bs) pos h = absurd (omega arith)
flatten-pieces_of (suc fuel) n [] pos h = refl
flatten-pieces_of (suc fuel) n (b ∷ bs) pos h =
    let rest : length (drop n (b ∷ bs)) ≤ fuel = omega (arith, length-drop n (b ∷ bs)) in
    rw (flatten-pieces_of fuel n (drop n (b ∷ bs)) pos rest) (take-append-drop n (b ∷ bs))

-- No piece is empty, and none is longer than the chunk size.
pieces_of-bounded :
    (fuel n : ℕ) (payload : Bytes)
    → 0 < n
    → All (λ p. (0 < length p) × (length p ≤ n)) (pieces_of fuel n payload)
unfolding pieces_of
pieces_of-bounded zero n payload pos = tt
pieces_of-bounded (suc fuel) n [] pos = tt
pieces_of-bounded (suc fuel) n (b ∷ bs) pos = (
  (omega (arith, length-take n (b ∷ bs)), omega (arith, length-take n (b ∷ bs))),
  pieces_of-bounded fuel n (drop n (b ∷ bs)) pos,
)

-- No piece is longer than the payload.
pub pieces_of-within :
    (fuel n m : ℕ) (payload : Bytes)
    → length payload ≤ m
    → All (λ p. length p ≤ m) (pieces_of fuel n payload)
unfolding pieces_of
pieces_of-within zero n m payload h = tt
pieces_of-within (suc fuel) n m [] h = tt
pieces_of-within (suc fuel) n m (b ∷ bs) h = (
  omega (arith, length-take n (b ∷ bs)),
  pieces_of-within fuel n m (drop n (b ∷ bs)) (omega (arith, length-drop n (b ∷ bs))),
)

pub length-pieces_of :
    (fuel n : ℕ) (payload : Bytes) → 0 < n → length (pieces_of fuel n payload) ≤ length payload
unfolding pieces_of
length-pieces_of zero n payload pos = omega arith
length-pieces_of (suc fuel) n [] pos = omega arith
length-pieces_of (suc fuel) n (b ∷ bs) pos =
    omega (arith, length-pieces_of fuel n (drop n (b ∷ bs)) pos, length-drop n (b ∷ bs))

-- Two pieces of one value have different keys.
chunk_key-inj : (id s t : ℕ) → s < 256 ^ 4 → t < 256 ^ 4 → chunk_key id s ≡ chunk_key id t → s ≡ t
chunk_key-inj id s t hs ht e =
    to_be-inj 4 s t hs ht (sym (tail_of id s) ∙ ap (drop 8) e ∙ tail_of id t)
  where
    tail_of : (id s : ℕ) → drop 8 (chunk_key id s) ≡ to_be 4 s
    tail_of id s =
        unfold chunk_key in drop-append_of_length 8 (to_be 8 id) (to_be 4 s) (length-to_be 8 id)

pub chunk_key-ne :
    (id s t : ℕ) → s < t → t < 256 ^ 4 → bytes_eq (chunk_key id t) (chunk_key id s) ≡ false
chunk_key-ne id s t h k = elim (Bool-cases (bytes_eq (chunk_key id t) (chunk_key id s))) [
  | inl e ↦
      let same : t ≡ s = chunk_key-inj id t s k (omega arith) ((bytes_eq_iff _ _).0 e) in
      absurd (omega arith)
  | inr n ↦ n
]

next_seq_lem : (seq next : ℕ) → next_seq seq ≡ ok next → (next ≡ seq + 1) × (seq + 1 < 2 ^ 32)
unfolding next_seq
next_seq_lem seq next h = elim (Bool-cases (ltb (seq + 1) (2 ^ 32))) [
  | inl e ↦ (ground arith, ground arith)
  | inr n ↦ absurd (ground arith)
]

-- What a successful round of the loop over the pieces consists of.
record Round (c : FilterChain) (id seq : ℕ) (piece : Bytes) (rest : List Bytes) (ops : List Op)
    (last : ℕ) : Type 0 where
  sealed : Bytes
  later : List Op
  is_sealed : seal_slice c piece ≡ ok sealed
  fits : seq + 1 < 2 ^ 32
  is_rest : piece_ops c id (seq + 1) rest ≡ ok (later, last)
  is_ops : ops ≡ put chunks (chunk_key id seq) sealed ∷ later

piece_ops-Round :
    (c : FilterChain) (id seq : ℕ) (piece : Bytes) (rest : List Bytes) (ops : List Op) (last : ℕ)
    → piece_ops c id seq (piece ∷ rest) ≡ ok (ops, last)
    → Round c id seq piece rest ops last
unfolding piece_ops
piece_ops-Round c id seq piece rest ops last h =
    let (sealed, s, h1) = >>=-eq-ok (seal_slice c piece) _ {y = (ops, last)} h in
    let (next, n, h2) = >>=-eq-ok (next_seq seq) _ {y = (ops, last)} h1 in
    let (more, r, h3) = >>=-eq-ok (piece_ops c id next rest) _ {y = (ops, last)} h2 in
    let (step, fits) = next_seq_lem seq next n in
    let e = ok-inj h3 in
    record {
      sealed = sealed;
      later = more.0;
      is_sealed = s;
      fits = fits;
      is_rest =
          ap (λ n. piece_ops c id n rest) (sym step)
          ∙ r
          ∙ ap (λ m. ok (more.0, m)) (ap (λ w. w.1) e);
      is_ops = sym (ap (λ w. w.0) e);
    }

pub length-piece_ops :
    (c : FilterChain) (id seq : ℕ) (parts : List Bytes) (ops : List Op) (last : ℕ)
    → piece_ops c id seq parts ≡ ok (ops, last)
    → last ≡ seq + length parts
unfolding piece_ops
length-piece_ops c id seq [] ops last h = omega (arith, ap (λ w. w.1) (ok-inj h))
length-piece_ops c id seq (piece ∷ rest) ops last h =
    let r = piece_ops-Round c id seq piece rest ops last h in
    omega (arith, length-piece_ops c id (seq + 1) rest r.later last r.is_rest)

-- The numbers that are given out fit a `u32`.
pub piece_ops-fits :
    (c : FilterChain) (id seq : ℕ) (parts : List Bytes) (ops : List Op) (last : ℕ)
    → seq < 2 ^ 32
    → piece_ops c id seq parts ≡ ok (ops, last)
    → last < 2 ^ 32
unfolding piece_ops
piece_ops-fits c id seq [] ops last small h = omega (arith, ap (λ w. w.1) (ok-inj h))
piece_ops-fits c id seq (piece ∷ rest) ops last small h =
    let r = piece_ops-Round c id seq piece rest ops last h in
    piece_ops-fits c id (seq + 1) rest r.later last r.fits r.is_rest

-- The other tables keep what they hold.
pub piece_ops-elsewhere :
    (c : FilterChain) (id seq : ℕ) (parts : List Bytes) (ops : List Op) (last : ℕ) (t : Table)
    (k : Bytes) (old : Option Bytes)
    → same_table chunks t ≡ false
    → piece_ops c id seq parts ≡ ok (ops, last)
    → effects ops t k old ≡ old
unfolding piece_ops
piece_ops-elsewhere c id seq [] ops last t k old other h =
    ap (λ o. effects o t k old) (sym (ap (λ w. w.0) (ok-inj h)))
piece_ops-elsewhere c id seq (piece ∷ rest) ops last t k old other h =
    let r = piece_ops-Round c id seq piece rest ops last h in
    ap (λ o. effects o t k old) r.is_ops
    ∙ ap
        (λ e.
          effects r.later t k (if e && bytes_eq (chunk_key id seq) k then some r.sealed else old))
        other
    ∙ piece_ops-elsewhere c id (seq + 1) rest r.later last t k old other r.is_rest

-- Pieces that come before the first one written are untouched.
piece_ops-earlier :
    (c : FilterChain) (id seq : ℕ) (parts : List Bytes) (ops : List Op) (last s : ℕ)
    (old : Option Bytes)
    → s < seq
    → piece_ops c id seq parts ≡ ok (ops, last)
    → effects ops chunks (chunk_key id s) old ≡ old
unfolding piece_ops
piece_ops-earlier c id seq [] ops last s old lt h =
    ap (λ o. effects o chunks (chunk_key id s) old) (sym (ap (λ w. w.0) (ok-inj h)))
piece_ops-earlier c id seq (piece ∷ rest) ops last s old lt h =
    let r = piece_ops-Round c id seq piece rest ops last h in
    ap (λ o. effects o chunks (chunk_key id s) old) r.is_ops
    ∙ ap (λ e. effects r.later chunks (chunk_key id s) (if e then some r.sealed else old))
        (chunk_key-ne id s seq lt (omega (arith, r.fits)))
    ∙ piece_ops-earlier c id (seq + 1) rest r.later last s old (omega arith) r.is_rest

-- A sealed piece opens to the piece.
abbrev pub Opens : FilterChain → Bytes → Type 0
Opens c piece = (sealed : Bytes) → seal_slice c piece ≡ ok sealed → unseal c sealed ≡ ok piece

-- What the chunk table holds under the keys of the pieces, in their order, is the sealed pieces: a
-- read of them appends the pieces.
module _ (c : FilterChain) (p : ChunkPointer) where
  -- A piece that opens is appended, where the total allows it.
  pub append_piece_lem :
      (out piece sealed : Bytes)
      → unseal c sealed ≡ ok piece
      → length (out ++ piece) ≤ p.total_len
      → append_piece c p out sealed ≡ ok (out ++ piece)
  unfolding append_piece
  append_piece_lem out piece sealed opened fits = rw opened (ground arith)

  pub append_stored :
      (seq : ℕ) (out : Bytes) (parts : List Bytes) (ops : List Op) (last : ℕ)
      (old : ℕ → Option Bytes)
      → All (λ piece. Opens c piece) parts
      → length (out ++ flatten parts) ≤ p.total_len
      → piece_ops c p.value_id seq parts ≡ ok (ops, last)
      → append_pieces c p seq out (
          map
            (λ s. effects ops chunks (chunk_key p.value_id s) (old s))
            (seq_range seq (length parts)))
        ≡ ok (out ++ flatten parts)
  unfolding append_pieces seq_range flatten
  append_stored seq out [] ops last old opens fits h = ap ok (sym (append-nil out))
  append_stored seq out (piece ∷ rest) ops last old opens fits h =
      let r = piece_ops-Round c p.value_id seq piece rest ops last h in
      let key = chunk_key p.value_id in
      let old' : ℕ → Option Bytes =
        λ s. if bytes_eq (key seq) (key s) then some r.sealed else old s in
      let stored : List Op → ℕ → Option Bytes = λ o s. effects o chunks (key s) (old s) in
      let later : ℕ → Option Bytes = λ s. effects r.later chunks (key s) (old' s) in
      let now : later seq ≡ some r.sealed =
        piece_ops-earlier c p.value_id (seq + 1) rest r.later last seq (old' seq) (omega arith)
          r.is_rest
        ∙ rw (bytes_eq_refl (key seq)) refl in
      let whole : (out ++ piece) ++ flatten rest ≡ out ++ flatten (piece ∷ rest) =
        append_assoc out piece (flatten rest) in
      let total : length ((out ++ piece) ++ flatten rest) ≤ p.total_len = rw whole fits in
      ap (λ o. append_pieces c p seq out (map (stored o) (seq_range seq (suc (length rest)))))
        r.is_ops
      ∙ ap (λ v. append_pieces c p seq out (v ∷ map later (seq_range (seq + 1) (length rest)))) now
      ∙ ap
          (λ m. m >>= λ out'.
            append_pieces c p (seq + 1) out' (map later (seq_range (seq + 1) (length rest))))
          (append_piece_lem out piece r.sealed (opens.0 r.sealed r.is_sealed)
            (omega (arith, length-append (out ++ piece) (flatten rest))))
      ∙ append_stored (seq + 1) (out ++ piece) rest r.later last old' opens.1 total r.is_rest
      ∙ ap ok whole
