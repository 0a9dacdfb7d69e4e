-- ===== src/Locker/Io/Stream.antt =====
-- What a writer streams in pieces is read back whole.
use crossbank.Prelude.{
  ℕ, zero, suc, ◌+◌, ◌%◌, ◌^◌, ◌≤◌, ◌<◌, ◌≡◌, refl, ap, sym, subst, ◌∙◌, false, Option, some, [],
  ◌∷◌, ◌++◌, map, arith, length, leb, take, drop, take-append-drop, length-append, length-take,
  length-drop, Bool-cases, inl, inr,
}
use mathlib.Core.List.{map-append, append_assoc}
use crossbank.Error.{Result, ok, ◌>>=◌}
use crossbank.Bytes.{Bytes, bytes_eq_refl}
use crossbank.Backend.Api.{chunks, put}
use crossbank.Backend.Memory.{MemoryBackend, commit, apply_all}
use crossbank.Backend.Memory.Opened.{commit_open}
use crossbank.Backend.Memory.Refines.{value_at}
use crossbank.Codec.Filters.{max_decoded_bytes, lz4, lz4_forward, crc32, crc32_forward_owned}
use crossbank.Codec.Compression.{Compresses, unseal-seal_default}
use crossbank.Codec.Chain.{FilterChain, seal_slice, seal, forward_all, unseal, default_chain}
use crossbank.Locker.Chunk.{ChunkPointer, chunk_key}
use crossbank.Locker.Inner.{Inner}
use crossbank.Locker.Inner.Read.{append_pieces, seq_range}
use crossbank.Locker.Inner.Read.Groups.{append_pieces-append, seq_range-add}
use crossbank.Locker.Inner.Write.Pieces.{chunk_key-ne, append_piece_lem}
use crossbank.Locker.Inner.Write.Effects.{commit-ok}
use crossbank.Locker.Io.{Writer, flush_piece, flush_full, write_chunk}

-- Functions that agree on a run of numbers map it alike.
map-seq_range :
    {A : Type 0} (f g : ℕ → A) (seq n : ℕ)
    → ((s : ℕ) → s < seq + n → f s ≡ g s)
    → map f (seq_range seq n) ≡ map g (seq_range seq n)
unfolding seq_range
map-seq_range f g seq zero h = refl
map-seq_range f g seq (suc n) h =
    rw (h seq (omega arith), map-seq_range f g (seq + 1) n (λ s l. h s (omega arith))) refl

abbrev stored_at : MemoryBackend → ℕ → ℕ → Option Bytes
stored_at b id s = value_at b.tables chunks (chunk_key id s)

-- A chain that seals every piece of at most 256 MiB and opens what it sealed.
abbrev pub Seals : FilterChain → Type 0
Seals c =
    (piece : Bytes)
    → length piece ≤ max_decoded_bytes
    → (sealed : Bytes) × (seal_slice c piece ≡ ok sealed) × (unseal c sealed ≡ ok piece)

-- The default chain is one, where the compression restores what it compressed.
pub default_chain-Seals :
    (hash : Bytes → ℕ) (compress : Bytes → Bytes) (decompress : Bytes → Option Bytes)
    → ((x : Bytes) → hash x < 256 ^ 4)
    → ((x : Bytes) → length x ≤ max_decoded_bytes → Compresses compress decompress x)
    → Seals (default_chain hash compress decompress)
unfolding seal_slice seal forward_all lz4 lz4_forward crc32 crc32_forward_owned
default_chain-Seals hash compress decompress small c piece fits =
    let run : seal (default_chain hash compress decompress) piece ≡ ok _ = refl in
    (_, run, unseal-seal_default compress decompress hash piece _ small (c piece fits) fits run)

module _ (i : Inner) (seals : Seals i.chain) where
  -- The pieces that are stored for a value append to `out`, under any pointer that allows for them.
  abbrev Appends : MemoryBackend → ℕ → ℕ → Bytes → Type 0
  Appends b id seq out =
      (p : ChunkPointer)
      → length out ≤ p.total_len
      → append_pieces i.chain p 0 [] (map (stored_at b id) (seq_range 0 seq)) ≡ ok out

  -- One more piece.
  Appends-more :
      (b b' : MemoryBackend) (id seq : ℕ) (out piece sealed : Bytes)
      → seq < 2 ^ 32
      → unseal i.chain sealed ≡ ok piece
      → commit b (put chunks (chunk_key id seq) sealed ∷ []) ≡ ok b'
      → Appends b id seq out
      → Appends b' id (seq + 1) (out ++ piece)
  unfolding append_pieces seq_range
  Appends-more b b' id seq out piece sealed small s c held p fits =
      let at = (commit-ok b b' (put chunks (chunk_key id seq) sealed ∷ []) c).1 in
      let now : stored_at b' id seq ≡ some sealed =
        at chunks (chunk_key id seq) ∙ rw (bytes_eq_refl (chunk_key id seq)) refl in
      let before : (t : ℕ) → t < 0 + seq → stored_at b' id t ≡ stored_at b id t = λ t l.
        at chunks (chunk_key id t) ∙ rw (chunk_key-ne id t seq (omega arith) (omega arith)) refl in
      let split : map (stored_at b' id) (seq_range 0 (seq + 1))
          ≡ map (stored_at b id) (seq_range 0 seq) ++ some sealed ∷ [] =
        ap (map (stored_at b' id)) (seq_range-add 0 seq 1)
        ∙ map-append (stored_at b' id) (seq_range 0 seq) (seq_range (0 + seq) 1)
        ∙ ap (λ xs. xs ++ stored_at b' id (0 + seq) ∷ [])
            (map-seq_range (stored_at b' id) (stored_at b id) 0 seq before)
        ∙ ap (λ x. map (stored_at b id) (seq_range 0 seq) ++ x ∷ [])
            (ap (stored_at b' id) {x = 0 + seq} {y = seq} (omega arith) ∙ now) in
      ap (append_pieces i.chain p 0 []) split
      ∙ append_pieces-append i.chain p 0 [] (map (stored_at b id) (seq_range 0 seq))
          (some sealed ∷ [])
      ∙ ap
          (λ m. m >>= λ o.
            append_pieces i.chain p (0 + length (map (stored_at b id) (seq_range 0 seq))) o
              (some sealed ∷ []))
          (held p (omega (arith, length-append out piece)))
      ∙ ap (λ m. m >>= λ o. ok o) (append_piece_lem i.chain p out piece sealed s fits)

  -- A writer part of the way: what it flushed and what it buffers are what was written to it, and each
  -- piece that it flushed holds a byte at least.
  pub record IsWriting (b : MemoryBackend) (w : Writer) (written : Bytes) : Type 0 where
    pub opened : b.is_closed ≡ false
    pub flushed : Bytes
    pub appends : Appends b w.value_id w.seq flushed
    pub joined : flushed ++ w.buf ≡ written
    pub counted : w.seq ≤ length flushed
    pub total : w.total_len ≡ length written

  -- A call that returns a writer of the same value, part of the way.
  abbrev pub Continues : Result (MemoryBackend × Writer) → Writer → Bytes → Type 0
  Continues r w written =
      (b' : MemoryBackend) × (w' : Writer) × (r ≡ ok (b', w'))
      × IsWriting b' w' written
      × (w'.key ≡ w.key)
      × (w'.value_id ≡ w.value_id)

  pub flush_piece-Continues :
      (b : MemoryBackend) (w : Writer) (piece rest written : Bytes)
      → 0 < length piece
      → length written ≤ max_decoded_bytes
      → w.buf ≡ piece ++ rest
      → IsWriting b w written
      → (b' : MemoryBackend) × (w' : Writer) × (flush_piece i b (record w { buf = rest }) piece
          ≡ ok (b', w'))
        × IsWriting b' w' written
        × (w'.buf ≡ rest)
        × (w'.key ≡ w.key)
        × (w'.value_id ≡ w.value_id)
  unfolding flush_piece
  flush_piece-Continues b w piece rest written pos small split v =
      let all : v.flushed ++ (piece ++ rest) ≡ written =
        ap (λ x. v.flushed ++ x) (sym split) ∙ v.joined in
      let fits : length v.flushed + (length piece + length rest) ≡ length written =
        omega (
          arith,
          ap length all,
          length-append v.flushed (piece ++ rest),
          length-append piece rest,
        ) in
      let (sealed, s, u) = seals piece (omega (arith, fits, small)) in
      let op = put chunks (chunk_key w.value_id w.seq) sealed in
      let b' : MemoryBackend = record {
        tables = apply_all b.tables (op ∷ []);
        is_closed = false;
      } in
      let c = commit_open b v.opened (op ∷ []) in
      let few : w.seq + 1 ≤ length v.flushed + length piece = omega (arith, v.counted) in
      let next : (w.seq + 1) % 2 ^ 32 ≡ w.seq + 1 = omega (arith, few, fits) in
      (
        b',
        record w { buf = rest; seq = (w.seq + 1) % 2 ^ 32 },
        rw (s, c) refl,
        record {
          opened = refl;
          flushed = v.flushed ++ piece;
          appends =
              subst (λ n. Appends b' w.value_id n (v.flushed ++ piece)) (sym next)
                (Appends-more b b' w.value_id w.seq v.flushed piece sealed (omega arith) u c
                  v.appends);
          joined = append_assoc v.flushed piece rest ∙ all;
          counted = omega (arith, next, few, length-append v.flushed piece);
          total = v.total;
        },
        refl,
        refl,
        refl,
      )

  flush_full-Continues :
      (fuel : ℕ) (b : MemoryBackend) (w : Writer) (written : Bytes)
      → 0 < i.config.chunk_size
      → length w.buf < fuel
      → length written ≤ max_decoded_bytes
      → IsWriting b w written
      → Continues (flush_full fuel i b w) w written
  unfolding flush_full
  flush_full-Continues zero b w written pos enough small v = absurd (omega arith)
  flush_full-Continues (suc fuel) b w written pos enough small v =
      elim (Bool-cases (leb i.config.chunk_size (length w.buf))) [
        | inl more ↦
            let n = i.config.chunk_size in
            let whole : n ≤ length w.buf = ground arith in
            let (b1, w1, run, v1, left, key1, id1) =
              flush_piece-Continues b w (take n w.buf) (drop n w.buf) written
                (omega (arith, length-take n w.buf)) small (sym (take-append-drop n w.buf)) v in
            let shorter : length w1.buf < fuel =
              omega (arith, ap length left, length-drop n w.buf) in
            let (b2, w2, run2, v2, key2, id2) =
              flush_full-Continues fuel b1 w1 written pos shorter small v1 in
            (
              b2,
              w2,
              rw (more, flush_full) (ap (λ m. m >>= λ x. flush_full fuel i x.0 x.1) run ∙ run2),
              v2,
              key2 ∙ key1,
              id2 ∙ id1,
            )
        | inr stop ↦ (b, w, rw (stop, flush_full) refl, v, refl, refl)
      ]

  -- Writing a chunk, of whatever length and on whatever buffer, returns a writer of the same value
  -- for which the pieces flushed, read back in order, followed by what is buffered, are what was
  -- written before with the chunk behind it. The backend is open, the chain seals every piece of at
  -- most 256 MiB and opens it again, the chunk size is above zero and the whole is of 256 MiB at
  -- most.
  pub write_chunk-Continues :
      (b : MemoryBackend) (w : Writer) (written bytes : Bytes)
      → 0 < i.config.chunk_size
      → length (written ++ bytes) ≤ max_decoded_bytes
      → IsWriting b w written
      → Continues (write_chunk i b w bytes) w (written ++ bytes)
  unfolding write_chunk
  write_chunk-Continues b w written bytes pos small v =
      let total : (w.total_len + length bytes) % 2 ^ 64 ≡ length (written ++ bytes) =
        omega (arith, v.total, length-append written bytes, small) in
      flush_full-Continues (length (w.buf ++ bytes) + 1) b
        (record w { buf = w.buf ++ bytes; total_len = (w.total_len + length bytes) % 2 ^ 64 })
        (written ++ bytes) pos (omega arith) small
        (record {
          opened = v.opened;
          flushed = v.flushed;
          appends = v.appends;
          joined = sym (append_assoc v.flushed w.buf bytes) ∙ ap (λ x. x ++ bytes) v.joined;
          counted = v.counted;
          total = total;
        })
