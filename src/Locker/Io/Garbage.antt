-- ===== src/Locker/Io/Garbage.antt =====
-- The garbage of the value that a finished writer replaces.
use crossbank.Prelude.{
  ℕ, ◌^◌, ◌<◌, ◌≡◌, ◌≢◌, refl, ap, sym, ◌∙◌, arith, true, false, Option, none, some, List, [], ◌∷◌,
  ◌++◌, All-append, Bool-cases, inl, inr, ◌⊎◌, if◌then◌else◌,
}
use mathlib.Core.Option.{some-injective}
use crossbank.Error.{ok, ok-inj}
use crossbank.Bytes.{Bytes, starts_with, starts_with-append, starts_with-ne}
use crossbank.Bytes.Number.{to_be, to_be-IsBytes, to_be-inj, length-to_be}
use crossbank.Backend.Api.{chunks, records, contains, Op}
use crossbank.Backend.Api.Ranges.{contains-prefix}
use crossbank.Backend.Memory.Refines.{effects}
use crossbank.Locker.Chunk.{ChunkPointer, parse, is_pointer, chunk_key, chunk_range, gc_ops}
use crossbank.Locker.Inner.Write.{gc_of}

-- What a writer's key may hold while it writes: nothing, an inline value, or a value of another id.
abbrev pub Spares : ℕ → Option Bytes → Type 0
Spares id none = Unit
Spares id (some raw) =
    (is_pointer raw ≡ false)
    ⊎ ((p : ChunkPointer) × (parse raw ≡ ok p) × (p.value_id < 256 ^ 8) × (p.value_id ≢ id))

-- The range of one value holds no piece of another.
chunk_range-other :
    (id other s : ℕ)
    → id < 256 ^ 8
    → other < 256 ^ 8
    → other ≢ id
    → contains (chunk_range other) (chunk_key id s) ≡ false
unfolding chunk_range chunk_key
chunk_range-other id other s h k ne =
    contains-prefix (to_be 8 other) (to_be 8 id ++ to_be 4 s) (to_be-IsBytes 8 other)
      (All-append (λ b. b < 256) (to_be 8 id) (to_be 4 s) (to_be-IsBytes 8 id) (to_be-IsBytes 4 s))
    ∙ elim (Bool-cases (starts_with (to_be 8 other) (to_be 8 id ++ to_be 4 s))) [
      | inl e ↦ absurd (
          ne (
            to_be-inj 8 other id k h (
              starts_with-ne (to_be 8 other) (to_be 8 id) (to_be 4 s)
                (length-to_be 8 other ∙ sym (length-to_be 8 id)) e)))
      | inr n ↦ n
    ]

-- Every piece of a value lies in its range.
chunk_range-own : (id s : ℕ) → contains (chunk_range id) (chunk_key id s) ≡ true
unfolding chunk_range chunk_key
chunk_range-own id s =
    contains-prefix (to_be 8 id) (to_be 8 id ++ to_be 4 s) (to_be-IsBytes 8 id)
      (All-append (λ b. b < 256) (to_be 8 id) (to_be 4 s) (to_be-IsBytes 8 id) (to_be-IsBytes 4 s))
    ∙ starts_with-append (to_be 8 id) (to_be 4 s)

-- The garbage of the previous value is none of this one's pieces, and no record.
abbrev pub Harmless : ℕ → List Op → Type 0
Harmless id gc =
    ((s : ℕ) (old : Option Bytes) → effects gc chunks (chunk_key id s) old ≡ old)
    × ((k : Bytes) (old : Option Bytes) → effects gc records k old ≡ old)

-- It takes every piece that the previous value points to.
abbrev pub Takes : Option Bytes → List Op → Type 0
Takes existing gc =
    (raw : Bytes) (p : ChunkPointer)
    → existing ≡ some raw
    → is_pointer raw ≡ true
    → parse raw ≡ ok p
    → (s : ℕ) (old : Option Bytes) → effects gc chunks (chunk_key p.value_id s) old ≡ none

plain-Takes : (raw : Bytes) (gc : List Op) → is_pointer raw ≡ false → Takes (some raw) gc
plain-Takes raw gc plain raw' p e pointer parsed s old =
    absurd (ground (arith, ap is_pointer (some-injective raw raw' e)))

gc_ops-Takes :
    (raw : Bytes) (p : ChunkPointer) → parse raw ≡ ok p → Takes (some raw) (gc_ops p ∷ [])
unfolding gc_ops
gc_ops-Takes raw p parsed raw' p' e pointer parsed' s old =
    let same : p ≡ p' = ok-inj (sym parsed ∙ ap parse (some-injective raw raw' e) ∙ parsed') in
    ap (λ own. if own then none else old)
      (ap (λ q. contains (chunk_range p.value_id) (chunk_key q.value_id s)) (sym same)
        ∙ chunk_range-own p.value_id s)

pub gc_of-Harmless :
    (id : ℕ) (existing : Option Bytes)
    → id < 256 ^ 8
    → Spares id existing
    → (gc : List Op) × (gc_of existing ≡ ok gc) × Harmless id gc × Takes existing gc
unfolding gc_of gc_ops
gc_of-Harmless id none small sp =
    ([], refl, (λ s old. refl, λ k old. refl), λ raw p e. absurd (ground arith))
gc_of-Harmless id (some raw) small (inl plain) =
    ([], rw plain refl, (λ s old. refl, λ k old. refl), plain-Takes raw [] plain)
gc_of-Harmless id (some raw) small (inr (p, parsed, fits, other)) =
    elim (Bool-cases (is_pointer raw)) [
      | inl e ↦ (
        gc_ops p ∷ [],
        rw (e, parsed) refl,
        (λ s old. rw (chunk_range-other id p.value_id s small fits other) refl, λ k old. refl),
        gc_ops-Takes raw p parsed,
      )
      | inr plain ↦ ([], rw plain refl, (λ s old. refl, λ k old. refl), plain-Takes raw [] plain)
    ]
