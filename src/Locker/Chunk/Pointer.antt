-- ===== src/Locker/Chunk/Pointer.antt =====
-- Chunk pointers: `parse` accepts exactly the encodings of pointers within the limits.
use crossbank.Prelude.{
  ℕ, ◌-◌, ◌^◌, ◌≤◌, ◌<◌, ◌≡◌, ◌↔◌, refl, ap, sym, ◌∙◌, true, false, ◌∷◌, ◌++◌, take, drop, length,
  arith, length-append, take-append_of_length, take_of_length, drop-append_of_length,
  take-append-drop, length-drop,
}
use mathlib.Core.Path.{subst}
use crossbank.Error.{ok}
use crossbank.Bytes.{Bytes, IsBytes, bytes_eq, bytes_eq_iff}
use crossbank.Bytes.Number.{to_be, from_be, from_be-to_be, to_be-from_be, length-to_be, from_be-lt}
use crossbank.Bytes.Slices.{
  byte_at, slice, drop-drop, six_bytes, byte_at-lt, slice-IsBytes, length-slice,
}
use crossbank.Codec.Filters.{max_decoded_bytes}
use crossbank.Codec.Chain.{header}
use crossbank.Locker.Chunk.{
  ChunkPointer, pointer_magic, pointer_version, encode, parse, within_limits, is_pointer,
}

-- The field widths, and the two limits that `parse` enforces.
pub record IsPointer (p : ChunkPointer) : Type 0 where
  pub id_fits : p.value_id < 256 ^ 8
  pub flags_fit : p.flags < 256
  pub total_fits : p.total_len ≤ max_decoded_bytes
  pub chunks_fit : p.n_chunks ≤ p.total_len

-- The bytes of a pointer, field by field.
abbrev layout : ℕ → Bytes → Bytes → Bytes → Bytes
layout flags v n t = pointer_magic ++ (pointer_version ∷ flags ∷ (v ++ (n ++ t)))

module _ (flags : ℕ) (v n t : Bytes) (lv : length v ≡ 8) (ln : length n ≡ 4)
    (lt : length t ≡ 8) where
  past_id : drop 8 (v ++ (n ++ t)) ≡ n ++ t
  past_id = drop-append_of_length 8 v (n ++ t) lv

  past_count : drop 12 (v ++ (n ++ t)) ≡ t
  past_count = sym (drop-drop 8 4 (v ++ (n ++ t))) ∙ rw past_id (drop-append_of_length 4 n t ln)

  length-layout : length (layout flags v n t) ≡ 26
  length-layout = omega (arith, length-append v (n ++ t), length-append n t)

  parse-layout :
      parse (layout flags v n t)
      ≡ within_limits (record {
        value_id = from_be v;
        n_chunks = from_be n;
        total_len = from_be t;
        flags = flags;
      })
  unfolding parse bytes_eq
  parse-layout =
      let len : length (v ++ (n ++ t)) ≡ 20 =
        omega (arith, length-append v (n ++ t), length-append n t) in
      rw
        (
          len,
          take-append_of_length 8 v (n ++ t) lv,
          past_id,
          past_count,
          take-append_of_length 4 n t ln,
          take_of_length 8 t lt,
        )
        refl

pub parse-encode_eq :
    (p : ChunkPointer)
    → p.value_id < 256 ^ 8
    → p.n_chunks < 256 ^ 4
    → p.total_len < 256 ^ 8
    → parse (encode p) ≡ within_limits p
unfolding encode
parse-encode_eq p id small total =
    parse-layout p.flags (to_be 8 p.value_id) (to_be 4 p.n_chunks) (to_be 8 p.total_len)
      (length-to_be 8 p.value_id) (length-to_be 4 p.n_chunks) (length-to_be 8 p.total_len)
    ∙ rw
        (
          from_be-to_be 8 p.value_id id,
          from_be-to_be 4 p.n_chunks small,
          from_be-to_be 8 p.total_len total,
        )
        refl

-- The flags of a pointer read back, whatever its other fields.
pub parse-encode_flags : (p q : ChunkPointer) → parse (encode p) ≡ ok q → q.flags ≡ p.flags
unfolding encode within_limits
parse-encode_flags p q h =
    let read =
      parse-layout p.flags (to_be 8 p.value_id) (to_be 4 p.n_chunks) (to_be 8 p.total_len)
        (length-to_be 8 p.value_id) (length-to_be 4 p.n_chunks) (length-to_be 8 p.total_len) in
    ground (arith, sym read ∙ h)

within_limits_lem : (p : ChunkPointer) → IsPointer p → within_limits p ≡ ok p
unfolding within_limits
within_limits_lem p v = ground arith

pub parse-encode : (p : ChunkPointer) → IsPointer p → parse (encode p) ≡ ok p
parse-encode p v =
    parse-encode_eq p v.id_fits (omega (arith, v.total_fits, v.chunks_fit))
      (omega (arith, v.total_fits))
    ∙ within_limits_lem p v

-- Twenty-six bytes are six, eight, four and eight.
pointer_bytes :
    (raw : Bytes)
    → length raw ≡ 26
    → raw
      ≡ slice 0 4 raw
        ++ (byte_at 4 raw
            ∷ byte_at 5 raw
            ∷ (slice 6 14 raw ++ (slice 14 18 raw ++ slice 18 26 raw)))
pointer_bytes raw len =
    let e18 : drop 18 raw ≡ slice 18 26 raw =
      sym (take_of_length 8 (drop 18 raw) (omega (arith, length-drop 18 raw))) in
    let e14 : drop 14 raw ≡ slice 14 18 raw ++ drop 18 raw =
      sym (take-append-drop 4 (drop 14 raw))
      ∙ ap (λ t. slice 14 18 raw ++ t) (drop-drop 14 4 raw) in
    let e6 : drop 6 raw ≡ slice 6 14 raw ++ drop 14 raw =
      sym (take-append-drop 8 (drop 6 raw)) ∙ ap (λ t. slice 6 14 raw ++ t) (drop-drop 6 8 raw) in
    six_bytes raw (ground arith)
    ∙ ap (λ t. take 4 raw ++ (byte_at 4 raw ∷ byte_at 5 raw ∷ t))
        (e6 ∙ ap (λ t. slice 6 14 raw ++ t) (e14 ∙ ap (λ t. slice 14 18 raw ++ t) e18))

-- What a successful parse has tested, and the pointer that it returns.
record Parsed (raw : Bytes) (p : ChunkPointer) : Type 0 where
  len : length raw ≡ 26
  marked : slice 0 4 raw ≡ pointer_magic
  versioned : byte_at 4 raw ≡ pointer_version
  id : p.value_id ≡ from_be (slice 6 14 raw)
  count : p.n_chunks ≡ from_be (slice 14 18 raw)
  total : p.total_len ≡ from_be (slice 18 26 raw)
  flag : p.flags ≡ byte_at 5 raw
  total_fits : p.total_len ≤ max_decoded_bytes
  chunks_fit : p.n_chunks ≤ p.total_len

parse-Parsed : (raw : Bytes) (p : ChunkPointer) → parse raw ≡ ok p → Parsed raw p
unfolding parse
parse-Parsed raw p h = record {
  len = ground arith;
  marked = ground (arith, bytes_eq_iff (slice 0 4 raw) pointer_magic);
  versioned = ground arith;
  id = ground arith;
  count = ground arith;
  total = ground arith;
  flag = ground arith;
  total_fits = ground arith;
  chunks_fit = ground arith;
}

field_back :
    (a b : ℕ) (raw : Bytes)
    → IsBytes raw
    → length raw ≡ 26
    → a ≤ b
    → b ≤ 26
    → to_be (b - a) (from_be (slice a b raw)) ≡ slice a b raw
field_back a b raw h len l k =
    subst (λ w. to_be w (from_be (slice a b raw)) ≡ slice a b raw)
      (length-slice a b raw l (omega arith))
      (to_be-from_be (slice a b raw) (slice-IsBytes a b raw h))

limits_of_parse : (raw : Bytes) (p : ChunkPointer) → IsBytes raw → Parsed raw p → IsPointer p
limits_of_parse raw p b h = record {
  id_fits = rw h.id (
      subst (λ w. from_be (slice 6 14 raw) < 256 ^ w)
        (length-slice 6 14 raw (omega arith) (omega (arith, h.len)))
        (from_be-lt (slice 6 14 raw) (slice-IsBytes 6 14 raw b)));
  flags_fit = rw h.flag (byte_at-lt 5 raw b);
  total_fits = h.total_fits;
  chunks_fit = h.chunks_fit;
}

encode_of_parse : (raw : Bytes) (p : ChunkPointer) → IsBytes raw → Parsed raw p → raw ≡ encode p
unfolding encode
encode_of_parse raw p b h =
    pointer_bytes raw h.len
    ∙ rw
        (
          h.id,
          h.count,
          h.total,
          h.flag,
          field_back 6 14 raw b h.len (omega arith) (omega arith),
          field_back 14 18 raw b h.len (omega arith) (omega arith),
          field_back 18 26 raw b h.len (omega arith) (omega arith),
          h.versioned,
          h.marked,
        )
        refl

-- The bytes that parse are exactly the encodings of pointers whose fields fit and whose counts stay
-- within the limits: nothing else is taken for a pointer, and every such pointer reads back.
pub parse_iff :
    (raw : Bytes) (p : ChunkPointer)
    → IsBytes raw
    → (parse raw ≡ ok p) ↔ (IsPointer p × (raw ≡ encode p))
parse_iff raw p b = (
  λ h.
      let parsed = parse-Parsed raw p h in
      (limits_of_parse raw p b parsed, encode_of_parse raw p b parsed),
  λ w. rw w.1 (parse-encode p w.0),
)

-- A sealed inline value never reads as a pointer, and an encoded pointer always does.
pub is_pointer-header : (id : ℕ) (body : Bytes) → is_pointer (header id ++ body) ≡ false
unfolding is_pointer header bytes_eq
is_pointer-header id body = ground arith

pub is_pointer-encode : (p : ChunkPointer) → is_pointer (encode p) ≡ true
unfolding is_pointer encode bytes_eq
is_pointer-encode p = ground arith
