-- ===== src/Locker/Lru/Entries.antt =====
-- The `lru::` rows of src/locker/lru.rs: one row of `meta` for each live key, its tick and its size.
use crossbank.Prelude.{
  ℕ, ◌-◌, ◌^◌, ◌<◌, min, ◌≡◌, ◌≢◌, refl, ap, sym, ◌∙◌, true, false, Option, none, some, [], ◌∷◌,
  ◌++◌, arith, if◌then◌else◌, length, ◌==◌, drop, take, take-append_of_length,
  drop-append_of_length, take_of_length, length-append, All-append, Bool-cases, inl, inr,
}
use crossbank.Bytes.{Bytes, IsBytes, starts_with, starts_with-append, starts_with-ne}
use crossbank.Bytes.Number.{to_be, from_be, length-to_be, from_be-to_be, to_be-IsBytes, to_be-inj}
use crossbank.Bytes.Slices.{slice}
use crossbank.Backend.Api.{meta, prefix, contains, Op, put, delete, delete_range}
use crossbank.Backend.Api.Ranges.{contains-prefix}
use crossbank.Key.{LockerId}
use crossbank.Key.Laws.{IsId}

-- "lru::", "next_tick" and "::".
abbrev lru_prefix : Bytes
lru_prefix = b'l' ∷ b'r' ∷ b'u' ∷ b':' ∷ b':' ∷ []

abbrev pub meta_next_tick : Bytes
meta_next_tick = b'n' ∷ b'e' ∷ b'x' ∷ b't' ∷ b'_' ∷ b't' ∷ b'i' ∷ b'c' ∷ b'k' ∷ []

abbrev record_len : ℕ
record_len = 12

unfoldable pub locker_prefix : LockerId → Bytes
locker_prefix id = lru_prefix ++ (to_be 4 id ++ (b':' ∷ b':' ∷ []))

unfoldable pub entry_key : LockerId → Bytes → Bytes
entry_key id key = locker_prefix id ++ key

-- `user_key`: `strip_prefix`.
unfoldable pub user_key : Bytes → Bytes → Option Bytes
user_key p meta_key = if starts_with p meta_key then some (drop (length p) meta_key) else none

pub record Entry : Type 0 where
  pub tick : ℕ
  pub bytes : ℕ

-- A size past the `u32` is written as the greatest one.
unfoldable pub encode_entry : Entry → Bytes
encode_entry e = to_be 8 e.tick ++ to_be 4 (min e.bytes (2 ^ 32 - 1))

unfoldable pub parse_entry : Bytes → Option Entry
parse_entry raw =
    if length raw == record_len
    then some (record { tick = from_be (slice 0 8 raw); bytes = from_be (slice 8 12 raw) })
    else none

unfoldable pub put_op : LockerId → Bytes → Entry → Op
put_op id key e = put meta (entry_key id key) (encode_entry e)

unfoldable pub delete_op : LockerId → Bytes → Op
delete_op id key = delete meta (entry_key id key)

unfoldable pub clear_op : LockerId → Op
clear_op id = delete_range meta (prefix (locker_prefix id))

parse_entry-append :
    (v w : Bytes)
    → length v ≡ 8
    → length w ≡ 4
    → parse_entry (v ++ w) ≡ some (record { tick = from_be v; bytes = from_be w })
unfolding parse_entry
parse_entry-append v w lv lw =
    let len : length (v ++ w) ≡ 12 = omega (arith, length-append v w) in
    rw (len, take-append_of_length 8 v w lv, drop-append_of_length 8 v w lv, take_of_length 4 w lw)
      refl

-- A row reads back as the entry written, its size capped at the greatest `u32`.
pub parse_entry-encode_entry :
    (e : Entry)
    → e.tick < 2 ^ 64
    → parse_entry (encode_entry e)
      ≡ some (record { tick = e.tick; bytes = min e.bytes (2 ^ 32 - 1) })
unfolding encode_entry
parse_entry-encode_entry e h =
    parse_entry-append (to_be 8 e.tick) (to_be 4 (min e.bytes (2 ^ 32 - 1))) (length-to_be 8 e.tick)
      (length-to_be 4 (min e.bytes (2 ^ 32 - 1)))
    ∙ rw
        (
          from_be-to_be 8 e.tick (omega (arith, h)),
          from_be-to_be 4 (min e.bytes (2 ^ 32 - 1)) (omega arith),
        )
        refl

-- A key's row is told apart from those of other lockers by its prefix.
user_key-entry_key :
    (id : LockerId) (k : Bytes) → user_key (locker_prefix id) (entry_key id k) ≡ some k
unfolding user_key entry_key
user_key-entry_key id k =
    rw
      (
        starts_with-append (locker_prefix id) k,
        drop-append_of_length (length (locker_prefix id)) (locker_prefix id) k refl,
      )
      refl

length-locker_prefix : (id : LockerId) → length (locker_prefix id) ≡ 11
unfolding locker_prefix
length-locker_prefix id =
    omega (arith, length-append (to_be 4 id) (b':' ∷ b':' ∷ []), length-to_be 4 id)

locker_prefix-inj :
    (id other : LockerId)
    → IsId id
    → IsId other
    → locker_prefix id ≡ locker_prefix other
    → id ≡ other
locker_prefix-inj id other h k e =
    to_be-inj 4 id other h k (sym (middle id) ∙ ap (λ p. take 4 (drop 5 p)) e ∙ middle other)
  where
    middle : (id : LockerId) → take 4 (drop 5 (locker_prefix id)) ≡ to_be 4 id
    middle id =
        unfold locker_prefix in
        take-append_of_length 4 (to_be 4 id) (b':' ∷ b':' ∷ []) (length-to_be 4 id)

pub locker_prefix-IsBytes : (id : LockerId) → IsBytes (locker_prefix id)
unfolding locker_prefix
locker_prefix-IsBytes id =
    All-append (λ b. b < 256) lru_prefix (to_be 4 id ++ (b':' ∷ b':' ∷ []))
      (omega arith, (omega arith, (omega arith, (omega arith, (omega arith, tt)))))
      (All-append (λ b. b < 256) (to_be 4 id) (b':' ∷ b':' ∷ []) (to_be-IsBytes 4 id)
        (omega arith, (omega arith, tt)))

starts_with-own :
    (id other : LockerId) (k : Bytes)
    → id ≡ other
    → starts_with (locker_prefix id) (entry_key other k) ≡ true
unfolding entry_key
starts_with-own id other k e = rw e (starts_with-append (locker_prefix other) k)

starts_with-other :
    (id other : LockerId) (k : Bytes)
    → IsId id
    → IsId other
    → id ≢ other
    → starts_with (locker_prefix id) (entry_key other k) ≡ false
unfolding entry_key
starts_with-other id other k h j ne =
    elim (Bool-cases (starts_with (locker_prefix id) (locker_prefix other ++ k))) [
      | inl e ↦ absurd (
          ne (
            locker_prefix-inj id other h j (
              starts_with-ne (locker_prefix id) (locker_prefix other) k
                (length-locker_prefix id ∙ sym (length-locker_prefix other)) e)))
      | inr n ↦ n
    ]

-- Clearing a locker's accounting takes the rows of that locker and of no other.
pub contains-entry_key :
    (id other : LockerId) (k : Bytes)
    → IsId id
    → IsId other
    → IsBytes k
    → contains (prefix (locker_prefix id)) (entry_key other k) ≡ (id == other)
contains-entry_key id other k h j b =
    contains-prefix (locker_prefix id) (entry_key other k) (locker_prefix-IsBytes id) (
      unfold entry_key in
      All-append (λ b. b < 256) (locker_prefix other) k (locker_prefix-IsBytes other) b)
    ∙ elim (Bool-cases (id == other)) [
      | inl e ↦ starts_with-own id other k (ground arith) ∙ sym e
      | inr n ↦ starts_with-other id other k h j (ground arith) ∙ sym n
    ]
