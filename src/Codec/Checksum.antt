-- ===== src/Codec/Checksum.antt =====
-- The CRC32 filter: both directions, both pairs of methods, and exactly what it accepts.
use crossbank.Prelude.{
  ℕ, ◌-◌, ◌+◌, ◌^◌, ◌<◌, ◌≡◌, ◌↔◌, refl, ap, sym, ◌∙◌, false, ◌++◌, arith, take, drop, length, ltb,
  length-append, take-append_of_length, drop-append_of_length, take-append-drop, All-drop,
  length-take, length-drop, ==_refl,
}
use crossbank.Error.{Result, ok, err, panic, ◌>>=◌}
use crossbank.Bytes.{Bytes, IsBytes}
use crossbank.Bytes.Number.{to_le, from_le, length-to_le, from_le-to_le, to_le-from_le}
use crossbank.Codec.Filters.{
  verify, crc32, crc32_forward, crc32_reverse, crc32_forward_owned, crc32_reverse_owned,
}
use crossbank.Codec.RoundTrip.{Inverts}

-- `small` is the return type of `crc32fast::hash`, a `u32`.
module _ (hash : Bytes → ℕ) (small : (x : Bytes) → hash x < 256 ^ 4) where
  verify-append : (x : Bytes) → verify hash (x ++ to_le 4 (hash x)) ≡ ok x
  unfolding verify
  verify-append x =
      let sealed : Bytes = x ++ to_le 4 (hash x) in
      let len : length sealed ≡ length x + 4 =
        length-append x (to_le 4 (hash x)) ∙ ap (λ n. length x + n) (length-to_le 4 (hash x)) in
      let long : ltb (length sealed) 4 ≡ false = ground arith in
      let cut : length sealed - 4 ≡ length x = omega arith in
      rw
        (
          long,
          cut,
          take-append_of_length (length x) x (to_le 4 (hash x)) refl,
          drop-append_of_length (length x) x (to_le 4 (hash x)) refl,
          from_le-to_le 4 (hash x) (small x),
          ==_refl (hash x),
        )
        refl

  append_of_verify :
      (input x : Bytes) → IsBytes input → verify hash input ≡ ok x → input ≡ x ++ to_le 4 (hash x)
  unfolding verify
  append_of_verify input x b h =
      let split = length input - 4 in
      let long : ltb (length input) 4 ≡ false = ground arith in
      let body : take split input ≡ x = ground arith in
      let sum : from_le (drop split input) ≡ hash (take split input) = ground arith in
      let four : length (drop split input) ≡ 4 = ground (arith, length-drop split input) in
      let tail : to_le 4 (from_le (drop split input)) ≡ drop split input =
        rw four at (to_le-from_le (drop split input) (All-drop (λ b. b < 256) split input b)) in
      sym (take-append-drop split input) ∙ cc

  -- The checksum accepts exactly the bytes that end in the checksum of the rest, and hands back that
  -- rest.
  pub verify_iff :
      (input x : Bytes)
      → IsBytes input
      → (verify hash input ≡ ok x) ↔ (input ≡ x ++ to_le 4 (hash x))
  verify_iff input x b = (append_of_verify input x b, λ e. rw e (verify-append x))

  take_of_verify : (input x : Bytes) → verify hash input ≡ ok x → take (length x) input ≡ x
  unfolding verify
  take_of_verify input x h =
      let split = length input - 4 in
      let body : take split input ≡ x = ground arith in
      let cut : length (take split input) ≡ split = ground (arith, length-take split input) in
      rw (← body, cut) refl

  truncate_agree :
      (input : Bytes) (r : Result Bytes)
      → ((x : Bytes) → r ≡ ok x → take (length x) input ≡ x)
      → (r >>= λ body. ok (take (length body) input)) ≡ (r >>= λ body. ok body)
  truncate_agree input (ok x) h = ap ok (h x refl)
  truncate_agree input (err e) h = refl
  truncate_agree input panic h = refl

  -- The methods that work in place on the caller's buffer return what the borrowing ones return, on
  -- every input, errors included.
  pub crc32_owned_agree :
      (input : Bytes)
      → ((crc32 hash).forward_owned input ≡ (crc32 hash).forward input)
        × ((crc32 hash).reverse_owned input ≡ (crc32 hash).reverse input)
  unfolding crc32 crc32_forward_owned crc32_forward crc32_reverse_owned crc32_reverse
  crc32_owned_agree input =
      (refl, truncate_agree input (verify hash input) (λ x. take_of_verify input x))

  pub crc32-Inverts : (x : Bytes) → Inverts (crc32 hash) x
  unfolding crc32 crc32_forward_owned crc32_reverse_owned
  crc32-Inverts x y h =
      let e : y ≡ x ++ to_le 4 (hash x) = ground arith in
      rw (e, verify-append x, take-append_of_length (length x) x (to_le 4 (hash x)) refl) refl
