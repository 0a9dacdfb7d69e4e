-- ===== src/Bytes/Number.antt =====
-- `to_be_bytes`, `from_be_bytes` of `u32` and `u64`, and `u32`'s `to_le_bytes`, `from_le_bytes`, at
-- every width.
use native.Mathlib.Nat.{pow-suc, mod-lt, mod-eq_of_lt, div-add-mod, div-lt_iff_lt-mul}
use mathlib.Core.Path.{ap₂}
use crossbank.Prelude.{
  ℕ, zero, suc, ◌+◌, ◌*◌, ◌/◌, ◌%◌, ◌^◌, ◌<◌, ◌≡◌, refl, sym, ap, ◌∙◌, [], ◌∷◌, arith, ltb, ◌==◌,
  ◌&&◌, ◌||◌, length,
}
use crossbank.Bytes.Order.{Bytes, IsBytes, bytes_lt}

-- `w` bytes, most significant first.
unfoldable pub to_be : ℕ → ℕ → Bytes
to_be zero n = []
to_be (suc w) n = (n / 256 ^ w % 256) ∷ to_be w (n % 256 ^ w)

unfoldable pub from_be : Bytes → ℕ
from_be [] = 0
from_be (b ∷ bs) = b * 256 ^ length bs + from_be bs

-- `w` bytes, least significant first.
unfoldable pub to_le : ℕ → ℕ → Bytes
to_le zero n = []
to_le (suc w) n = (n % 256) ∷ to_le w (n / 256)

unfoldable pub from_le : Bytes → ℕ
from_le [] = 0
from_le (b ∷ bs) = b + 256 * from_le bs

pow_pos : (w : ℕ) → 0 < 256 ^ w
pow_pos zero = omega arith
pow_pos (suc w) = rw pow-suc (omega (arith, pow_pos w))

pub length-to_be : (w n : ℕ) → length (to_be w n) ≡ w
unfolding to_be
length-to_be zero n = refl
length-to_be (suc w) n = ap suc (length-to_be w (n % 256 ^ w))

pub length-to_le : (w n : ℕ) → length (to_le w n) ≡ w
unfolding to_le
length-to_le zero n = refl
length-to_le (suc w) n = ap suc (length-to_le w (n / 256))

pub to_be-IsBytes : (w n : ℕ) → IsBytes (to_be w n)
unfolding to_be
to_be-IsBytes zero n = tt
to_be-IsBytes (suc w) n = (omega arith, to_be-IsBytes w (n % 256 ^ w))

-- The leading digit and the rest, for `p` the weight of the digit.
module _ (p n : ℕ) (pos : 0 < p) (small : n < p * 256) where
  digit_small : n / p % 256 ≡ n / p
  digit_small = mod-eq_of_lt ((div-lt_iff_lt-mul pos).1 (omega arith))

  digit_split : n / p * p + n % p ≡ n
  digit_split = omega (arith, div-add-mod n p)

leading_digit : (p a b c d : ℕ) → a < b → c < p → a * p + c < b * p + d
leading_digit p a b c d h l = grind arith

same_digit : (p a b : ℕ) → a ≡ b → a * p ≡ b * p
same_digit p a b e = cc

compare_digits :
    (p a b c d : ℕ) → c < p → d < p → (ltb a b || (a == b) && ltb c d) ≡ ltb (a * p + c) (b * p + d)
compare_digits p a b c d l k =
    ground (arith, leading_digit p a b c d, leading_digit p b a d c, same_digit p a b)

-- Two numbers compare as their leading digits, then as the rest.
digits_lt :
    (p m n : ℕ)
    → 0 < p
    → m < p * 256
    → n < p * 256
    → (ltb (m / p % 256) (n / p % 256) || (m / p % 256 == n / p % 256) && ltb (m % p) (n % p))
      ≡ ltb m n
digits_lt p m n pos h k =
    rw (digit_small p m pos h, digit_small p n pos k)
      (compare_digits p (m / p) (n / p) (m % p) (n % p) (mod-lt m pos) (mod-lt n pos)
        ∙ ap₂ ltb (digit_split p m pos h) (digit_split p n pos k))

pub from_be-to_be : (w n : ℕ) → n < 256 ^ w → from_be (to_be w n) ≡ n
unfolding to_be from_be
from_be-to_be zero n h = omega arith
from_be-to_be (suc w) n h =
    let small : n < 256 ^ w * 256 = rw pow-suc at h in
    rw
      (
        digit_small (256 ^ w) n (pow_pos w) small,
        length-to_be w (n % 256 ^ w),
        from_be-to_be w (n % 256 ^ w) (mod-lt _ (pow_pos w)),
      )
      (digit_split (256 ^ w) n (pow_pos w) small)

pub from_le-to_le : (w n : ℕ) → n < 256 ^ w → from_le (to_le w n) ≡ n
unfolding to_le from_le
from_le-to_le zero n h = omega arith
from_le-to_le (suc w) n h =
    let small : n < 256 ^ w * 256 = rw pow-suc at h in
    omega (arith, from_le-to_le w (n / 256) (omega arith))

-- Big-endian bytes sort as the numbers do.
bytes_lt-to_be :
    (w m n : ℕ) → m < 256 ^ w → n < 256 ^ w → bytes_lt (to_be w m) (to_be w n) ≡ ltb m n
unfolding to_be bytes_lt
bytes_lt-to_be zero m n h k = ground arith
bytes_lt-to_be (suc w) m n h k =
    rw (bytes_lt-to_be w (m % 256 ^ w) (n % 256 ^ w) (mod-lt _ (pow_pos w)) (mod-lt _ (pow_pos w)))
      (digits_lt (256 ^ w) m n (pow_pos w) (rw pow-suc at h) (rw pow-suc at k))

pub from_be-lt : (bs : Bytes) → IsBytes bs → from_be bs < 256 ^ length bs
unfolding from_be
from_be-lt [] h = omega arith
from_be-lt (b ∷ bs) h =
    rw pow-suc (leading_bound (256 ^ length bs) b (from_be bs) h.0 (from_be-lt bs h.1))
  where
    leading_bound : (p b c : ℕ) → b < 256 → c < p → b * p + c < p * 256
    leading_bound p b c h k = grind arith

first_digit : (p b c : ℕ) → b < 256 → c < p → (b * p + c) / p % 256 ≡ b
first_digit p b c h k = grind arith

rest_digits : (p b c : ℕ) → c < p → (b * p + c) % p ≡ c
rest_digits p b c k = grind arith

pub to_be-from_be : (bs : Bytes) → IsBytes bs → to_be (length bs) (from_be bs) ≡ bs
unfolding to_be from_be
to_be-from_be [] h = refl
to_be-from_be (b ∷ bs) h =
    let small = from_be-lt bs h.1 in
    rw
      (
        first_digit (256 ^ length bs) b (from_be bs) h.0 small,
        rest_digits (256 ^ length bs) b (from_be bs) small,
      )
      (ap (◌∷◌ b) (to_be-from_be bs h.1))

pub to_be-inj : (w m n : ℕ) → m < 256 ^ w → n < 256 ^ w → to_be w m ≡ to_be w n → m ≡ n
to_be-inj w m n h k e = sym (from_be-to_be w m h) ∙ ap from_be e ∙ from_be-to_be w n k

pub to_le-from_le : (bs : Bytes) → IsBytes bs → to_le (length bs) (from_le bs) ≡ bs
unfolding to_le from_le
to_le-from_le [] h = refl
to_le-from_le (b ∷ bs) h =
    let first : (b + 256 * from_le bs) % 256 ≡ b = omega arith in
    let rest : (b + 256 * from_le bs) / 256 ≡ from_le bs = omega arith in
    rw (first, rest, to_le-from_le bs h.1)
