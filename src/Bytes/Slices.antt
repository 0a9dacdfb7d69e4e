-- ===== src/Bytes/Slices.antt =====
-- Indexing and slicing of byte strings: `raw[i]`, `raw[a..b]`, and the fields that they cut out.
use crossbank.Prelude.{
  ℕ, zero, suc, ◌+◌, ◌-◌, ◌≤◌, ◌<◌, ◌≡◌, refl, ap, sym, ◌∙◌, false, [], ◌∷◌, ◌++◌, take, drop,
  length, ltb, arith, All-take, All-drop, length-take, length-drop,
}
use crossbank.Bytes.Order.{Bytes, IsBytes}

-- `raw[i]`, after a check of the length.
abbrev pub byte_at : ℕ → Bytes → ℕ
byte_at i bs = elim (drop i bs) [ [] ↦ 0 | b ∷ rest ↦ b ]

-- `raw[a..b]`, after a check of the length.
abbrev pub slice : ℕ → ℕ → Bytes → Bytes
slice a b bs = take (b - a) (drop a bs)

drop-nil : (n : ℕ) → drop {A = ℕ} n [] ≡ []
drop-nil zero = refl
drop-nil (suc n) = refl

pub drop-drop : (m n : ℕ) (xs : Bytes) → drop n (drop m xs) ≡ drop (m + n) xs
drop-drop zero n xs = ap (λ k. drop k xs) {x = n} {y = 0 + n} (omega arith)
drop-drop (suc m) n [] = drop-nil n ∙ sym (drop-nil (suc m + n))
drop-drop (suc m) n (x ∷ xs) =
    drop-drop m n xs ∙ ap (λ k. drop k (x ∷ xs)) {x = suc (m + n)} {y = suc m + n} (omega arith)

pub six_bytes :
    (xs : Bytes)
    → ltb (length xs) 6 ≡ false
    → xs ≡ take 4 xs ++ (byte_at 4 xs ∷ byte_at 5 xs ∷ drop 6 xs)
six_bytes (a ∷ b ∷ c ∷ d ∷ e ∷ f ∷ xs) h = refl
six_bytes _ h = absurd (ground arith)

first-lt : (bs : Bytes) → IsBytes bs → byte_at 0 bs < 256
first-lt [] h = omega arith
first-lt (b ∷ bs) h = h.0

pub byte_at-lt : (i : ℕ) (bs : Bytes) → IsBytes bs → byte_at i bs < 256
byte_at-lt i bs h = first-lt (drop i bs) (All-drop (λ b. b < 256) i bs h)

pub slice-IsBytes : (a b : ℕ) (bs : Bytes) → IsBytes bs → IsBytes (slice a b bs)
slice-IsBytes a b bs h =
    All-take (λ b. b < 256) (b - a) (drop a bs) (All-drop (λ b. b < 256) a bs h)

pub length-slice : (a b : ℕ) (bs : Bytes) → a ≤ b → b ≤ length bs → length (slice a b bs) ≡ b - a
length-slice a b bs h k = omega (arith, length-take (b - a) (drop a bs), length-drop a bs)
