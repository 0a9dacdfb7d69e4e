-- ===== src/Bytes/Order.antt =====
-- Equality and the lexicographic order of byte strings.
use crossbank.Prelude.{
  length, ℕ, ◌<◌, ◌≡◌, refl, ◌↔◌, Bool, true, false, not, ◌&&◌, ◌||◌, List, [], ◌∷◌, ◌++◌, arith,
  ltb, ◌==◌, All, Bool-cases, inl, inr, ap,
}

abbrev pub Bytes : Type 0
Bytes = List ℕ

abbrev pub IsBytes : Bytes → Type 0
IsBytes = All (λ b. b < 256)

unfoldable pub bytes_eq : Bytes → Bytes → Bool
bytes_eq [] [] = true
bytes_eq [] (y ∷ ys) = false
bytes_eq (x ∷ xs) [] = false
bytes_eq (x ∷ xs) (y ∷ ys) = x == y && bytes_eq xs ys

unfoldable pub bytes_lt : Bytes → Bytes → Bool
bytes_lt xs [] = false
bytes_lt [] (y ∷ ys) = true
bytes_lt (x ∷ xs) (y ∷ ys) = ltb x y || (x == y && bytes_lt xs ys)

abbrev pub bytes_le : Bytes → Bytes → Bool
bytes_le xs ys = not (bytes_lt ys xs)

unfoldable pub starts_with : Bytes → Bytes → Bool
starts_with [] ys = true
starts_with (x ∷ xs) [] = false
starts_with (x ∷ xs) (y ∷ ys) = x == y && starts_with xs ys

eq_of_bytes_eq : (xs ys : Bytes) → bytes_eq xs ys ≡ true → xs ≡ ys
unfolding bytes_eq
eq_of_bytes_eq [] [] h = refl
eq_of_bytes_eq [] (y ∷ ys) h = ground arith
eq_of_bytes_eq (x ∷ xs) [] h = ground arith
eq_of_bytes_eq (x ∷ xs) (y ∷ ys) h = ground (arith, eq_of_bytes_eq xs ys)

pub bytes_eq_refl : (xs : Bytes) → bytes_eq xs xs ≡ true
unfolding bytes_eq
bytes_eq_refl [] = refl
bytes_eq_refl (x ∷ xs) = ground (arith, bytes_eq_refl xs)

pub bytes_eq_iff : (xs ys : Bytes) → (bytes_eq xs ys ≡ true) ↔ (xs ≡ ys)
bytes_eq_iff xs ys = (eq_of_bytes_eq xs ys, λ e. rw e (bytes_eq_refl ys))

pub bytes_lt_irrefl : (xs : Bytes) → bytes_lt xs xs ≡ false
unfolding bytes_lt
bytes_lt_irrefl [] = refl
bytes_lt_irrefl (x ∷ xs) = ground (arith, bytes_lt_irrefl xs)

pub bytes_lt_trans :
    (xs ys zs : Bytes) → bytes_lt xs ys ≡ true → bytes_lt ys zs ≡ true → bytes_lt xs zs ≡ true
unfolding bytes_lt
bytes_lt_trans xs ys [] h k = ground arith
bytes_lt_trans xs [] (z ∷ zs) h k = ground arith
bytes_lt_trans [] (y ∷ ys) (z ∷ zs) h k = refl
bytes_lt_trans (x ∷ xs) (y ∷ ys) (z ∷ zs) h k = ground (arith, bytes_lt_trans xs ys zs)

-- Two keys of which neither comes first are one key.
pub bytes_lt_connex : (xs ys : Bytes) → bytes_lt xs ys ≡ false → bytes_lt ys xs ≡ false → xs ≡ ys
unfolding bytes_lt
bytes_lt_connex [] [] h k = refl
bytes_lt_connex [] (y ∷ ys) h k = ground arith
bytes_lt_connex (x ∷ xs) [] h k = ground arith
bytes_lt_connex (x ∷ xs) (y ∷ ys) h k = ground (arith, bytes_lt_connex xs ys)

pub bytes_lt_asymm : (xs ys : Bytes) → bytes_lt xs ys ≡ true → bytes_lt ys xs ≡ false
bytes_lt_asymm xs ys h = ground (arith, bytes_lt_trans xs ys xs, bytes_lt_irrefl xs)

-- `≤` and then `<` is `<`, and `<` and then `≤` is `<`.
pub bytes_le_lt :
    (xs ys zs : Bytes) → bytes_lt ys xs ≡ false → bytes_lt ys zs ≡ true → bytes_lt xs zs ≡ true
bytes_le_lt xs ys zs h k = ground (arith, bytes_lt_trans xs ys zs, bytes_lt_connex xs ys)

pub bytes_lt_le :
    (xs ys zs : Bytes) → bytes_lt xs ys ≡ true → bytes_lt zs ys ≡ false → bytes_lt xs zs ≡ true
bytes_lt_le xs ys zs h k = ground (arith, bytes_lt_trans xs ys zs, bytes_lt_connex ys zs)

-- A common prefix does not change a comparison.
pub bytes_lt-append : (p xs ys : Bytes) → bytes_lt (p ++ xs) (p ++ ys) ≡ bytes_lt xs ys
unfolding bytes_lt
bytes_lt-append [] xs ys = refl
bytes_lt-append (b ∷ p) xs ys = ground (arith, bytes_lt-append p xs ys)

pub bytes_lt_nil : (xs ys : Bytes) → bytes_lt (xs ++ ys) xs ≡ false
unfolding bytes_lt
bytes_lt_nil [] ys = refl
bytes_lt_nil (x ∷ xs) ys = ground (arith, bytes_lt_nil xs ys)

pub starts_with-append : (p k : Bytes) → starts_with p (p ++ k) ≡ true
unfolding starts_with
starts_with-append [] k = refl
starts_with-append (x ∷ p) k = ground (arith, starts_with-append p k)

-- Of two prefixes of one length only the own one fits.
pub starts_with-ne : (p q k : Bytes) → length p ≡ length q → starts_with p (q ++ k) ≡ true → p ≡ q
unfolding starts_with
starts_with-ne [] [] k l h = refl
starts_with-ne [] (y ∷ q) k l h = absurd (omega arith)
starts_with-ne (x ∷ p) [] k l h = absurd (omega arith)
starts_with-ne (x ∷ p) (y ∷ q) k l h =
    let rest : starts_with p (q ++ k) ≡ true = ground arith in
    let same : x ≡ y = ground arith in let tail = starts_with-ne p q k (omega arith) rest in cc

pub bytes_ne_sym : (a b : Bytes) → bytes_eq a b ≡ false → bytes_eq b a ≡ false
bytes_ne_sym a b h = elim (Bool-cases (bytes_eq b a)) [
  | inl e ↦
      absurd (ground (arith, ap (λ x. bytes_eq a x) ((bytes_eq_iff b a).0 e), bytes_eq_refl a))
  | inr n ↦ n
]

pub lt_ne : (k j : Bytes) → bytes_lt k j ≡ true → bytes_eq j k ≡ false
lt_ne k j h = elim (Bool-cases (bytes_eq j k)) [
  | inl e ↦
      let same = (bytes_eq_iff j k).0 e in
      absurd (ground (arith, ap (λ x. bytes_lt k x) same, bytes_lt_irrefl k))
  | inr n ↦ n
]

pub gt_ne : (j k : Bytes) → bytes_lt j k ≡ true → bytes_eq j k ≡ false
gt_ne j k h = elim (Bool-cases (bytes_eq j k)) [
  | inl e ↦
      let same = (bytes_eq_iff j k).0 e in
      absurd (ground (arith, ap (λ x. bytes_lt x k) same, bytes_lt_irrefl k))
  | inr n ↦ n
]

pub bytes_eq-append : (p a b : Bytes) → bytes_eq (p ++ a) (p ++ b) ≡ bytes_eq a b
unfolding bytes_eq
bytes_eq-append [] a b = refl
bytes_eq-append (x ∷ p) a b = ground (arith, bytes_eq-append p a b)
