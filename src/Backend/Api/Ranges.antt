-- ===== src/Backend/Api/Ranges.antt =====
-- What `KeyRange::prefix` covers: exactly the keys that begin with the prefix.
use mathlib.Core.List.{reverse-append}
use crossbank.Prelude.{
  ℕ, ◌+◌, ◌==◌, ◌≡◌, refl, ◌∙◌, Bool, true, false, ◌&&◌, Option, none, some, [], ◌∷◌, ◌++◌, reverse,
  if◌then◌else◌, arith,
}
use crossbank.Bytes.{
  Bytes, IsBytes, bytes_lt, bytes_le, starts_with, bytes_lt_le, bytes_le_lt, bytes_lt_connex,
}
use crossbank.Backend.Api.{
  Bound, unbounded, included, excluded, above_start, bump, prefix_end, prefix, below_end, contains,
}

-- The least string above every string with the prefix, from the front.
push : ℕ → Option Bytes → Option Bytes
push x none = if x == 0xff then none else some ((x + 1) ∷ [])
push x (some s) = some (x ∷ s)

successor : Bytes → Option Bytes
successor [] = none
successor (x ∷ xs) = push x (successor xs)

bump-snoc : (r : Bytes) (x : ℕ) → bump (r ++ x ∷ []) ≡ push x (bump r)
unfolding bump push
bump-snoc [] x = refl
bump-snoc (l ∷ r) x = ground (arith, bump-snoc r x, reverse-append ((l + 1) ∷ r) (x ∷ []))

bump-reverse : (p : Bytes) → bump (reverse p) ≡ successor p
unfolding successor
bump-reverse [] = unfold bump in refl
bump-reverse (x ∷ xs) =
    rw (reverse-append (x ∷ []) xs, bump-snoc (reverse xs) x, bump-reverse xs) refl

below : Bytes → Option Bytes → Bool
below k none = true
below k (some s) = bytes_lt k s

successor_lem :
    (p k : Bytes)
    → IsBytes p
    → IsBytes k
    → (bytes_le p k && below k (successor p)) ≡ starts_with p k
unfolding successor push below bytes_lt starts_with
successor_lem [] k hp hk = refl
successor_lem (x ∷ xs) [] hp hk = refl
successor_lem (x ∷ xs) (y ∷ ys) hp hk = ground (arith, successor_lem xs ys hp.1 hk.1)

-- A key lies in `KeyRange::prefix(p)` exactly when it begins with `p`, also where `p` ends in 0xFF
-- bytes or holds nothing else.
pub contains-prefix :
    (p k : Bytes) → IsBytes p → IsBytes k → contains (prefix p) k ≡ starts_with p k
contains-prefix p k hp hk =
    unfold contains prefix in rw (bump-reverse p) (ends (successor p) ∙ successor_lem p k hp hk)
  where
    ends :
        (s : Option Bytes)
        → (bytes_le p k && below_end (prefix_end s) k) ≡ (bytes_le p k && below k s)
    ends none = unfold below_end prefix_end below in refl
    ends (some s) = unfold below_end prefix_end below in refl

-- A bound that admits a key admits what lies further inside.
pub below_end-down :
    (e : Bound Bytes) (x y : Bytes)
    → bytes_lt y x ≡ false
    → below_end e y ≡ true
    → below_end e x ≡ true
unfolding below_end
below_end-down unbounded x y h b = refl
below_end-down (included e) x y h b = ground (arith, bytes_lt_le e x y, bytes_lt_connex x y)
below_end-down (excluded e) x y h b = bytes_le_lt x y e h (ground arith)

pub above_start-up :
    (s : Bound Bytes) (x y : Bytes)
    → bytes_lt x y ≡ false
    → above_start s y ≡ true
    → above_start s x ≡ true
unfolding above_start
above_start-up unbounded x y h b = refl
above_start-up (included s) x y h b = ground (arith, bytes_le_lt y x s, bytes_lt_connex x y)
above_start-up (excluded s) x y h b = bytes_lt_le s y x (ground arith) h
