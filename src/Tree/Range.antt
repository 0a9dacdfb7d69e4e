-- ===== src/Tree/Range.antt =====
-- What a range of a tree holds, and what is left of it past one of its keys.
use mathlib.Core.List.{reverse-append}
use crossbank.Prelude.{
  ◌≡◌, refl, Bool, true, false, [], ◌∷◌, ◌++◌, reverse, arith, Bool-cases, inl, inr, All, keep,
  keep-All, All-keep, All-reverse, All-append,
}
use crossbank.Bytes.{Bytes, bytes_lt, bytes_lt_asymm, bytes_lt_irrefl}
use crossbank.Backend.Api.{
  Bound, unbounded, included, excluded, KeyRange, contains, above_start, below_end,
}
use crossbank.Tree.{Tree, range_panics, Ordered, IsSorted}

-- What both scan directions need of their order.
pub record IsStrict (before : Bytes → Bytes → Bool) : Type 0 where
  irrefl : (a : Bytes) → before a a ≡ false
  asymm : (a b : Bytes) → before a b ≡ true → before b a ≡ false

abbrev pub after : Bytes → Bytes → Bool
after a b = bytes_lt b a

pub bytes_lt-IsStrict : IsStrict bytes_lt
bytes_lt-IsStrict = record { irrefl = bytes_lt_irrefl; asymm = bytes_lt_asymm }

pub after-IsStrict : IsStrict after
after-IsStrict = record { irrefl = bytes_lt_irrefl; asymm = λ a b h. bytes_lt_asymm b a h }

module _ {ℓ} {V : Type ℓ} where
  pub keep-Ordered :
      (before : Bytes → Bytes → Bool) (p : Bytes × V → Bool) (t : Tree V)
      → Ordered before t
      → Ordered before (keep p t)
  unfolding keep
  keep-Ordered before p [] h = tt
  keep-Ordered before p ((k, v) ∷ t) h = elim (Bool-cases (p (k, v))) [
    | inl e ↦ rw e (All-keep (λ x. before k x.0 ≡ true) p t h.0, keep-Ordered before p t h.1)
    | inr e ↦ rw e (keep-Ordered before p t h.1)
  ]

  Ordered-snoc :
      (before : Bytes → Bytes → Bool) (t : Tree V) (k : Bytes) (v : V)
      → Ordered before t
      → All (λ e. before e.0 k ≡ true) t
      → Ordered before (t ++ (k, v) ∷ [])
  Ordered-snoc before [] k v h a = (tt, tt)
  Ordered-snoc before ((j, w) ∷ t) k v h a = (
    All-append (λ e. before j e.0 ≡ true) t ((k, v) ∷ []) h.0 (a.0, tt),
    Ordered-snoc before t k v h.1 a.1,
  )

  -- A descending walk meets the entries in the opposite order.
  pub reverse-Ordered : (t : Tree V) → IsSorted t → Ordered after (reverse t)
  reverse-Ordered [] h = tt
  reverse-Ordered ((k, v) ∷ t) h = rw (reverse-append ((k, v) ∷ []) t) (
      Ordered-snoc after (reverse t) k v (reverse-Ordered t h.1)
        (All-reverse (λ e. bytes_lt k e.0 ≡ true) t h.0))

  -- Past an entry of an ordered list lies what follows it, and nothing else.
  pub keep_past :
      (before : Bytes → Bytes → Bool)
      → IsStrict before
      → (pre : Tree V) (k : Bytes) (v : V) (post : Tree V) → Ordered before (pre ++ (k, v) ∷ post)
      → keep (λ e. before k e.0) (pre ++ (k, v) ∷ post) ≡ post
  unfolding keep
  keep_past before s [] k v post h = rw (s.irrefl k) (keep-All (λ e. before k e.0) post h.0)
  keep_past before s ((j, w) ∷ pre) k v post h =
      rw (s.asymm j k (last_of pre h.0)) (keep_past before s pre k v post h.1)
    where
      last_of :
          (pre : Tree V) → All (λ e. before j e.0 ≡ true) (pre ++ (k, v) ∷ post) → before j k ≡ true
      last_of [] a = a.0
      last_of (e ∷ pre) a = last_of pre a.1

  pub All-middle {κ} :
      (P : Bytes × V → Type κ) (pre : Tree V) (e : Bytes × V) (post : Tree V)
      → All P (pre ++ e ∷ post)
      → P e
  All-middle P [] e post a = a.0
  All-middle P (x ∷ pre) e post a = All-middle P pre e post a.1

-- A range that starts at or past a key below its end does not panic.
pub range_panics-below :
    (e : Bound Bytes) (k : Bytes)
    → below_end e k ≡ true
    → (range_panics (record { start = included k; finish = e }) ≡ false)
      × (range_panics (record { start = excluded k; finish = e }) ≡ false)
unfolding range_panics below_end
range_panics-below unbounded k h = (refl, refl)
range_panics-below (included e) k h = ground arith
range_panics-below (excluded e) k h = ground (arith, bytes_lt_asymm k e)

-- A range that resumes past one of its own keys does not panic.
pub range_panics-resume :
    (r : KeyRange) (k : Bytes)
    → contains r k ≡ true
    → range_panics (record r { start = excluded k }) ≡ false
unfolding range_panics contains below_end
range_panics-resume r k h = go r.finish (ground arith)
  where
    go :
        (e : Bound Bytes)
        → below_end e k ≡ true
        → range_panics (record { start = excluded k; finish = e }) ≡ false
    go unbounded b = refl
    go (included e) b = ground arith
    go (excluded e) b = ground arith

pub range_panics-resume_reverse :
    (r : KeyRange) (k : Bytes)
    → contains r k ≡ true
    → range_panics (record r { finish = excluded k }) ≡ false
unfolding range_panics contains above_start
range_panics-resume_reverse r k h = go r.start (ground arith)
  where
    go :
        (s : Bound Bytes)
        → above_start s k ≡ true
        → range_panics (record { start = s; finish = excluded k }) ≡ false
    go unbounded b = refl
    go (included s) b = ground arith
    go (excluded s) b = ground arith
