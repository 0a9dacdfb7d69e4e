-- ===== src/Backend/Memory/Paging.antt =====
-- Scans, page by page: what one page holds, and what the next page's range still covers.
use crossbank.Prelude.{
  ℕ, zero, suc, ◌+◌, ◌<◌, ◌≡◌, refl, ap, sym, ◌∙◌, Bool, true, false, ◌&&◌, Option, none, some,
  List, [], ◌∷◌, ◌++◌, arith, map, ltb, leb, length, length-append, length-map, lt→ltb, inl, inr,
  ◌⊎◌, keep-keep, keep-reverse, All, All-reverse, All-keep_self, reverse,
}
use mathlib.Core.List.{append_assoc, append-nil}
use crossbank.Error.{ok}
use crossbank.Bytes.{Bytes, bytes_lt, bytes_lt_asymm}
use crossbank.Tree.{Tree, range, range_panics, IsSorted}
use crossbank.Tree.Range.{
  after, bytes_lt-IsStrict, after-IsStrict, keep-Ordered, reverse-Ordered, keep_past, All-middle,
  range_panics-resume, range_panics-resume_reverse,
}
use crossbank.Backend.Api.{Table, excluded, KeyRange, contains, above_start, below_end, ScanRequest}
use crossbank.Backend.Memory.{collect, shown, in_direction, scan_tree}
use crossbank.Backend.Api.Ranges.{above_start-up, below_end-down}

-- The entries of a range in the order of a scan.
abbrev pub entries : Bool → KeyRange → Tree Bytes → Tree Bytes
entries is_reverse r tree = in_direction is_reverse (range r tree)

abbrev pub item : Bool → Bytes × Bytes → Bytes × Option Bytes
item want e = (e.0, shown want e.1)

-- What is left to scan after the page that ended at `k`.
abbrev pub resumed : Bool → KeyRange → Bytes → KeyRange
resumed true r k = record r { finish = excluded k }
resumed false r k = record r { start = excluded k }

-- A full page: `pre` and the entry `k` on it, `post` after it.
pub record Split (limit : ℕ) (xs pre : Tree Bytes) (k v : Bytes) (post : Tree Bytes) : Type 0 where
  pub parts : xs ≡ pre ++ (k, v) ∷ post
  pub full : length pre + 1 ≡ limit

has_room : (limit n : ℕ) → n < limit → leb limit n ≡ false
has_room limit n h = ground arith

module _ (want : Bool) where
  -- The loop takes what is left of the limit.
  collect_short :
      (limit : ℕ) (items : List (Bytes × Option Bytes)) (resume : Option Bytes) (xs : Tree Bytes)
      → length items + length xs < limit
      → (collect limit want items resume xs).0 ≡ items ++ map (item want) xs
  unfolding collect
  collect_short limit items resume [] h = sym (append-nil items)
  collect_short limit items resume ((k, v) ∷ xs) h =
      rw (has_room limit (length items) (omega arith)) (
        collect_short limit (items ++ ((k, shown want v) ∷ [])) (some k) xs
          (omega (arith, length-append items ((k, shown want v) ∷ [])))
        ∙ append_assoc items ((k, shown want v) ∷ []) (map (item want) xs))

  collect_stop :
      (limit : ℕ) (items : List (Bytes × Option Bytes)) (resume : Option Bytes) (xs : Tree Bytes)
      → length items ≡ limit
      → collect limit want items resume xs ≡ (items, resume)
  unfolding collect
  collect_stop limit items resume [] h = refl
  collect_stop limit items resume ((k, v) ∷ xs) h =
      let full : leb limit (length items) ≡ true = ground arith in rw full refl

  collect_full :
      (limit : ℕ) (items : List (Bytes × Option Bytes)) (resume : Option Bytes) (pre : Tree Bytes)
      (k v : Bytes) (post : Tree Bytes)
      → length items + length pre + 1 ≡ limit
      → collect limit want items resume (pre ++ (k, v) ∷ post)
        ≡ (items ++ map (item want) (pre ++ (k, v) ∷ []), some k)
  unfolding collect
  collect_full limit items resume [] k v post h = rw (has_room limit (length items) (omega arith)) (
      collect_stop limit (items ++ ((k, shown want v) ∷ [])) (some k) post
        (omega (arith, length-append items ((k, shown want v) ∷ []))))
  collect_full limit items resume ((j, w) ∷ pre) k v post h =
      rw (has_room limit (length items) (omega arith)) (
        collect_full limit (items ++ ((j, shown want w) ∷ [])) (some j) pre k v post
          (omega (arith, length-append items ((j, shown want w) ∷ [])))
        ∙ rw (append_assoc items ((j, shown want w) ∷ []) (map (item want) (pre ++ (k, v) ∷ [])))
            refl)

-- A list is shorter than the limit, or splits at the entry that fills the page.
pub Split-at :
    (limit : ℕ) (xs : Tree Bytes)
    → 0 < limit
    → (length xs < limit)
      ⊎ ((pre : Tree Bytes) × (k : Bytes) × (v : Bytes) × (post : Tree Bytes) × Split limit xs pre k
            v post)
Split-at zero xs h = absurd (omega arith)
Split-at (suc n) [] h = inl (omega arith)
Split-at (suc zero) ((k, v) ∷ xs) h =
    inr ([], k, v, xs, record { parts = refl; full = omega arith })
Split-at (suc (suc n)) ((k, v) ∷ xs) h = elim (Split-at (suc n) xs (omega arith)) [
  | inl short ↦ inl (omega arith)
  | inr (pre, j, w, post, s) ↦ inr (
    (k, v) ∷ pre,
    j,
    w,
    post,
    record { parts = ap (◌∷◌ (k, v)) s.parts; full = omega (arith, s.full) },
  )
]

-- The request for one page.
abbrev pub request : Table → KeyRange → Bool → ℕ → Bool → ScanRequest
request table r is_reverse limit want = record {
  table = table;
  range = r;
  is_reverse = is_reverse;
  limit = limit;
  want_values = want;
}

-- The last page: everything that the range still holds, and no resume key.
pub scan_tree_last :
    (tree : Tree Bytes) (table : Table) (r : KeyRange) (is_reverse want : Bool) (limit : ℕ)
    → range_panics r ≡ false
    → length (entries is_reverse r tree) < limit
    → scan_tree tree (request table r is_reverse limit want)
      ≡ ok (record { items = map (item want) (entries is_reverse r tree); resume = none })
unfolding scan_tree
scan_tree_last tree table r is_reverse want limit np h =
    rw
      (
        np,
        collect_short want limit [] none (entries is_reverse r tree) (omega arith),
        length-map (item want) (entries is_reverse r tree),
        lt→ltb _ _ h,
      )
      refl

not_short :
    (f : Bytes × Bytes → Bytes × Option Bytes) (limit : ℕ) (pre : Tree Bytes) (e : Bytes × Bytes)
    → length pre + 1 ≡ limit
    → ltb (length (map f (pre ++ e ∷ []))) limit ≡ false
not_short f limit pre e h = ground (arith, length-map f (pre ++ e ∷ []), length-append pre (e ∷ []))

pub scan_tree_full :
    (tree : Tree Bytes) (table : Table) (r : KeyRange) (is_reverse want : Bool) (limit : ℕ)
    (pre : Tree Bytes) (k v : Bytes) (post : Tree Bytes)
    → range_panics r ≡ false
    → Split limit (entries is_reverse r tree) pre k v post
    → scan_tree tree (request table r is_reverse limit want)
      ≡ ok (record { items = map (item want) (pre ++ (k, v) ∷ []); resume = some k })
unfolding scan_tree
scan_tree_full tree table r is_reverse want limit pre k v post np s =
    rw (np, s.parts, collect_full want limit [] none pre k v post (omega (arith, s.full)))
      (rw (not_short (item want) limit pre (k, v) s.full) refl)

-- To resume past an own key is to test for the rest of the range.
resume_test :
    (r : KeyRange) (k x : Bytes)
    → contains r k ≡ true
    → contains (record r { start = excluded k }) x ≡ (contains r x && bytes_lt k x)
unfolding contains
resume_test r k x h =
    unfold above_start in ground (arith, above_start-up r.start x k, bytes_lt_asymm k x)

resume_test_reverse :
    (r : KeyRange) (k x : Bytes)
    → contains r k ≡ true
    → contains (record r { finish = excluded k }) x ≡ (contains r x && bytes_lt x k)
unfolding contains
resume_test_reverse r k x h =
    unfold below_end in ground (arith, below_end-down r.finish x k, bytes_lt_asymm x k)

-- Every entry of a range lies in it.
range_contains :
    (tree : Tree Bytes) (r : KeyRange) (is_reverse : Bool)
    → All (λ e. contains r e.0 ≡ true) (entries is_reverse r tree)
unfolding range in_direction
range_contains tree r true =
    All-reverse (λ e. contains r e.0 ≡ true) (range r tree)
      (All-keep_self (λ e. contains r e.0) tree)
range_contains tree r false = All-keep_self (λ e. contains r e.0) tree

-- The next page's range covers what the page left over, and does not panic.
pub entries-resumed :
    (tree : Tree Bytes) (r : KeyRange) (is_reverse : Bool) (pre : Tree Bytes) (k v : Bytes)
    (post : Tree Bytes)
    → IsSorted tree
    → entries is_reverse r tree ≡ pre ++ (k, v) ∷ post
    → (entries is_reverse (resumed is_reverse r k) tree ≡ post)
      × (range_panics (resumed is_reverse r k) ≡ false)
unfolding range in_direction
entries-resumed tree r is_reverse pre k v post o e = go is_reverse e inside
  where
    inside : contains r k ≡ true
    inside =
        All-middle (λ e. contains r e.0 ≡ true) pre (k, v) post
          (rw e at (range_contains tree r is_reverse))

    go :
        (d : Bool)
        → entries d r tree ≡ pre ++ (k, v) ∷ post
        → contains r k ≡ true
        → (entries d (resumed d r k) tree ≡ post) × (range_panics (resumed d r k) ≡ false)
    go false e h = (
      keep-keep (λ e. contains r e.0) (λ e. bytes_lt k e.0)
            (λ e. contains (record r { start = excluded k }) e.0) (λ e. resume_test r k e.0 h) tree
          ∙ rw e (
              keep_past bytes_lt bytes_lt-IsStrict pre k v post
                (rw e at (keep-Ordered bytes_lt (λ e. contains r e.0) tree o))),
      range_panics-resume r k h,
    )
    go true e h = (
      ap reverse (
            keep-keep (λ e. contains r e.0) (λ e. bytes_lt e.0 k)
              (λ e. contains (record r { finish = excluded k }) e.0)
              (λ e. resume_test_reverse r k e.0 h) tree)
          ∙ sym (keep-reverse (λ e. bytes_lt e.0 k) (range r tree))
          ∙ rw e (
              keep_past after after-IsStrict pre k v post (
                rw e at (
                  reverse-Ordered (range r tree)
                    (keep-Ordered bytes_lt (λ e. contains r e.0) tree o)))),
      range_panics-resume_reverse r k h,
    )
