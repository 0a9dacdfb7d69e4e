-- ===== src/Locker/Inner/Walk/Pages.antt =====
-- One page of a scan, and the range that the walk resumes with: together they are the whole range.
use crossbank.Prelude.{
  ℕ, ◌+◌, ◌<◌, ◌≡◌, refl, ap, sym, ◌∙◌, Bool, true, false, Option, none, some, List, ◌∷◌, ◌++◌, [],
  map, keep, reverse, length, length-append, length-map, inl, inr, ◌⊎◌, if◌then◌else◌,
}
use mathlib.Core.List.{map-append, append_assoc}
use crossbank.Error.{ok}
use crossbank.Bytes.{Bytes}
use crossbank.Tree.{Tree, IsSorted, range, range_panics}
use crossbank.Backend.Api.{Table, KeyRange, contains, ScanPage}
use crossbank.Backend.Memory
use crossbank.Backend.Memory.{MemoryBackend, in_direction, tree_of, scan_tree, shown}
use crossbank.Backend.Memory.Opened.{scan_open}
use crossbank.Backend.Memory.Paging.{
  entries, item, resumed, Split-at, request, scan_tree_last, scan_tree_full, entries-resumed,
}
use crossbank.Locker.Inner.Walk.{past}

pub past-resumed : (d : Bool) (r : KeyRange) (k : Bytes) → past d r k ≡ resumed d r k
unfolding past
past-resumed true r k = refl
past-resumed false r k = refl

-- What a scan is to answer: the entries that the range contains, in key order or against it, with their
-- values where they are wanted.
abbrev pub in_order : Bool → Tree Bytes → Tree Bytes
in_order true t = reverse t
in_order false t = t

abbrev pub answer : Bool → Bool → KeyRange → Tree Bytes → List (Bytes × Option Bytes)
answer is_reverse want r tree =
    map (λ e. (e.0, if want then some e.1 else none))
      (in_order is_reverse (keep (λ e. contains r e.0) tree))

entries-answer :
    (is_reverse want : Bool) (r : KeyRange) (tree : Tree Bytes)
    → map (item want) (entries is_reverse r tree) ≡ answer is_reverse want r tree
unfolding range in_direction
entries-answer true true r tree = refl
entries-answer true false r tree = refl
entries-answer false true r tree = refl
entries-answer false false r tree = refl

-- A page that ends the answer, or one that is full and whose resume key leaves the rest of it.
abbrev pub Pages : Bool → Bool → ℕ → KeyRange → Tree Bytes → ScanPage → Type 0
Pages is_reverse want limit r tree page =
    ((page.resume ≡ none) × (page.items ≡ answer is_reverse want r tree))
    ⊎ ((last : Bytes) × (page.resume ≡ some last)
        × (length page.items ≡ limit)
        × (range_panics (past is_reverse r last) ≡ false)
        × (page.items ++ answer is_reverse want (past is_reverse r last) tree
            ≡ answer is_reverse want r tree))

-- A scan answers with a page, in key order or against it, with values or without: either the page
-- is all that the range contains and has no resume key, or it is full, and what it holds, followed
-- by what a scan of the range that the walk resumes with past the page's resume key would answer,
-- is all that the range contains; that range does not make the tree panic either. The backend is
-- open, the table is in key order, the range does not make the tree panic, and the limit is above
-- zero.
pub scan-past :
    (b : MemoryBackend) (table : Table) (r : KeyRange) (is_reverse want : Bool) (limit : ℕ)
    → b.is_closed ≡ false
    → IsSorted (tree_of b.tables table)
    → range_panics r ≡ false
    → 0 < limit
    → (page : ScanPage) × (Memory.scan b (request table r is_reverse limit want) ≡ ok page)
      × Pages is_reverse want limit r (tree_of b.tables table) page
scan-past b table r is_reverse want limit opened o np pos =
    elim (Split-at limit (entries is_reverse r (tree_of b.tables table)) pos) [
      | inl short ↦ (
        _,
        scan_open b opened (request table r is_reverse limit want)
            ∙ scan_tree_last (tree_of b.tables table) table r is_reverse want limit np short,
        inl (refl, entries-answer is_reverse want r (tree_of b.tables table)),
      )
      | inr (pre, k, v, post, split) ↦
          let tree = tree_of b.tables table in
          let same = past-resumed is_reverse r k in
          let (next, np') = entries-resumed tree r is_reverse pre k v post o split.parts in
          (
            _,
            scan_open b opened (request table r is_reverse limit want)
                ∙ scan_tree_full tree table r is_reverse want limit pre k v post np split,
            inr (
              k,
              refl,
              full limit pre k v split.full,
              ap range_panics same ∙ np',
              ap (λ q. map (item want) (pre ++ (k, v) ∷ []) ++ answer is_reverse want q tree) same
                  ∙ joined r (resumed is_reverse r k) pre (k, v) post split.parts next,
            ),
          )
    ]
  where
    joined :
        (r r' : KeyRange) (pre : Tree Bytes) (e : Bytes × Bytes) (post : Tree Bytes)
        → entries is_reverse r (tree_of b.tables table) ≡ pre ++ e ∷ post
        → entries is_reverse r' (tree_of b.tables table) ≡ post
        → map (item want) (pre ++ e ∷ []) ++ answer is_reverse want r' (tree_of b.tables table)
          ≡ answer is_reverse want r (tree_of b.tables table)
    joined r r' pre e post parts next =
        ap (λ l. map (item want) (pre ++ e ∷ []) ++ l)
          (sym (entries-answer is_reverse want r' (tree_of b.tables table))
            ∙ ap (map (item want)) next)
        ∙ sym (map-append (item want) (pre ++ e ∷ []) post)
        ∙ ap (map (item want)) (append_assoc pre (e ∷ []) post ∙ sym parts)
        ∙ entries-answer is_reverse want r (tree_of b.tables table)

    full :
        (limit : ℕ) (pre : Tree Bytes) (k v : Bytes)
        → length pre + 1 ≡ limit
        → length (map (item want) (pre ++ (k, v) ∷ [])) ≡ limit
    full limit pre k v h =
        length-map (item want) (pre ++ (k, v) ∷ []) ∙ length-append pre ((k, v) ∷ []) ∙ h
