-- ===== src/Locker/Inner/Walk/Complete.antt =====
-- A walk visits every record of its range once, in order, whatever the page size.
use crossbank.Prelude.{
  ℕ, zero, suc, ◌<◌, ◌≡◌, refl, ap, sym, ◌∙◌, Bool, false, Option, none, some, List, [], ◌∷◌, ◌++◌,
  map, arith, length, length-append, inl, inr,
}
use mathlib.Core.List.{map-append, append_assoc}
use crossbank.Error.{Result, ok, ◌>>=◌, >>=_assoc, >>=-cong, >>=-ok}
use crossbank.Bytes.{Bytes}
use crossbank.Backend.Api.{KeyRange, records, ScanPage}
use crossbank.Backend.Memory
use crossbank.Backend.Memory.{MemoryBackend, in_direction, tree_of, scan_tree}
use crossbank.Backend.Memory.Opened.{scan_open}
use crossbank.Backend.Memory.Paging.{
  entries, item, resumed, Split, Split-at, request, scan_tree_last, scan_tree_full, entries-resumed,
}
use crossbank.Tree.{Tree, IsSorted, range_panics}
use crossbank.Key.{LockerId, decode_bytes}
use crossbank.Locker.Inner.{Inner}
use crossbank.Locker.Inner.Walk.{visit_page, past, walk_pages}
use crossbank.Locker.Inner.Walk.Pages.{past-resumed}

module _ {ℓ} {S : Type ℓ} (visit : S → Bytes → Option Bytes → Result S) where
  visit_page-append :
      (id : LockerId) (s : S) (xs ys : List (Bytes × Option Bytes))
      → visit_page visit id s (xs ++ ys)
        ≡ (visit_page visit id s xs >>= λ s'. visit_page visit id s' ys)
  unfolding visit_page
  visit_page-append id s [] ys = refl
  visit_page-append id s ((e, v) ∷ xs) ys =
      >>=-cong (decode_bytes id e) _ _ (λ k.
        >>=-cong (visit s k v) _ _ (λ s'. visit_page-append id s' xs ys)
        ∙ >>=_assoc (visit s k v) (λ s'. visit_page visit id s' xs)
            (λ s'. visit_page visit id s' ys))
      ∙ >>=_assoc (decode_bytes id e) (λ k. visit s k v >>= λ s'. visit_page visit id s' xs)
          (λ s'. visit_page visit id s' ys)

  module _ (i : Inner) (b : MemoryBackend) (opened : b.is_closed ≡ false) (is_reverse want : Bool)
      (o : IsSorted b.tables.records) (pages : 0 < i.scan_page) where
    abbrev visited : KeyRange → S → Result S
    visited r s = visit_page visit i.id s (map (item want) (entries is_reverse r b.tables.records))

    scanned :
        (r : KeyRange)
        → Memory.scan b (request records r is_reverse i.scan_page want)
          ≡ scan_tree b.tables.records (request records r is_reverse i.scan_page want)
    unfolding tree_of
    scanned r = scan_open b opened (request records r is_reverse i.scan_page want)

    -- What the loop does with a page.
    abbrev after_page : ℕ → KeyRange → S → ScanPage → Result S
    after_page fuel r s page = do
      s' ← visit_page visit i.id s page.items
      elim page.resume [
        | none ↦ ok s'
        | some last ↦ walk_pages visit i b is_reverse want fuel (past is_reverse r last) s'
      ]

    page_last :
        (fuel : ℕ) (r : KeyRange) (s : S)
        → range_panics r ≡ false
        → length (entries is_reverse r b.tables.records) < i.scan_page
        → walk_pages visit i b is_reverse want (suc fuel) r s ≡ visited r s
    unfolding walk_pages
    page_last fuel r s np short =
        ap (λ m. m >>= after_page fuel r s)
          (scanned r
            ∙ scan_tree_last b.tables.records records r is_reverse want i.scan_page np short)
        ∙ >>=-ok (visited r s)

    page_full :
        (fuel : ℕ) (r : KeyRange) (s : S) (pre : Tree Bytes) (k v : Bytes) (post : Tree Bytes)
        → range_panics r ≡ false
        → Split i.scan_page (entries is_reverse r b.tables.records) pre k v post
        → walk_pages visit i b is_reverse want (suc fuel) r s ≡ (
            visit_page visit i.id s (map (item want) (pre ++ (k, v) ∷ [])) >>= λ s'.
            walk_pages visit i b is_reverse want fuel (past is_reverse r k) s')
    unfolding walk_pages
    page_full fuel r s pre k v post np split =
        ap (λ m. m >>= after_page fuel r s)
          (scanned r
            ∙ scan_tree_full b.tables.records records r is_reverse want i.scan_page pre k v post np
                split)

    joined :
        (r : KeyRange) (s : S) (pre : Tree Bytes) (k v : Bytes) (post : Tree Bytes)
        → entries is_reverse r b.tables.records ≡ pre ++ (k, v) ∷ post
        → (visit_page visit i.id s (map (item want) (pre ++ (k, v) ∷ [])) >>= λ s'.
            visit_page visit i.id s' (map (item want) post))
          ≡ visited r s
    joined r s pre k v post e =
        sym (visit_page-append i.id s (map (item want) (pre ++ (k, v) ∷ [])) (map (item want) post))
        ∙ ap (visit_page visit i.id s) (
            sym (map-append (item want) (pre ++ (k, v) ∷ []) post)
            ∙ ap (map (item want)) (append_assoc pre ((k, v) ∷ []) post ∙ sym e))

    -- Enough fuel visits the whole range, page after page.
    pub walk_pages_lem :
        (fuel : ℕ) (r : KeyRange) (s : S)
        → range_panics r ≡ false
        → length (entries is_reverse r b.tables.records) < fuel
        → walk_pages visit i b is_reverse want fuel r s ≡ visited r s
    walk_pages_lem zero r s np h = absurd (omega arith)
    walk_pages_lem (suc fuel) r s np h =
        elim (Split-at i.scan_page (entries is_reverse r b.tables.records) pages) [
          | inl short ↦ page_last fuel r s np short
          | inr (pre, k, v, post, split) ↦
              let (next, np') =
                entries-resumed b.tables.records r is_reverse pre k v post o split.parts in
              let fewer : length (entries is_reverse (resumed is_reverse r k) b.tables.records)
                  < fuel =
                rw next (omega (arith, ap length split.parts, length-append pre ((k, v) ∷ post))) in
              let step : (s' : S)
                  → walk_pages visit i b is_reverse want fuel (past is_reverse r k) s'
                    ≡ visit_page visit i.id s' (map (item want) post) =
                λ s'.
                  ap (λ q. walk_pages visit i b is_reverse want fuel q s')
                    (past-resumed is_reverse r k)
                  ∙ walk_pages_lem fuel (resumed is_reverse r k) s' np' fewer
                  ∙ ap (λ t. visit_page visit i.id s' (map (item want) t)) next in
              page_full fuel r s pre k v post np split
              ∙ >>=-cong (visit_page visit i.id s (map (item want) (pre ++ (k, v) ∷ []))) _ _ step
              ∙ joined r s pre k v post split.parts
        ]
