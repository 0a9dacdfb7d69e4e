-- ===== src/Locker/Inner/Walk/Keeps.antt =====
-- What every visit keeps, a walk keeps.
use crossbank.Prelude.{
  ℕ, zero, suc, ◌≡◌, Bool, Option, none, some, List, [], ◌∷◌, arith, subst, Bool-cases, inl, inr,
}
use crossbank.Error.{Result, ok, >>=-eq-ok, ok-inj}
use crossbank.Bytes.{Bytes}
use crossbank.Backend.Api.{Bound, KeyRange, records}
use crossbank.Backend.Memory
use crossbank.Backend.Memory.{MemoryBackend}
use crossbank.Key.{LockerId, decode_bytes, is_degenerate}
use crossbank.Locker.Inner.{Inner}
use crossbank.Locker.Inner.Walk.{visit_page, walk_pages, walk, past}

module _ {ℓ κ} {S : Type ℓ} (visit : S → Bytes → Option Bytes → Result S) (P : S → Type κ)
    (keeps : (s s' : S) (k : Bytes) (v : Option Bytes) → visit s k v ≡ ok s' → P s → P s') where
  visit_page-keeps :
      (id : LockerId) (items : List (Bytes × Option Bytes)) (s s' : S)
      → visit_page visit id s items ≡ ok s'
      → P s
      → P s'
  unfolding visit_page
  visit_page-keeps id [] s s' h p = subst P (ok-inj h) p
  visit_page-keeps id ((encoded, value) ∷ rest) s s' h p =
      let (key, _, h1) = >>=-eq-ok (decode_bytes id encoded) _ {y = s'} h in
      let (s1, v, h2) = >>=-eq-ok (visit s key value) _ {y = s'} h1 in
      visit_page-keeps id rest s1 s' h2 (keeps s s1 key value v p)

  walk_pages-keeps :
      (i : Inner) (b : MemoryBackend) (is_reverse want : Bool) (fuel : ℕ) (r : KeyRange) (s s' : S)
      → walk_pages visit i b is_reverse want fuel r s ≡ ok s'
      → P s
      → P s'
  unfolding walk_pages
  walk_pages-keeps i b is_reverse want zero r s s' h p = absurd (ground arith)
  walk_pages-keeps i b is_reverse want (suc fuel) r s s' h p =
      let (page, _, h1) =
        >>=-eq-ok
          (Memory.scan b (record {
            table = records;
            range = r;
            is_reverse = is_reverse;
            limit = i.scan_page;
            want_values = want;
          }))
          _ {y = s'} h in
      let (s1, v, h2) = >>=-eq-ok (visit_page visit i.id s page.items) _ {y = s'} h1 in
      go page.resume (visit_page-keeps i.id page.items s s1 v p) h2
        (walk_pages-keeps i b is_reverse want fuel)
    where
      go :
          {s1 : S} (resume : Option Bytes)
          → P s1
          → (elim resume [
            | none ↦ ok s1
            | some last ↦ walk_pages visit i b is_reverse want fuel (past is_reverse r last) s1
          ])
            ≡ ok s'
          → ((r : KeyRange) (s s' : S)
              → walk_pages visit i b is_reverse want fuel r s ≡ ok s'
              → P s
              → P s')
          → P s'
      go none p1 h ih = subst P (ok-inj h) p1
      go (some last) p1 h ih = ih (past is_reverse r last) _ s' h p1

  pub walk-keeps :
      (i : Inner) (b : MemoryBackend) (start finish : Bound Bytes) (is_reverse want : Bool)
      (s s' : S)
      → walk visit i b start finish is_reverse want s ≡ ok s'
      → P s
      → P s'
  unfolding walk
  walk-keeps i b start finish is_reverse want s s' h p =
      elim (Bool-cases (is_degenerate start finish)) [
        | inl e ↦ subst P (ok-inj (rw e at h)) p
        | inr n ↦ walk_pages-keeps i b is_reverse want _ _ s s' (rw n at h) p
      ]
