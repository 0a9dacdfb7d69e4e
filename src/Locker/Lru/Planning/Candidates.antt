-- ===== src/Locker/Lru/Planning/Candidates.antt =====
-- The candidates of a plan: their keys differ, and each weighs what its key accounts for.
use crossbank.Prelude.{
  ◌≡◌, refl, ap, ◌∙◌, Bool, true, false, some, List, [], ◌∷◌, ◌++◌, map, arith, any, keep, All,
  All-append, All-keep, All-keep_self, Bool-cases, inl, inr,
}
use crossbank.Bytes.{Bytes, bytes_eq, bytes_lt, bytes_eq_refl, gt_ne, bytes_ne_sym}
use crossbank.Tree
use crossbank.Tree.{Tree, IsSorted, Ordered}
use crossbank.Tree.Laws.{get-insert}
use crossbank.Tree.Range.{keep-Ordered}
use crossbank.Locker.Lru.Entries.{Entry}
use crossbank.Locker.Lru.State.{bytes_of, is_in, remove_keys}
use crossbank.Locker.Lru.Planning.{candidate, is_spare, candidates, insert_all}
use crossbank.Locker.Lru.Planning.Sums.{Apart, Distinct, keys_of}
use crossbank.Locker.Lru.Planning.Shedding.{DistinctKeys, Weighed, get-remove_keys, get-insert_all}

-- An entry of a sorted tree is what its key reads.
AboveAll-get :
    (k : Bytes) (e : Entry) (t x : Tree Entry)
    → All (λ y. bytes_lt k y.0 ≡ true) x
    → All (λ y. Tree.get y.0 t ≡ some y.1) x
    → All (λ y. Tree.get y.0 ((k, e) ∷ t) ≡ some y.1) x
unfolding Tree.get
AboveAll-get k e t [] a g = tt
AboveAll-get k e t (y ∷ x) a g = (rw (gt_ne k y.0 a.0) g.0, AboveAll-get k e t x a.1 g.1)

get_self : (t : Tree Entry) → IsSorted t → All (λ y. Tree.get y.0 t ≡ some y.1) t
unfolding Tree.get
get_self [] s = tt
get_self ((k, e) ∷ t) s = (rw (bytes_eq_refl k) refl, AboveAll-get k e t t s.0 (get_self t s.1))

-- An update of distinct keys is what its key reads afterwards.
is_in-Apart : (k : Bytes) (ks : List Bytes) → Apart k ks → is_in k ks ≡ false
unfolding is_in any
is_in-Apart k [] a = refl
is_in-Apart k (j ∷ ks) a = rw (bytes_ne_sym k j a.0) (is_in-Apart k ks a.1)

get-updated :
    (us : List (Bytes × Entry)) (t : Tree Entry)
    → Distinct (keys_of us)
    → All (λ u. Tree.get u.0 (insert_all us t) ≡ some u.1) us
unfolding insert_all
get-updated [] t d = tt
get-updated ((k, e) ∷ us) t d = (
  get-insert_all k us (Tree.insert k e t) (is_in-Apart k (keys_of us) d.0)
      ∙ rw (get-insert k k e t, bytes_eq_refl k) refl,
  get-updated us (Tree.insert k e t) d.1,
)

module _ (t : Tree Entry) (sorted : IsSorted t) (us : List (Bytes × Entry))
    (different : Distinct (keys_of us)) (rs keep_keys : List Bytes) where
  abbrev after : Tree Entry
  after = insert_all us (remove_keys rs t)

  abbrev spare : Bytes → Bool
  spare = is_spare rs us keep_keys

  spare-Weighed :
      (x : Tree Entry)
      → All (λ y. Tree.get y.0 t ≡ some y.1) x
      → All (λ y. spare y.0 ≡ true) x
      → Weighed after (map candidate x)
  unfolding is_spare
  spare-Weighed [] g p = tt
  spare-Weighed ((k, e) ∷ x) g p =
      let not_updated : is_in k (keys_of us) ≡ false = ground arith in
      let not_removed : is_in k rs ≡ false = ground arith in
      (
        ap bytes_of (
            get-insert_all k us (remove_keys rs t) not_updated
            ∙ get-remove_keys k rs t not_removed
            ∙ g.0),
        spare-Weighed x g.1 p.1,
      )

  updated-Weighed :
      (x : List (Bytes × Entry))
      → All (λ u. Tree.get u.0 after ≡ some u.1) x
      → Weighed after (map candidate x)
  updated-Weighed [] g = tt
  updated-Weighed (u ∷ x) g = (ap bytes_of g.0, updated-Weighed x g.1)

  pub candidates-Weighed : Weighed after (candidates t us rs keep_keys)
  unfolding candidates
  candidates-Weighed =
      All-append (λ c. bytes_of (Tree.get c.key after) ≡ c.bytes) _ _
        (spare-Weighed _
          (All-keep (λ y. Tree.get y.0 t ≡ some y.1) (λ e. spare e.0) t (get_self t sorted))
          (All-keep_self (λ e. spare e.0) t))
        (updated-Weighed _ (
          All-keep (λ u. Tree.get u.0 after ≡ some u.1) _ us
            (get-updated us (remove_keys rs t) different)))

  ordered-DistinctKeys : (x : Tree Entry) → IsSorted x → DistinctKeys (map candidate x)
  ordered-DistinctKeys [] s = tt
  ordered-DistinctKeys ((k, e) ∷ x) s = (apart_from k x s.0, ordered-DistinctKeys x s.1)
    where
      apart_from :
          (k : Bytes) (x : Tree Entry)
          → All (λ y. bytes_lt k y.0 ≡ true) x
          → All (λ d. bytes_eq k d.key ≡ false) (map candidate x)
      apart_from k [] a = tt
      apart_from k (y ∷ x) a = (gt_ne k y.0 a.0, apart_from k x a.1)

  Apart-kept :
      (p : Bytes × Entry → Bool) (k : Bytes) (x : List (Bytes × Entry))
      → Apart k (keys_of x)
      → All (λ d. bytes_eq k d.key ≡ false) (map candidate (keep p x))
  unfolding keep
  Apart-kept p k [] a = tt
  Apart-kept p k (u ∷ x) a = elim (Bool-cases (p u)) [
    | inl e ↦ rw e (a.0, Apart-kept p k x a.1)
    | inr n ↦ rw n (Apart-kept p k x a.1)
  ]

  updates-DistinctKeys :
      (p : Bytes × Entry → Bool) (x : List (Bytes × Entry))
      → Distinct (keys_of x)
      → DistinctKeys (map candidate (keep p x))
  unfolding keep
  updates-DistinctKeys p [] d = tt
  updates-DistinctKeys p (u ∷ x) d = elim (Bool-cases (p u)) [
    | inl e ↦ rw e (Apart-kept p u.0 x d.0, updates-DistinctKeys p x d.1)
    | inr n ↦ rw n (updates-DistinctKeys p x d.1)
  ]

  Apart-not_in :
      (k : Bytes) (x : List (Bytes × Entry)) → is_in k (keys_of x) ≡ false → Apart k (keys_of x)
  unfolding is_in any
  Apart-not_in k [] h = tt
  Apart-not_in k (u ∷ x) h =
      let apart : bytes_eq u.0 k ≡ false = ground arith in
      let rest : any (λ j. bytes_eq j k) (keys_of x) ≡ false = ground arith in
      (bytes_ne_sym u.0 k apart, Apart-not_in k x rest)

  joined :
      (p : Bytes × Entry → Bool) (x : Tree Entry)
      → All (λ y. spare y.0 ≡ true) x
      → DistinctKeys (map candidate x)
      → DistinctKeys (map candidate x ++ map candidate (keep p us))
  unfolding is_spare
  joined p [] a d = updates-DistinctKeys p us different
  joined p (y ∷ x) a d =
      let not_updated : is_in y.0 (keys_of us) ≡ false = ground arith in
      (
        All-append (λ d. bytes_eq y.0 d.key ≡ false) (map candidate x) (map candidate (keep p us))
            d.0 (Apart-kept p y.0 us (Apart-not_in y.0 us not_updated)),
        joined p x a.1 d.1,
      )

  pub candidates-DistinctKeys : DistinctKeys (candidates t us rs keep_keys)
  unfolding candidates
  candidates-DistinctKeys = joined _ (keep (λ e. spare e.0) t) (All-keep_self (λ e. spare e.0) t) (
      ordered-DistinctKeys (keep (λ e. spare e.0) t)
        (keep-Ordered bytes_lt (λ e. spare e.0) t sorted))
