-- ===== src/Locker/Lru/Planning/Shedding.antt =====
-- Shedding candidates of different keys takes from the total what the tree loses.
use crossbank.Prelude.{
  ℕ, ◌-◌, ◌≡◌, refl, ◌∙◌, false, List, [], ◌∷◌, arith, leb, any, All, Bool-cases, inl, inr,
}
use crossbank.Bytes.{Bytes, bytes_eq, bytes_ne_sym}
use crossbank.Tree
use crossbank.Tree.{Tree, IsSorted, Ordered}
use crossbank.Tree.Laws.{get-insert, get-remove, insert-IsSorted, remove-IsSorted}
use crossbank.Locker.Lru.Entries.{Entry}
use crossbank.Locker.Lru.State.{bytes_of, sum_bytes, is_in, remove_keys}
use crossbank.Locker.Lru.Planning.{Candidate, sheds_before, insert_sorted, sort, shed, insert_all}
use crossbank.Locker.Lru.Planning.Victims.{insert_sorted-All, sort-All}
use crossbank.Locker.Lru.Planning.Sums.{keys_of, sum-remove}

-- Candidates of different keys.
abbrev pub DistinctKeys : List Candidate → Type 0
DistinctKeys [] = Unit
DistinctKeys (c ∷ cs) = All (λ d. bytes_eq c.key d.key ≡ false) cs × DistinctKeys cs

insert_sorted-DistinctKeys :
    (c : Candidate) (cs : List Candidate)
    → All (λ d. bytes_eq c.key d.key ≡ false) cs
    → DistinctKeys cs
    → DistinctKeys (insert_sorted c cs)
unfolding insert_sorted
insert_sorted-DistinctKeys c [] a d = (tt, tt)
insert_sorted-DistinctKeys c (x ∷ xs) a d = elim (Bool-cases (sheds_before x c)) [
  | inl e ↦ rw e (
    insert_sorted-All (λ y. bytes_eq x.key y.key ≡ false) c xs (bytes_ne_sym c.key x.key a.0) d.0,
    insert_sorted-DistinctKeys c xs a.1 d.1,
  )
  | inr n ↦ rw n (a, d)
]

pub sort-DistinctKeys : (cs : List Candidate) → DistinctKeys cs → DistinctKeys (sort cs)
unfolding sort
sort-DistinctKeys [] d = tt
sort-DistinctKeys (c ∷ cs) d =
    insert_sorted-DistinctKeys c (sort cs) (sort-All (λ y. bytes_eq c.key y.key ≡ false) cs d.0)
      (sort-DistinctKeys cs d.1)

-- The bytes of a candidate are those that the tree accounts for under its key.
abbrev pub Weighed : Tree Entry → List Candidate → Type 0
Weighed t = All (λ c. bytes_of (Tree.get c.key t) ≡ c.bytes)

Weighed-remove :
    (k : Bytes) (t : Tree Entry) (cs : List Candidate)
    → All (λ d. bytes_eq k d.key ≡ false) cs
    → Weighed t cs
    → Weighed (Tree.remove k t) cs
Weighed-remove k t [] a w = tt
Weighed-remove k t (c ∷ cs) a w =
    (rw (get-remove k c.key t, a.0) w.0, Weighed-remove k t cs a.1 w.1)

pub shed-sum :
    (budget : ℕ) (cs : List Candidate) (t : Tree Entry)
    → IsSorted t
    → DistinctKeys cs
    → Weighed t cs
    → (shed budget (sum_bytes t) cs).total
      ≡ sum_bytes (remove_keys (shed budget (sum_bytes t) cs).victims t)
unfolding shed remove_keys
shed-sum budget [] t s d w = refl
shed-sum budget (c ∷ cs) t s d w = elim (Bool-cases (leb (sum_bytes t) budget)) [
  | inl e ↦ rw e refl
  | inr n ↦
      let left : sum_bytes t - c.bytes ≡ sum_bytes (Tree.remove c.key t) =
        omega (arith, sum-remove c.key t s, w.0) in
      rw (n, left)
        (shed-sum budget cs (Tree.remove c.key t) (remove-IsSorted c.key t s) d.1
          (Weighed-remove c.key t cs d.0 w.1))
]

pub remove_keys-IsSorted :
    (ks : List Bytes) (t : Tree Entry) → IsSorted t → IsSorted (remove_keys ks t)
unfolding remove_keys
remove_keys-IsSorted [] t s = s
remove_keys-IsSorted (k ∷ ks) t s =
    remove_keys-IsSorted ks (Tree.remove k t) (remove-IsSorted k t s)

pub insert_all-IsSorted :
    (us : List (Bytes × Entry)) (t : Tree Entry) → IsSorted t → IsSorted (insert_all us t)
unfolding insert_all
insert_all-IsSorted [] t s = s
insert_all-IsSorted ((k, e) ∷ us) t s =
    insert_all-IsSorted us (Tree.insert k e t) (insert-IsSorted k e t s)

pub get-remove_keys :
    (k : Bytes) (ks : List Bytes) (t : Tree Entry)
    → is_in k ks ≡ false
    → Tree.get k (remove_keys ks t) ≡ Tree.get k t
unfolding remove_keys is_in any
get-remove_keys k [] t h = refl
get-remove_keys k (j ∷ ks) t h =
    let apart : bytes_eq j k ≡ false = ground arith in
    let rest : any (λ x. bytes_eq x k) ks ≡ false = ground arith in
    get-remove_keys k ks (Tree.remove j t) rest ∙ rw (get-remove j k t, apart) refl

pub get-insert_all :
    (k : Bytes) (us : List (Bytes × Entry)) (t : Tree Entry)
    → is_in k (keys_of us) ≡ false
    → Tree.get k (insert_all us t) ≡ Tree.get k t
unfolding insert_all is_in any
get-insert_all k [] t h = refl
get-insert_all k ((j, e) ∷ us) t h =
    let apart : bytes_eq j k ≡ false = ground arith in
    let rest : any (λ x. bytes_eq x k) (keys_of us) ≡ false = ground arith in
    get-insert_all k us (Tree.insert j e t) rest ∙ rw (get-insert j k e t, apart) refl
