-- ===== src/Tree/Laws.antt =====
-- Lookups after an insertion or a removal, and the order of the entries.
use crossbank.Prelude.{
  ◌≡◌, refl, subst, inl, inr, Bool-cases, true, none, some, [], ◌∷◌, if◌then◌else◌, arith,
}
use crossbank.Bytes.{
  Bytes, bytes_eq, bytes_lt, bytes_eq_iff, bytes_lt_connex, bytes_lt_trans, bytes_lt_irrefl, lt_ne,
}
use crossbank.Tree.{Tree, get, insert, remove, AboveAll, IsSorted}

module _ {ℓ} {V : Type ℓ} where
  pub get-insert :
      (k j : Bytes) (v : V) (t : Tree V)
      → get j (insert k v t) ≡ (if bytes_eq k j then some v else get j t)
  unfolding get insert
  get-insert k j v [] = refl
  get-insert k j v ((i, w) ∷ t) = ground (
    arith,
    get-insert k j v t,
    bytes_eq_iff k j,
    bytes_eq_iff i j,
    bytes_lt_connex k i,
    bytes_lt_irrefl k,
  )

  pub get-remove :
      (k j : Bytes) (t : Tree V) → get j (remove k t) ≡ (if bytes_eq k j then none else get j t)
  unfolding get remove
  get-remove k j [] = ground arith
  get-remove k j ((i, w) ∷ t) =
      ground (arith, get-remove k j t, bytes_eq_iff k j, bytes_eq_iff i j, bytes_eq_iff i k)

  pub AboveAll-trans :
      (j k : Bytes) (t : Tree V) → bytes_lt j k ≡ true → AboveAll k t → AboveAll j t
  AboveAll-trans j k [] h a = tt
  AboveAll-trans j k ((i, v) ∷ t) h a = (bytes_lt_trans j k i h a.0, AboveAll-trans j k t h a.1)

  AboveAll-insert :
      (j k : Bytes) (v : V) (t : Tree V)
      → bytes_lt j k ≡ true
      → AboveAll j t
      → AboveAll j (insert k v t)
  unfolding insert
  AboveAll-insert j k v [] h a = (h, tt)
  AboveAll-insert j k v ((i, w) ∷ t) h a = elim (Bool-cases (bytes_lt k i)) [
    | inl p ↦ rw p (h, a)
    | inr p ↦ elim (Bool-cases (bytes_lt i k)) [
      | inl q ↦ rw (p, q) (a.0, AboveAll-insert j k v t h a.1)
      | inr q ↦ rw (p, q) (h, a.1)
    ]
  ]

  AboveAll-remove : (j k : Bytes) (t : Tree V) → AboveAll j t → AboveAll j (remove k t)
  unfolding remove
  AboveAll-remove j k [] a = tt
  AboveAll-remove j k ((i, w) ∷ t) a = elim (Bool-cases (bytes_eq i k)) [
    | inl p ↦ rw p (AboveAll-remove j k t a.1)
    | inr p ↦ rw p (a.0, AboveAll-remove j k t a.1)
  ]

  pub insert-IsSorted : (k : Bytes) (v : V) (t : Tree V) → IsSorted t → IsSorted (insert k v t)
  unfolding insert
  insert-IsSorted k v [] s = (tt, tt)
  insert-IsSorted k v ((i, w) ∷ t) s = elim (Bool-cases (bytes_lt k i)) [
    | inl p ↦ rw p ((p, AboveAll-trans k i t p s.0), s)
    | inr p ↦ elim (Bool-cases (bytes_lt i k)) [
      | inl q ↦ rw (p, q) (AboveAll-insert i k v t q s.0, insert-IsSorted k v t s.1)
      | inr q ↦ rw (p, q) (subst (λ x. AboveAll x t) (bytes_lt_connex i k q p) s.0, s.1)
    ]
  ]

  pub remove-IsSorted : (k : Bytes) (t : Tree V) → IsSorted t → IsSorted (remove k t)
  unfolding remove
  remove-IsSorted k [] s = tt
  remove-IsSorted k ((i, w) ∷ t) s = elim (Bool-cases (bytes_eq i k)) [
    | inl p ↦ rw p (remove-IsSorted k t s.1)
    | inr p ↦ rw p (AboveAll-remove i k t s.0, remove-IsSorted k t s.1)
  ]

  -- A key below all others is not there, and its removal changes nothing.
  pub above_absent : (k : Bytes) (t : Tree V) → AboveAll k t → (get k t ≡ none) × (remove k t ≡ t)
  unfolding get remove
  above_absent k [] a = (refl, refl)
  above_absent k ((j, e) ∷ t) a =
      let ne = lt_ne k j a.0 in
      let (absent, same) = above_absent k t a.1 in (rw (ne, absent) refl, rw (ne, same) refl)
