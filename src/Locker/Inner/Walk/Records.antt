-- ===== src/Locker/Inner/Walk/Records.antt =====
-- A walk in the user's terms: the locker's own records that the user's bounds admit.
use crossbank.Prelude.{
  ◌+◌, ◌≤◌, ◌<◌, ◌≡◌, ◌≢◌, refl, ap, sym, ◌∙◌, Bool, true, false, Option, List, [], ◌∷◌, map, arith,
  length, map-reverse_lem, subst, length-reverse, length-keep, All, inl, inr, if◌then◌else◌,
  Bool-cases,
}
use mathlib.Core.List.{append-nil}
use crossbank.Error.{Result, ok, err, panic, ◌>>=◌, >>=-cong}
use crossbank.Bytes.{
  Bytes, IsBytes, bytes_lt_asymm, bytes_lt_nil, bytes_lt_irrefl, bytes_lt_trans, bytes_le_lt,
  bytes_lt_le,
}
use crossbank.Bytes.Number.{to_be}
use crossbank.Backend.Api.{
  Bound, unbounded, included, excluded, KeyRange, contains, above_start, below_end, prefix,
}
use crossbank.Backend.Memory.{MemoryBackend, in_direction}
use crossbank.Backend.Memory.Paging.{entries, item}
use crossbank.Tree.{Tree, IsSorted, range, range_panics}
use crossbank.Tree.Range.{range_panics-below}
use crossbank.Key.{
  LockerId, encode_bytes, decode_bytes, encode_range_bytes, locker_range, is_degenerate,
}
use crossbank.Key.Laws.{IsId, decode-encode_self, encode-decode, bytes_lt-encode}
use crossbank.Key.Scope.{
  BoundIsBytes, encode_range-scope, contains-encode_range, own_below, IsBytes-decode,
}
use crossbank.Locker.Inner.{Inner}
use crossbank.Locker.Inner.Walk.{visit_page, walk}
use crossbank.Locker.Inner.Walk.Complete.{walk_pages_lem}

abbrev pub own_entry : KeyRange → Result Bytes → Bytes → Tree Bytes → Tree Bytes
own_entry r (ok k) v rest = if contains r k then (k, v) ∷ rest else rest
own_entry r (err e) v rest = rest
own_entry r panic v rest = rest

-- The records of a locker inside the user's range, under the user's keys, in key order.
unfoldable pub own_records : LockerId → KeyRange → Tree Bytes → Tree Bytes
own_records id r [] = []
own_records id r ((x, v) ∷ t) = own_entry r (decode_bytes id x) v (own_records id r t)

-- A visitor over a list of records, stopping at its first error.
unfoldable pub visit_all {ℓ} :
    {S : Type ℓ}
    → (S → Bytes → Option Bytes → Result S)
    → S
    → List (Bytes × Option Bytes)
    → Result S
visit_all visit s [] = ok s
visit_all visit s ((k, v) ∷ xs) = do s' ← visit s k v; visit_all visit s' xs

abbrev stored : LockerId → Bytes × Bytes → Bytes × Bytes
stored id e = (encode_bytes id e.0, e.1)

module _ (id : LockerId) (fits : IsId id) (s e : Bound Bytes) (hs : BoundIsBytes s)
    (he : BoundIsBytes e) where
  abbrev bounds : KeyRange
  bounds = record { start = s; finish = e }

  outside :
      (x : Bytes)
      → IsBytes x
      → ((k : Bytes) → decode_bytes id x ≢ ok k)
      → contains (encode_range_bytes id s e) x ≡ false
  outside x b no_key = elim (Bool-cases (contains (encode_range_bytes id s e) x)) [
    | inl c ↦
        let (k, same, kb, kc) = (encode_range-scope id s e x b hs he).0 c in
        absurd (no_key k (ap (decode_bytes id) same ∙ decode-encode_self id k fits))
    | inr n ↦ n
  ]

  range_own_entry :
      (x v : Bytes) (rest : Tree Bytes) (d : Result Bytes)
      → IsBytes x
      → decode_bytes id x ≡ d
      → (if contains (encode_range_bytes id s e) x
          then (x, v) ∷ map (stored id) rest
          else map (stored id) rest)
        ≡ map (stored id) (own_entry bounds d v rest)
  range_own_entry x v rest (ok k) b h =
      let same : x ≡ encode_bytes id k = encode-decode id x k b h in
      let kb : IsBytes k = IsBytes-decode id k (rw same at b) in
      rw (same, contains-encode_range id s e k kb)
        (elim (Bool-cases (contains bounds k)) [ inl c ↦ rw c refl | inr n ↦ rw n refl ])
  range_own_entry x v rest (err f) b h = rw (outside x b (λ k g. ground (arith, g, h))) refl
  range_own_entry x v rest panic b h = rw (outside x b (λ k g. ground (arith, g, h))) refl

  range_own_records :
      (t : Tree Bytes)
      → All (λ r. IsBytes r.0) t
      → range (encode_range_bytes id s e) t ≡ map (stored id) (own_records id bounds t)
  unfolding range own_records
  range_own_records [] a = refl
  range_own_records ((x, v) ∷ t) a =
      rw (range_own_records t a.1)
        (range_own_entry x v (own_records id bounds t) (decode_bytes id x) a.0 refl)

-- Bounds that cross admit no key.
outside_of_degenerate :
    (s e : Bound Bytes) (k : Bytes)
    → is_degenerate s e ≡ true
    → contains (record { start = s; finish = e }) k ≡ false
unfolding is_degenerate contains above_start below_end
outside_of_degenerate unbounded e k h = ground arith
outside_of_degenerate (included s) unbounded k h = ground arith
outside_of_degenerate (excluded s) unbounded k h = ground arith
outside_of_degenerate (included s) (included e) k h =
    ground (arith, bytes_le_lt k e s, bytes_lt_irrefl k)
outside_of_degenerate (included s) (excluded e) k h =
    ground (arith, bytes_lt_le k e s, bytes_lt_irrefl k)
outside_of_degenerate (excluded s) (included e) k h =
    ground (arith, bytes_le_lt e s k, bytes_lt_irrefl k)
outside_of_degenerate (excluded s) (excluded e) k h =
    ground (arith, bytes_lt_le k e s, bytes_lt_trans k s k, bytes_lt_asymm s k)

no_own_records :
    (id : LockerId) (r : KeyRange) (t : Tree Bytes)
    → ((k : Bytes) → contains r k ≡ false)
    → own_records id r t ≡ []
unfolding own_records
no_own_records id r [] h = refl
no_own_records id r ((x, v) ∷ t) h = skipped (decode_bytes id x) ∙ no_own_records id r t h
  where
    skipped : (d : Result Bytes) → own_entry r d v (own_records id r t) ≡ own_records id r t
    skipped (ok k) = rw (h k) refl
    skipped (err e) = refl
    skipped panic = refl

own_edges : (id : LockerId) → range_panics (locker_range id) ≡ false
unfolding locker_range prefix
own_edges id =
    (range_panics-below (locker_range id).finish (to_be 4 id)
      (subst (λ x. below_end (locker_range id).finish x ≡ true) first_key (own_below id [] tt))).0
  where
    first_key : encode_bytes id [] ≡ to_be 4 id
    first_key = unfold encode_bytes in append-nil (to_be 4 id)

-- Bounds that do not cross give a range that no scan panics on.
range_panics-encode :
    (id : LockerId) (s e : Bound Bytes)
    → BoundIsBytes s
    → BoundIsBytes e
    → is_degenerate s e ≡ false
    → range_panics (encode_range_bytes id s e) ≡ false
unfolding range_panics encode_range_bytes is_degenerate
range_panics-encode id unbounded unbounded hs he h = own_edges id
range_panics-encode id unbounded (included k) hs he h =
    unfold locker_range prefix encode_bytes in bytes_lt_nil (to_be 4 id) k
range_panics-encode id unbounded (excluded k) hs he h =
    unfold locker_range prefix encode_bytes in bytes_lt_nil (to_be 4 id) k
range_panics-encode id (included k) unbounded hs he h =
    (range_panics-below (locker_range id).finish (encode_bytes id k) (own_below id k hs)).0
range_panics-encode id (excluded k) unbounded hs he h =
    (range_panics-below (locker_range id).finish (encode_bytes id k) (own_below id k hs)).1
range_panics-encode id (included s) (included e) hs he h = rw (bytes_lt-encode id e s) h
range_panics-encode id (included s) (excluded e) hs he h =
    rw (bytes_lt-encode id e s) (ground (arith, bytes_lt_asymm s e))
range_panics-encode id (excluded s) (included e) hs he h =
    rw (bytes_lt-encode id e s) (ground (arith, bytes_lt_asymm s e))
range_panics-encode id (excluded s) (excluded e) hs he h = rw (bytes_lt-encode id s e) h

module _ {ℓ} {S : Type ℓ} (visit : S → Bytes → Option Bytes → Result S) where
  visit_page-stored :
      (id : LockerId)
      → IsId id
      → (want : Bool) (s : S) (t : Tree Bytes)
      → visit_page visit id s (map (item want) (map (stored id) t))
        ≡ visit_all visit s (map (item want) t)
  unfolding visit_page visit_all
  visit_page-stored id fits want s [] = refl
  visit_page-stored id fits want s ((k, v) ∷ t) =
      rw (decode-encode_self id k fits)
        (>>=-cong (visit s k (item want (k, v)).1) _ _ (λ s'. visit_page-stored id fits want s' t))

  in_direction-map :
      (id : LockerId) (d : Bool) (t : Tree Bytes)
      → in_direction d (map (stored id) t) ≡ map (stored id) (in_direction d t)
  unfolding in_direction
  in_direction-map id true t = sym (map-reverse_lem (stored id) t)
  in_direction-map id false t = refl

  length-entries : (d : Bool) (r : KeyRange) (t : Tree Bytes) → length (entries d r t) ≤ length t
  unfolding in_direction range
  length-entries true r t =
      ground (arith, length-reverse (range r t), length-keep (λ e. contains r e.0) t)
  length-entries false r t = length-keep (λ e. contains r e.0) t

  -- On an open backend with its keys in order, and for any page size, a walk is the visitor run
  -- over the locker's own records that the bounds admit, each once, under the user's keys, in the
  -- direction asked for, up to the visitor's first error. It never panics and never runs out of pages.
  pub walk-visit_all :
      (i : Inner) (b : MemoryBackend) (start finish : Bound Bytes) (is_reverse want : Bool) (s : S)
      → b.is_closed ≡ false
      → IsSorted b.tables.records
      → All (λ e. IsBytes e.0) b.tables.records
      → IsId i.id
      → 0 < i.scan_page
      → BoundIsBytes start
      → BoundIsBytes finish
      → walk visit i b start finish is_reverse want s
        ≡ visit_all visit s (
            map (item want) (
              in_direction is_reverse
                (own_records i.id (record { start = start; finish = finish }) b.tables.records)))
  unfolding walk
  walk-visit_all i b start finish is_reverse want s opened o keys fits pages hs he =
      elim (Bool-cases (is_degenerate start finish)) [
        | inl d ↦
            rw
              (
                d,
                no_own_records i.id (record { start = start; finish = finish }) b.tables.records
                    (λ k. outside_of_degenerate start finish k d),
              )
              (empty_walk is_reverse)
        | inr n ↦ rw n (
            walk_pages_lem visit i b opened is_reverse want o pages (length b.tables.records + 1)
              (encode_range_bytes i.id start finish) s
              (range_panics-encode i.id start finish hs he n)
              (omega (
                arith,
                length-entries is_reverse (encode_range_bytes i.id start finish) b.tables.records,
              ))
            ∙ rw
                (
                  range_own_records i.id fits start finish hs he b.tables.records keys,
                  in_direction-map i.id is_reverse (
                      own_records i.id (record { start = start; finish = finish })
                        b.tables.records),
                )
                (visit_page-stored i.id fits want s _))
      ]
    where
      empty_walk : (d : Bool) → ok s ≡ visit_all visit s (map (item want) (in_direction d []))
      empty_walk true = unfold visit_all in_direction in refl
      empty_walk false = unfold visit_all in_direction in refl
