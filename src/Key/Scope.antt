-- ===== src/Key/Scope.antt =====
-- Which stored keys a range of a locker covers.
use crossbank.Prelude.{
  ◌<◌, ◌≡◌, refl, sym, ◌∙◌, ◌↔◌, true, ◌++◌, [], ◌∷◌, arith, All-append, All-drop,
  drop-append_of_length,
}
use crossbank.Bytes.{starts_with-append, Bytes, IsBytes, starts_with, bytes_lt_asymm}
use crossbank.Bytes.Number.{to_be, to_be-IsBytes, length-to_be}
use crossbank.Backend.Api.{Bound, unbounded, included, excluded, above_start, below_end, contains}
use crossbank.Backend.Api.Ranges.{contains-prefix, below_end-down, above_start-up}
use crossbank.Key.{LockerId, encode_bytes, locker_range, encode_bound, encode_range_bytes}
use crossbank.Key.Laws.{bytes_lt-encode}

abbrev pub BoundIsBytes : Bound Bytes → Type 0
BoundIsBytes unbounded = Unit
BoundIsBytes (included k) = IsBytes k
BoundIsBytes (excluded k) = IsBytes k

append_of_starts_with : (p x : Bytes) → starts_with p x ≡ true → (k : Bytes) × (x ≡ p ++ k)
unfolding starts_with
append_of_starts_with [] x h = (x, refl)
append_of_starts_with (y ∷ p) [] h = absurd (ground arith)
append_of_starts_with (y ∷ p) (z ∷ x) h =
    let (k, e) = append_of_starts_with p x (ground arith) in (k, ground arith)

IsBytes-encode : (id : LockerId) (k : Bytes) → IsBytes k → IsBytes (encode_bytes id k)
unfolding encode_bytes
IsBytes-encode id k h = All-append (λ b. b < 256) (to_be 4 id) k (to_be-IsBytes 4 id) h

pub IsBytes-decode : (id : LockerId) (k : Bytes) → IsBytes (encode_bytes id k) → IsBytes k
unfolding encode_bytes
IsBytes-decode id k h =
    rw (drop-append_of_length 4 (to_be 4 id) k (length-to_be 4 id)) at
      (All-drop (λ b. b < 256) 4 (to_be 4 id ++ k) h)

-- A locker's own keys lie inside its range.
pub contains-locker_range :
    (id : LockerId) (k : Bytes) → IsBytes k → contains (locker_range id) (encode_bytes id k) ≡ true
contains-locker_range id k h =
    contains-own ∙ unfold encode_bytes in starts_with-append (to_be 4 id) k
  where
    contains-own :
        contains (locker_range id) (encode_bytes id k)
        ≡ starts_with (to_be 4 id) (encode_bytes id k)
    contains-own =
        unfold locker_range in
        contains-prefix (to_be 4 id) (encode_bytes id k) (to_be-IsBytes 4 id)
          (IsBytes-encode id k h)

-- Nothing else does.
encode_of_contains :
    (id : LockerId) (x : Bytes)
    → IsBytes x
    → contains (locker_range id) x ≡ true
    → (k : Bytes) × (x ≡ encode_bytes id k)
unfolding locker_range encode_bytes
encode_of_contains id x h c =
    append_of_starts_with (to_be 4 id) x
      (sym (contains-prefix (to_be 4 id) x (to_be-IsBytes 4 id) h) ∙ c)

-- The two sides of a range on the locker's own keys.
module _ (id : LockerId) where
  own_above :
      (k : Bytes) → IsBytes k → above_start (locker_range id).start (encode_bytes id k) ≡ true
  unfolding contains
  own_above k h = ground (arith, contains-locker_range id k h)

  pub own_below :
      (k : Bytes) → IsBytes k → below_end (locker_range id).finish (encode_bytes id k) ≡ true
  unfolding contains
  own_below k h = ground (arith, contains-locker_range id k h)

  above-encode :
      (s : Bound Bytes) (k : Bytes)
      → IsBytes k
      → above_start (encode_bound id (locker_range id).start s) (encode_bytes id k)
        ≡ above_start s k
  unfolding encode_bound
  above-encode unbounded k h = own_above k h ∙ unfold above_start in refl
  above-encode (included j) k h = unfold above_start in rw (bytes_lt-encode id k j)
  above-encode (excluded j) k h = unfold above_start in bytes_lt-encode id j k

  below-encode :
      (e : Bound Bytes) (k : Bytes)
      → IsBytes k
      → below_end (encode_bound id (locker_range id).finish e) (encode_bytes id k) ≡ below_end e k
  unfolding encode_bound
  below-encode unbounded k h = own_below k h ∙ unfold below_end in refl
  below-encode (included j) k h = unfold below_end in rw (bytes_lt-encode id j k)
  below-encode (excluded j) k h = unfold below_end in bytes_lt-encode id k j

  -- A bound of the user's lies inside the locker's edge on that side.
  edge_below :
      (e : Bound Bytes) (x : Bytes)
      → BoundIsBytes e
      → below_end (encode_bound id (locker_range id).finish e) x ≡ true
      → below_end (locker_range id).finish x ≡ true
  unfolding encode_bound
  edge_below unbounded x h b = b
  edge_below (included j) x h b =
      below_end-down _ x (encode_bytes id j) (unfold below_end in ground arith) (own_below j h)
  edge_below (excluded j) x h b =
      below_end-down _ x (encode_bytes id j)
        (unfold below_end in bytes_lt_asymm x (encode_bytes id j) b) (own_below j h)

  edge_above :
      (s : Bound Bytes) (x : Bytes)
      → BoundIsBytes s
      → above_start (encode_bound id (locker_range id).start s) x ≡ true
      → above_start (locker_range id).start x ≡ true
  unfolding encode_bound
  edge_above unbounded x h b = b
  edge_above (included j) x h b =
      above_start-up _ x (encode_bytes id j) (unfold above_start in ground arith) (own_above j h)
  edge_above (excluded j) x h b =
      above_start-up _ x (encode_bytes id j)
        (unfold above_start in bytes_lt_asymm (encode_bytes id j) x b) (own_above j h)

  -- On the locker's own keys an encoded range is the user's range.
  pub contains-encode_range :
      (s e : Bound Bytes) (k : Bytes)
      → IsBytes k
      → contains (encode_range_bytes id s e) (encode_bytes id k)
        ≡ contains (record { start = s; finish = e }) k
  unfolding contains encode_range_bytes
  contains-encode_range s e k h = rw (above-encode s k h, below-encode e k h)

  -- A range never leaves its locker.
  contains-encode_range_inside :
      (s e : Bound Bytes) (x : Bytes)
      → BoundIsBytes s
      → BoundIsBytes e
      → contains (encode_range_bytes id s e) x ≡ true
      → contains (locker_range id) x ≡ true
  unfolding contains encode_range_bytes
  contains-encode_range_inside s e x hs he c = ground (arith, edge_above s x hs, edge_below e x he)

-- A scan range of a locker covers exactly the encodings of the keys that the user's bounds admit:
-- it neither misses one nor wanders into another locker.
pub encode_range-scope :
    (id : LockerId) (s e : Bound Bytes) (x : Bytes)
    → IsBytes x
    → BoundIsBytes s
    → BoundIsBytes e
    → (contains (encode_range_bytes id s e) x ≡ true) ↔ (
        (k : Bytes) × (x ≡ encode_bytes id k)
        × IsBytes k
        × (contains (record { start = s; finish = e }) k ≡ true))
encode_range-scope id s e x hx hs he = (covered, coverer)
  where
    covered :
        contains (encode_range_bytes id s e) x ≡ true
        → (k : Bytes) × (x ≡ encode_bytes id k)
          × IsBytes k
          × (contains (record { start = s; finish = e }) k ≡ true)
    covered c =
        let (k, e1) = encode_of_contains id x hx (contains-encode_range_inside id s e x hs he c) in
        let kb : IsBytes k = IsBytes-decode id k (rw e1 at hx) in
        (k, e1, kb, sym (contains-encode_range id s e k kb) ∙ (rw e1 at c))

    coverer :
        (k : Bytes) × (x ≡ encode_bytes id k)
          × IsBytes k
          × (contains (record { start = s; finish = e }) k ≡ true)
        → contains (encode_range_bytes id s e) x ≡ true
    coverer w = rw w.1 (contains-encode_range id s e w.0 w.2 ∙ w.3)
