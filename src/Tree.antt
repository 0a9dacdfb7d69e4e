-- ===== src/Tree.antt =====
-- `BTreeMap<Vec<u8>, V>` of the standard library, as its entries in key order.
pub mod Laws
pub mod Range
use crossbank.Prelude.{
  Bool, true, false, ◌&&◌, ◌||◌, not, Option, none, some, List, [], ◌∷◌, if◌then◌else◌, map, keep,
  ◌≡◌, All,
}
use crossbank.Bytes.{Bytes, bytes_eq, bytes_lt, bytes_le}
use crossbank.Backend.Api.{Bound, unbounded, included, excluded, KeyRange, contains}

abbrev pub Tree {ℓ} : Type ℓ → Type ℓ
Tree V = List (Bytes × V)

module _ {ℓ} {V : Type ℓ} where
  -- `get`
  unfoldable pub get : Bytes → Tree V → Option V
  get k [] = none
  get k ((j, v) ∷ t) = if bytes_eq j k then some v else get k t

  -- `insert`
  unfoldable pub insert : Bytes → V → Tree V → Tree V
  insert k v [] = (k, v) ∷ []
  insert k v ((j, w) ∷ t) =
      if bytes_lt k j
      then (k, v) ∷ (j, w) ∷ t
      else if bytes_lt j k
      then (j, w) ∷ insert k v t
      else (k, v) ∷ t

  -- `remove`
  unfoldable pub remove : Bytes → Tree V → Tree V
  remove k [] = []
  remove k ((j, v) ∷ t) = if bytes_eq j k then remove k t else (j, v) ∷ remove k t

  abbrev pub keys : Tree V → List Bytes
  keys t = map (λ e. e.0) t

  -- `range`, in ascending order.
  unfoldable pub range : KeyRange → Tree V → Tree V
  unfolding keep
  range r t = keep (λ e. contains r e.0) t

  abbrev pub AboveAll : Bytes → Tree V → Type 0
  AboveAll k = All (λ e. bytes_lt k e.0 ≡ true)

  -- Entries in an order, each before all that follow.
  abbrev pub Ordered : (Bytes → Bytes → Bool) → Tree V → Type 0
  Ordered before [] = Unit
  Ordered before ((k, v) ∷ t) = All (λ e. before k e.0 ≡ true) t × Ordered before t

  -- The key order of a `BTreeMap`.
  abbrev pub IsSorted : Tree V → Type 0
  IsSorted = Ordered bytes_lt

crossed : Bound Bytes → Bound Bytes → Bool
crossed unbounded e = false
crossed (included s) unbounded = false
crossed (excluded s) unbounded = false
crossed (included s) (included e) = bytes_lt e s
crossed (included s) (excluded e) = bytes_lt e s
crossed (excluded s) (included e) = bytes_lt e s
crossed (excluded s) (excluded e) = bytes_le e s

-- `BTreeMap::range` panics on a start above the end, and where both exclude one key.
unfoldable pub range_panics : KeyRange → Bool
unfolding crossed
range_panics r = crossed r.start r.finish
