-- ===== src/Locker/Chunk/Fresh.antt =====
-- The first id of an opened bank, against the chunks that are stored.
use crossbank.Prelude.{
  ℕ, zero, suc, ◌+◌, ◌*◌, ◌^◌, ◌≤◌, ◌<◌, max, ◌≡◌, refl, ap, sym, subst, ◌∙◌, true, false, Option,
  none, some, [], ◌∷◌, arith, length, ltb, take, reverse, All, All-reverse, Bool-cases, inl, inr,
  ◌⊎◌, keep, keep-All, take-append_of_length, length-append, All-append, length-take, All-take,
}
use mathlib.Core.List.{reverse-reverse}
use crossbank.Error.{ok, ◌>>=◌, >>=-eq-ok, ok-inj}
use crossbank.Bytes.{Bytes, IsBytes, bytes_eq, bytes_eq_iff, bytes_lt}
use crossbank.Bytes.Number.{from_be, from_be-lt, to_be, from_be-to_be, length-to_be, to_be-IsBytes}
use crossbank.Tree
use crossbank.Tree.{Tree, IsSorted, Ordered, range, range_panics}
use crossbank.Tree.Range.{after, reverse-Ordered}
use crossbank.Backend.Api.{meta, chunks, all, contains}
use crossbank.Backend.Memory
use crossbank.Backend.Memory.{MemoryBackend, collect, scan_tree, in_direction}
use crossbank.Backend.Memory.Opened.{scan_open}
use crossbank.Backend.Memory.Refines.{value_at}
use crossbank.Locker.Chunk.{
  chunk_key, parse_counter, meta_next_value_id, advance, ValueIds, id_of_first, highest_stored_id,
  above_id, seed_floor, take_id, allocate_from, allocate,
}
use crossbank.Locker.Chunk.Ids.{allocate_seeding-ok, advance-ok}

-- The first `w` bytes of a key, as a number, grow with the key.
from_be-take_mono :
    (w : ℕ) (xs ys : Bytes)
    → IsBytes xs
    → IsBytes ys
    → w ≤ length xs
    → w ≤ length ys
    → bytes_lt xs ys ≡ true
    → from_be (take w xs) ≤ from_be (take w ys)
unfolding from_be bytes_lt
from_be-take_mono zero xs ys bx by hx hy lt = omega arith
from_be-take_mono (suc w) [] ys bx by hx hy lt = absurd (omega arith)
from_be-take_mono (suc w) (x ∷ xs) [] bx by hx hy lt = absurd (omega arith)
from_be-take_mono (suc w) (x ∷ xs) (y ∷ ys) bx by hx hy lt =
    let lx : length (take w xs) ≡ w = omega (arith, length-take w xs) in
    let ly : length (take w ys) ≡ w = omega (arith, length-take w ys) in
    let small : from_be (take w xs) < 256 ^ w =
      rw lx at (from_be-lt (take w xs) (All-take (λ b. b < 256) w xs bx.1)) in
    rw (lx, ly)
      (elim (Bool-cases (ltb x y)) [
        | inl less ↦ leading (256 ^ w) x y _ _ (ground arith) small
        | inr more ↦
            let same : x ≡ y = ground arith in
            let rest : bytes_lt xs ys ≡ true = ground arith in
            rw same
              (omega (arith, from_be-take_mono w xs ys bx.1 by.1 (omega arith) (omega arith) rest))
      ])
  where
    leading : (p x y a b : ℕ) → x < y → a < p → x * p + a ≤ y * p + b
    leading p x y a b h k = grind arith

-- The greatest key of a table is the last one.
data Greatest (t : Tree Bytes) : Type 0 where
  nothing : t ≡ [] → Greatest t
  top :
      (k v : Bytes) (rest : Tree Bytes)
      → reverse t ≡ (k, v) ∷ rest
      → All (λ e. (e.0 ≡ k) ⊎ (bytes_lt e.0 k ≡ true)) t
      → Greatest t

before_top :
    (k : Bytes) (t : Tree Bytes)
    → All (λ e. bytes_lt e.0 k ≡ true) t
    → All (λ e. (e.0 ≡ k) ⊎ (bytes_lt e.0 k ≡ true)) t
before_top k [] a = tt
before_top k (e ∷ t) a = (inr a.0, before_top k t a.1)

greatest : (t : Tree Bytes) → IsSorted t → Greatest t
greatest t s = from (reverse t) refl
  where
    from : (r : Tree Bytes) → reverse t ≡ r → Greatest t
    from [] e = nothing (sym (reverse-reverse t) ∙ ap reverse e)
    from ((k, v) ∷ rest) e =
        let P : Bytes × Bytes → Type 0 = λ e. (e.0 ≡ k) ⊎ (bytes_lt e.0 k ≡ true) in
        let ordered = subst (Ordered after) e (reverse-Ordered t s) in
        let whole : All P ((k, v) ∷ rest) = (inl refl, before_top k rest ordered.0) in
        top k v rest e (
          subst (All P) (reverse-reverse t)
            (All-reverse P (reverse t) (subst (All P) (sym e) whole)))

all_contained : (t : Tree Bytes) → All (λ e. contains all e.0 ≡ true) t
unfolding contains
all_contained [] = tt
all_contained (e ∷ t) = (refl, all_contained t)

-- The one page that is read holds the last key.
last_page :
    (t : Tree Bytes) (k v : Bytes) (rest : Tree Bytes)
    → reverse t ≡ (k, v) ∷ rest
    → scan_tree t
        (record { table = chunks; range = all; is_reverse = true; limit = 1; want_values = false })
      ≡ ok (record { items = (k, none) ∷ []; resume = some k })
unfolding scan_tree range_panics range in_direction collect
last_page t k v [] e = rw (keep-All (λ e. contains all e.0) t (all_contained t), e) refl
last_page t k v (r ∷ rest) e = rw (keep-All (λ e. contains all e.0) t (all_contained t), e) refl

no_page :
    scan_tree []
      (record { table = chunks; range = all; is_reverse = true; limit = 1; want_values = false })
    ≡ ok (record { items = []; resume = none })
unfolding scan_tree range_panics range in_direction collect keep
no_page = refl

-- The id of the last key of the chunk table.
highest_stored_id-top :
    (b : MemoryBackend) (k v : Bytes) (rest : Tree Bytes)
    → b.is_closed ≡ false
    → reverse b.tables.chunks ≡ (k, v) ∷ rest
    → highest_stored_id b ≡ id_of_first ((k, none) ∷ [])
unfolding highest_stored_id Memory.tree_of
highest_stored_id-top b k v rest opened e =
    ap (λ m. m >>= λ page. id_of_first page.items)
      (scan_open b opened _ ∙ last_page b.tables.chunks k v rest e)

id_of_first-ok :
    (k : Bytes) (highest : Option ℕ)
    → id_of_first ((k, none) ∷ []) ≡ ok highest
    → (8 ≤ length k) × (highest ≡ some (from_be (take 8 k)))
unfolding id_of_first
id_of_first-ok k highest h = elim (Bool-cases (ltb (length k) 8)) [
  | inl short ↦ absurd (let no = rw short at h in ground arith)
  | inr long ↦ (ground arith, sym (ok-inj (rw long at h)))
]

above_id-some : (counter id stored : ℕ) → above_id counter (some id) ≡ ok stored → id < stored
unfolding above_id
above_id-some counter id stored h =
    let (next, moved, last) =
      >>=-eq-ok (advance id) (λ next. ok (max counter next)) {y = stored} h in
    omega (arith, (advance-ok id next moved).0, ok-inj last)

-- The floor is above the id of the last key.
seed_floor-above :
    (b : MemoryBackend) (k : Bytes) (stored : ℕ)
    → highest_stored_id b ≡ id_of_first ((k, none) ∷ [])
    → seed_floor b ≡ ok stored
    → (8 ≤ length k) × (from_be (take 8 k) < stored)
unfolding seed_floor
seed_floor-above b k stored e h =
    let (raw, _, h1) = >>=-eq-ok (Memory.get b meta meta_next_value_id) _ {y = stored} h in
    let (counter, _, h2) = >>=-eq-ok (parse_counter raw) _ {y = stored} h1 in
    let (highest, at, h3) = >>=-eq-ok (highest_stored_id b) (above_id counter) {y = stored} h2 in
    let (long, last) = id_of_first-ok k highest (sym e ∙ at) in
    (long, above_id-some counter _ stored (ap (above_id counter) (sym last) ∙ h3))

get-All :
    (P : Bytes → Type 0) (t : Tree Bytes) (k v : Bytes)
    → All (λ e. P e.0) t
    → Tree.get k t ≡ some v
    → P k
unfolding Tree.get
get-All P [] k v a h = absurd (ground arith)
get-All P ((j, w) ∷ t) k v a h = elim (Bool-cases (bytes_eq j k)) [
  | inl e ↦ subst P ((bytes_eq_iff j k).0 e) a.0
  | inr n ↦ get-All P t k v a.1 (rw n at h)
]

id_of_chunk_key : (id seq : ℕ) → id < 256 ^ 8 → from_be (take 8 (chunk_key id seq)) ≡ id
unfolding chunk_key
id_of_chunk_key id seq h =
    rw (take-append_of_length 8 (to_be 8 id) (to_be 4 seq) (length-to_be 8 id))
      (from_be-to_be 8 id h)

chunk_key-IsBytes : (id seq : ℕ) → IsBytes (chunk_key id seq) × (length (chunk_key id seq) ≡ 12)
unfolding chunk_key
chunk_key-IsBytes id seq = (
  All-append (λ b. b < 256) (to_be 8 id) (to_be 4 seq) (to_be-IsBytes 8 id) (to_be-IsBytes 4 seq),
  omega (arith, length-append (to_be 8 id) (to_be 4 seq), length-to_be 8 id, length-to_be 4 seq),
)

-- The id of a stored piece is no greater than that of the last key.
id_below_top :
    (k : Bytes) (id seq : ℕ)
    → IsBytes k
    → 8 ≤ length k
    → id < 256 ^ 8
    → (chunk_key id seq ≡ k) ⊎ (bytes_lt (chunk_key id seq) k ≡ true)
    → id ≤ from_be (take 8 k)
id_below_top k id seq kb long small (inl e) =
    omega (arith, ap (λ j. from_be (take 8 j)) e, id_of_chunk_key id seq small)
id_below_top k id seq kb long small (inr lt) =
    let (cb, len) = chunk_key-IsBytes id seq in
    omega (
      arith,
      id_of_chunk_key id seq small,
      from_be-take_mono 8 (chunk_key id seq) k cb kb (omega (arith, len)) long lt,
    )

-- On an open backend whose chunk table is in key order, with keys of bytes, the first id that an
-- opened bank gives out is above the id of every piece that is stored: it is never an id in use,
-- whatever the stored counter says.
pub allocate-fresh :
    (b : MemoryBackend) (cursor' : ValueIds) (new_id : ℕ)
    → b.is_closed ≡ false
    → IsSorted b.tables.chunks
    → All (λ e. IsBytes e.0) b.tables.chunks
    → allocate b none ≡ (ok new_id, cursor')
    → (id seq : ℕ) (piece : Bytes) → id < 2 ^ 64
    → value_at b.tables chunks (chunk_key id seq) ≡ some piece
    → id < new_id
unfolding allocate take_id allocate_from Memory.tree_of Tree.get
allocate-fresh b cursor' new_id opened sorted bytes h id seq piece small held =
    let key = chunk_key id seq in
    let (stored, floor, least, _) = allocate_seeding-ok (seed_floor b) none cursor' new_id h in
    elim (greatest b.tables.chunks sorted) [
      | nothing e ↦ absurd (let no = ap (Tree.get key) (sym e) ∙ held in ground arith)
      | top k v rest e below ↦
          let tops =
            subst (All (λ e. IsBytes e.0)) e
              (All-reverse (λ e. IsBytes e.0) b.tables.chunks bytes) in
          let (long, above) =
            seed_floor-above b k stored (highest_stored_id-top b k v rest opened e) floor in
          let at_most =
            id_below_top k id seq tops.0 long (omega (arith, small)) (
              get-All (λ j. (j ≡ k) ⊎ (bytes_lt j k ≡ true)) b.tables.chunks key piece below
                held) in
          omega arith
    ]
