-- ===== src/Locker/Chunk/Ids.antt =====
-- Value ids are unique: within an open bank by the cursor, across openings by the floor that seeds it.
use crossbank.Prelude.{
  ℕ, ◌+◌, ◌^◌, ◌≤◌, ◌<◌, max, ◌≡◌, refl, ap, sym, ◌∙◌, none, some, List, [], ◌∷◌, arith,
  if◌then◌else◌, ltb, All, Bool-cases, inl, inr,
}
use crossbank.Error.{Result, ok, err, panic, backend, ids_exhausted, ok-inj}
use crossbank.Backend.Memory.{MemoryBackend}
use crossbank.Locker.Chunk.{
  advance, ValueIds, issue, take_id, seed_and_take, seed_floor, allocate_seeding, allocate_from,
  allocate,
}

pub advance-ok : (id next : ℕ) → advance id ≡ ok next → (next ≡ id + 1) × (id + 1 < 2 ^ 64)
unfolding advance
advance-ok id next h = elim (Bool-cases (ltb (id + 1) (2 ^ 64))) [
  | inl e ↦ (ground arith, ground arith)
  | inr n ↦ absurd (ground arith)
]

issue_eq {ℓ} :
    {A : Type ℓ} (cursor : ValueIds) (id : ℕ) (a : A)
    → issue cursor id a ≡ (
        if ltb (id + 1) (2 ^ 64)
        then (ok a, some (id + 1))
        else (err (backend ids_exhausted), cursor))
unfolding issue advance
issue_eq cursor id a = elim (Bool-cases (ltb (id + 1) (2 ^ 64))) [
  | inl e ↦ rw (e, issue) refl
  | inr n ↦ rw (n, issue) refl
]

-- An id that is issued leaves the cursor one past it.
issue-ok {ℓ} :
    {A : Type ℓ} (cursor cursor' : ValueIds) (id : ℕ) (a x : A)
    → issue cursor id a ≡ (ok x, cursor')
    → (x ≡ a) × (cursor' ≡ some (id + 1)) × (id + 1 < 2 ^ 64)
issue-ok cursor cursor' id a x h =
    let issued = sym (issue_eq cursor id a) ∙ h in
    elim (Bool-cases (ltb (id + 1) (2 ^ 64))) [
      | inl e ↦
          let run = rw e at issued in
          (sym (ok-inj (ap (λ w. w.0) run)), sym (ap (λ w. w.1) run), ground arith)
      | inr n ↦ absurd (let run = rw n at issued in ground (arith, ap (λ w. w.0) run))
    ]

-- The cursor, where it stands.
abbrev floor_of : ValueIds → ℕ
floor_of none = 0
floor_of (some next) = next

take_id-ok :
    (cursor cursor' : ValueIds) (id : ℕ)
    → take_id cursor ≡ (ok (some id), cursor')
    → (floor_of cursor ≤ id) × (cursor' ≡ some (id + 1)) × (id + 1 < 2 ^ 64)
unfolding take_id
take_id-ok none cursor' id h = absurd (ground (arith, ok-inj (ap (λ w. w.0) h)))
take_id-ok (some next) cursor' id h =
    let (e, c, f) = issue-ok (some next) cursor' next (some next) (some id) h in
    let same : id ≡ next = cc in (omega (arith, same), rw same c, rw same f)

pub seed_and_take-ok :
    (cursor cursor' : ValueIds) (stored id : ℕ)
    → seed_and_take cursor stored ≡ (ok id, cursor')
    → (floor_of cursor ≤ id) × (stored ≤ id) × (cursor' ≡ some (id + 1)) × (id + 1 < 2 ^ 64)
unfolding seed_and_take
seed_and_take-ok none cursor' stored id h =
    let (e, c, f) = issue-ok none cursor' stored stored id h in
    (omega arith, omega (arith, e), rw e c, rw e f)
seed_and_take-ok (some next) cursor' stored id h =
    let (e, c, f) = issue-ok (some next) cursor' (max next stored) (max next stored) id h in
    (omega (arith, e), omega (arith, e), rw e c, rw e f)

-- The cursor stands past an id that `allocate` gives, which is no less than the cursor was and fits.
abbrev Issued : ValueIds → ℕ → ValueIds → Type 0
Issued cursor id cursor' = (floor_of cursor ≤ id) × (cursor' ≡ some (id + 1)) × (id + 1 < 2 ^ 64)

pub allocate_seeding-ok :
    (r : Result ℕ) (cursor cursor' : ValueIds) (id : ℕ)
    → allocate_seeding r cursor ≡ (ok id, cursor')
    → (stored : ℕ) × (r ≡ ok stored) × (stored ≤ id) × Issued cursor id cursor'
unfolding allocate_seeding
allocate_seeding-ok (ok stored) cursor cursor' id h =
    let (above, least, moved, small) = seed_and_take-ok cursor cursor' stored id h in
    (stored, refl, least, (above, moved, small))
allocate_seeding-ok (err e) cursor cursor' id h = absurd (ground (arith, ap (λ w. w.0) h))
allocate_seeding-ok panic cursor cursor' id h = absurd (ground (arith, ap (λ w. w.0) h))

pub allocate-ok :
    (b : MemoryBackend) (cursor cursor' : ValueIds) (id : ℕ)
    → allocate b cursor ≡ (ok id, cursor')
    → Issued cursor id cursor'
unfolding allocate allocate_from take_id
allocate-ok b none cursor' id h = (allocate_seeding-ok (seed_floor b) none cursor' id h).3
allocate-ok b (some next) cursor' id h =
    let taken = sym (ap (allocate_from b) (issue_eq (some next) next (some next))) ∙ h in
    elim (Bool-cases (ltb (next + 1) (2 ^ 64))) [
      | inl e ↦
          let run = rw e at taken in
          let same : next ≡ id = ok-inj (ap (λ w. w.0) run) in
          (omega (arith, same), sym (ap (λ w. w.1) run) ∙ ap (λ n. some (n + 1)) same, ground arith)
      | inr n ↦ absurd (let run = rw n at taken in ground (arith, ap (λ w. w.0) run))
    ]

-- The ids a bank gives out, the newest first, and the cursor after them. Tasks run one at a time
-- between their awaits, so any order of the two halves of `allocate` is a sequence of these steps; a
-- floor may be stale, and is any number.
pub data Run : List ℕ → ValueIds → Type 0 where
  opened : Run [] none
  took :
      {ids : List ℕ} {cursor : ValueIds}
      → Run ids cursor
      → (id : ℕ) (next : ValueIds) → take_id cursor ≡ (ok (some id), next)
      → Run (id ∷ ids) next
  seeded :
      {ids : List ℕ} {cursor : ValueIds}
      → Run ids cursor
      → (stored id : ℕ) (next : ValueIds) → seed_and_take cursor stored ≡ (ok id, next)
      → Run (id ∷ ids) next

-- Each id above all that were given before it.
abbrev pub Descending : List ℕ → Type 0
Descending [] = Unit
Descending (id ∷ ids) = All (λ older. older < id) ids × Descending ids

below_weaken : (m n : ℕ) (ids : List ℕ) → m ≤ n → All (λ id. id < m) ids → All (λ id. id < n) ids
below_weaken m n [] h a = tt
below_weaken m n (id ∷ ids) h a = (omega (arith, a.0), below_weaken m n ids h a.1)

Issued-next :
    (ids : List ℕ) (cursor next : ValueIds) (id : ℕ)
    → Issued cursor id next
    → All (λ old. old < floor_of cursor) ids × Descending ids
    → All (λ old. old < floor_of next) (id ∷ ids) × Descending (id ∷ ids)
Issued-next ids cursor next id (least, moved, small) (below, desc) =
    let at : floor_of next ≡ id + 1 = ap floor_of moved in
    (
      (
        omega (arith, at),
        below_weaken (floor_of cursor) (floor_of next) ids (omega (arith, at)) below,
      ),
      (below_weaken (floor_of cursor) id ids least below, desc),
    )

Run-below :
    (ids : List ℕ) (cursor : ValueIds)
    → Run ids cursor
    → All (λ id. id < floor_of cursor) ids × Descending ids
Run-below _ _ opened = (tt, tt)
Run-below _ _ (took {ids = ids} {cursor = cursor} run id next h) =
    Issued-next ids cursor next id (take_id-ok cursor next id h) (Run-below ids cursor run)
Run-below _ _ (seeded {ids = ids} {cursor = cursor} run stored id next h) =
    let (least, _, moved, small) = seed_and_take-ok cursor next stored id h in
    Issued-next ids cursor next id (least, moved, small) (Run-below ids cursor run)

-- In whatever order concurrent allocations take their two halves, no value id is given out twice:
-- each is above all that were given before it.
pub Run-Descending : (ids : List ℕ) (cursor : ValueIds) → Run ids cursor → Descending ids
Run-Descending ids cursor run = (Run-below ids cursor run).1
