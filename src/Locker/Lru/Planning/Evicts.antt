-- ===== src/Locker/Lru/Planning/Evicts.antt =====
-- Which entries a plan sheds: the least recently used of those that the commit leaves alone.
use crossbank.Prelude.{
  ℕ, ◌+◌, ◌≤◌, ◌<◌, ◌≡◌, ◌↔◌, ◌⊎◌, refl, ap, subst, ◌∙◌, Bool, true, false, not, List, [], ◌∷◌, map,
  keep, arith, ltb, All, Bool-cases, inl, inr,
}
use mathlib.Core.List.{Memᴰ}
use mathlib.Core.List.Memᴰ
use crossbank.Bytes.{Bytes, bytes_lt}
use crossbank.Tree.{Tree, IsSorted}
use crossbank.Locker.Lru.Entries.{Entry}
use crossbank.Locker.Lru.State.{LruState, is_in, sum_bytes, max_u64, remove_keys}
use crossbank.Locker.Lru.Planning.{
  Plan, Candidate, candidate, is_spare, candidates, sheds_before, insert_sorted, sort, remaining,
  insert_all, plan,
}
use crossbank.Locker.Lru.Planning.Sums.{keys_of, sum_updates}
use crossbank.Locker.Lru.Planning.Candidates.{candidates-DistinctKeys}
use crossbank.Locker.Lru.Planning.Shedding.{DistinctKeys, sort-DistinctKeys}
use crossbank.Locker.Lru.Planning.Victims.{Ranked, Sheds, ranked, plan-Sheds}
use crossbank.Locker.Lru.Planning.Accounting.{IsAccounted, IsBatch, total_after-sum}

-- The older tick is first, and of two with the same tick the lesser key.
abbrev pub OldestFirst : List Candidate → Type 0
OldestFirst [] = Unit
OldestFirst (c ∷ cs) =
    All (λ d. (c.tick < d.tick) ⊎ ((c.tick ≡ d.tick) × (bytes_lt d.key c.key ≡ false))) cs
    × OldestFirst cs

older :
    (c d : Candidate)
    → sheds_before d c ≡ false
    → (c.tick < d.tick) ⊎ ((c.tick ≡ d.tick) × (bytes_lt d.key c.key ≡ false))
unfolding sheds_before
older c d h = elim (Bool-cases (ltb c.tick d.tick)) [
  | inl e ↦ inl (ground arith)
  | inr n ↦ inr (ground arith, ground arith)
]

All-older :
    (c : Candidate) (cs : List Candidate)
    → All (λ d. sheds_before d c ≡ false) cs
    → All (λ d. (c.tick < d.tick) ⊎ ((c.tick ≡ d.tick) × (bytes_lt d.key c.key ≡ false))) cs
All-older c [] a = tt
All-older c (d ∷ cs) a = (older c d a.0, All-older c cs a.1)

Ranked-OldestFirst : (cs : List Candidate) → Ranked cs → OldestFirst cs
Ranked-OldestFirst [] r = tt
Ranked-OldestFirst (c ∷ cs) r = (All-older c cs r.0, Ranked-OldestFirst cs r.1)

-- Sorting keeps every candidate, and adds none.
insert_sorted-Mem :
    (x c : Candidate) (cs : List Candidate) → Memᴰ x (insert_sorted c cs) ↔ Memᴰ x (c ∷ cs)
unfolding insert_sorted
insert_sorted-Mem x c [] = (λ m. m, λ m. m)
insert_sorted-Mem x c (d ∷ ds) = elim (Bool-cases (sheds_before d c)) [
  | inl e ↦ rw e (
    λ m. elim (Memᴰ.cases_cons m) [
      | inl h ↦ Memᴰ.tail (Memᴰ.head h)
      | inr k ↦ elim (Memᴰ.cases_cons ((insert_sorted-Mem x c ds).0 k)) [
        | inl h ↦ Memᴰ.head h
        | inr l ↦ Memᴰ.tail (Memᴰ.tail l)
      ]
    ],
    λ m. elim (Memᴰ.cases_cons m) [
      | inl h ↦ Memᴰ.tail ((insert_sorted-Mem x c ds).1 (Memᴰ.head h))
      | inr k ↦ elim (Memᴰ.cases_cons k) [
        | inl h ↦ Memᴰ.head h
        | inr l ↦ Memᴰ.tail ((insert_sorted-Mem x c ds).1 (Memᴰ.tail l))
      ]
    ],
  )
  | inr n ↦ rw n (λ m. m, λ m. m)
]

sort-Mem : (x : Candidate) (cs : List Candidate) → Memᴰ x (sort cs) ↔ Memᴰ x cs
unfolding sort
sort-Mem x [] = (λ m. m, λ m. m)
sort-Mem x (c ∷ cs) =
    let inserted = insert_sorted-Mem x c (sort cs) in
    (
      λ m. elim (Memᴰ.cases_cons (inserted.0 m)) [
        | inl h ↦ Memᴰ.head h
        | inr k ↦ Memᴰ.tail ((sort-Mem x cs).0 k)
      ],
      λ m. inserted.1 (elim (Memᴰ.cases_cons m) [
        | inl h ↦ Memᴰ.head h
        | inr k ↦ Memᴰ.tail ((sort-Mem x cs).1 k)
      ]),
    )

keep-Mem :
    (p : Bytes × Entry → Bool) (c : Candidate) (t : List (Bytes × Entry))
    → Memᴰ c (map candidate (keep p t))
      ↔ ((e : Bytes × Entry) × Memᴰ e t × (c ≡ candidate e) × (p e ≡ true))
unfolding keep
keep-Mem p c [] =
    (λ m. absurd (Memᴰ.not-nil m), λ (e, there, same, kept). absurd (Memᴰ.not-nil there))
keep-Mem p c (e ∷ t) = elim (Bool-cases (p e)) [
  | inl h ↦ rw h (
    λ m. elim (Memᴰ.cases_cons m) [
      | inl same ↦ (e, Memᴰ.head refl, same, h)
      | inr k ↦
          let (x, there, same, kept) = (keep-Mem p c t).0 k in (x, Memᴰ.tail there, same, kept)
    ],
    λ (x, there, same, kept). elim (Memᴰ.cases_cons there) [
      | inl here ↦ Memᴰ.head (same ∙ ap candidate here)
      | inr later ↦ Memᴰ.tail ((keep-Mem p c t).1 (x, later, same, kept))
    ],
  )
  | inr h ↦ rw h (
    λ m. let (x, there, same, kept) = (keep-Mem p c t).0 m in (x, Memᴰ.tail there, same, kept),
    λ (x, there, same, kept). elim (Memᴰ.cases_cons there) [
      | inl here ↦ absurd (cc)
      | inr later ↦ (keep-Mem p c t).1 (x, later, same, kept)
    ],
  )
]

module _ (t : Tree Entry) (updates : List (Bytes × Entry)) (removals keep_keys : List Bytes) where
  -- What a plan may shed: an entry that the commit neither removes, rewrites nor keeps, or an update that
  -- it does not keep.
  abbrev pub Sheddable : Candidate → Type 0
  Sheddable c =
      ((e : Bytes × Entry) × Memᴰ e t
        × (c ≡ candidate e)
        × (is_in e.0 removals ≡ false)
        × (is_in e.0 (keys_of updates) ≡ false)
        × (is_in e.0 keep_keys ≡ false))
      ⊎ ((u : Bytes × Entry) × Memᴰ u updates × (c ≡ candidate u) × (is_in u.0 keep_keys ≡ false))

  candidates-Mem : (c : Candidate) → Memᴰ c (candidates t updates removals keep_keys) ↔ Sheddable c
  unfolding candidates
  candidates-Mem c =
      let stored = keep-Mem (λ e. is_spare removals updates keep_keys e.0) c t in
      let written = keep-Mem (λ u. not (is_in u.0 keep_keys)) c updates in
      (
        λ m. elim (Memᴰ.append_cases _ m) [
          | inl k ↦
              let (e, there, same, spare) = stored.0 k in
              unfold is_spare in inl (e, there, same, ground arith, ground arith, ground arith)
          | inr k ↦ let (u, there, same, kept) = written.0 k in inr (u, there, same, ground arith)
        ],
        λ h. elim h [
          | inl (e, there, same, removed, updated, kept) ↦
              Memᴰ.append_left _ (stored.1 (e, there, same, unfold is_spare in ground arith))
          | inr (u, there, same, kept) ↦
              Memᴰ.append_right _ (written.1 (u, there, same, ground arith))
        ],
      )

-- The candidates, in their order, each once, and the run of them that is shed.
abbrev pub Evicts :
    LruState → List (Bytes × Entry) → List Bytes → Bool → ℕ → List Bytes → Plan → Type 0
Evicts s updates removals is_cleared budget keep_keys p =
    (cs : List Candidate) × OldestFirst cs
    × DistinctKeys cs
    × ((c : Candidate)
        → Memᴰ c cs ↔ Sheddable (remaining s is_cleared) updates removals keep_keys c)
    × Sheds budget (sum_bytes (insert_all updates (remove_keys removals (remaining s is_cleared))))
        cs p

remaining-IsSorted :
    (s : LruState) (is_cleared : Bool) → IsSorted s.entries → IsSorted (remaining s is_cleared)
remaining-IsSorted s true o = tt
remaining-IsSorted s false o = o

-- A plan sheds the least recently used entries, and no more of them than it must: the entries that
-- the commit neither removes, rewrites nor keeps and the updates that it does not keep, each once
-- and in the order of their ticks, then of their keys, have the victims as their shortest run that
-- brings the sum of what the commit leaves accounted for within the budget; where all of them are
-- not enough, it sheds them all. It is assumed that the accounting was right before, that the
-- commit names no key twice and none both removed and updated, and that the sizes together fit a
-- u64.
pub plan-Evicts :
    (s : LruState) (updates : List (Bytes × Entry)) (removals : List Bytes) (is_cleared : Bool)
    (budget : ℕ) (keep_keys : List Bytes)
    → IsAccounted s
    → IsBatch updates removals
    → sum_bytes (remaining s is_cleared) + sum_updates updates ≤ max_u64
    → Evicts s updates removals is_cleared budget keep_keys
        (plan s updates removals is_cleared budget keep_keys)
plan-Evicts s updates removals is_cleared budget keep_keys a batch small =
    let t = remaining s is_cleared in
    let sorted = remaining-IsSorted s is_cleared a.sorted in
    let (order, sheds) = plan-Sheds s updates removals is_cleared budget keep_keys in
    (
      ranked s updates removals is_cleared budget keep_keys,
      Ranked-OldestFirst _ order,
      sort-DistinctKeys _
          (candidates-DistinctKeys t sorted updates batch.updates_differ removals keep_keys),
      λ c.
          let sorting = sort-Mem c (candidates t updates removals keep_keys) in
          let pool = candidates-Mem t updates removals keep_keys c in
          (λ m. pool.0 (sorting.0 m), λ h. sorting.1 (pool.1 h)),
      subst
          (λ total.
            Sheds budget total (ranked s updates removals is_cleared budget keep_keys)
              (plan s updates removals is_cleared budget keep_keys))
          (total_after-sum s updates removals is_cleared a batch small) sheds,
    )
