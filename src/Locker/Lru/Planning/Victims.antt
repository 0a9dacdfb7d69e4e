-- ===== src/Locker/Lru/Planning/Victims.antt =====
-- Which keys a plan sheds, and how many.
use crossbank.Prelude.{
  ℕ, zero, suc, ◌+◌, ◌-◌, ◌≤◌, ◌<◌, ◌≡◌, refl, ap, sym, subst, Bool, true, false, not, List, [],
  ◌∷◌, map, arith, length, leb, take, All, All-append, All-take, All-keep_self, Bool-cases, inl,
  inr, ◌⊎◌,
}
use crossbank.Bytes.{Bytes, bytes_lt_asymm, bytes_le_lt}
use crossbank.Tree.{Tree}
use crossbank.Locker.Lru.Entries.{Entry}
use crossbank.Locker.Lru.State.{LruState, is_in}
use crossbank.Locker.Lru.Planning.{
  Plan, Candidate, candidate, is_spare, candidates, sheds_before, insert_sorted, sort, shed,
  remaining, total_after, plan,
}

abbrev sum_candidates : List Candidate → ℕ
sum_candidates [] = 0
sum_candidates (c ∷ cs) = c.bytes + sum_candidates cs

-- Each is in the order of the sort: none of those that follow is shed before it.
abbrev pub Ranked : List Candidate → Type 0
Ranked [] = Unit
Ranked (c ∷ cs) = All (λ d. sheds_before d c ≡ false) cs × Ranked cs

-- Shedding takes a shortest prefix that brings the total within the budget, or all there is.
abbrev pub Sheds : ℕ → ℕ → List Candidate → Plan → Type 0
Sheds budget total cs p =
    (p.victims ≡ map (λ c. c.key) (take (length p.victims) cs))
    × (p.total ≡ total - sum_candidates (take (length p.victims) cs))
    × ((p.total ≤ budget) ⊎ (length p.victims ≡ length cs))
    × ((m : ℕ) → m < length p.victims → budget < total - sum_candidates (take m cs))

none_shed :
    (budget total : ℕ) (cs : List Candidate)
    → total ≤ budget
    → Sheds budget total cs (record { victims = []; total = total })
none_shed budget total cs h = (refl, omega arith, inl h, λ m l. absurd (omega arith))

one_more :
    (budget total : ℕ) (c : Candidate) (cs : List Candidate) (p : Plan)
    → budget < total
    → Sheds budget (total - c.bytes) cs p
    → Sheds budget total (c ∷ cs) (record { victims = c.key ∷ p.victims; total = p.total })
one_more budget total c cs p over (keys, left, within, least) = (
  ap (λ ks. c.key ∷ ks) keys,
  omega (arith, left),
  elim within [ inl a ↦ inl a | inr e ↦ inr (ap suc e) ],
  fewer,
)
  where
    fewer : (m : ℕ) → m < suc (length p.victims) → budget < total - sum_candidates (take m (c ∷ cs))
    fewer zero l = omega arith
    fewer (suc m) l = omega (arith, least m (omega arith))

shed-Sheds : (budget total : ℕ) (cs : List Candidate) → Sheds budget total cs (shed budget total cs)
unfolding shed
shed-Sheds budget total [] = (refl, omega arith, inr refl, λ m l. absurd (omega arith))
shed-Sheds budget total (c ∷ cs) = elim (Bool-cases (leb total budget)) [
  | inl e ↦ rw e (none_shed budget total (c ∷ cs) (ground arith))
  | inr n ↦ rw n (
      one_more budget total c cs (shed budget (total - c.bytes) cs) (ground arith)
        (shed-Sheds budget (total - c.bytes) cs))
]

pub insert_sorted-All {κ} :
    (P : Candidate → Type κ) (c : Candidate) (cs : List Candidate)
    → P c
    → All P cs
    → All P (insert_sorted c cs)
unfolding insert_sorted
insert_sorted-All P c [] h a = (h, tt)
insert_sorted-All P c (d ∷ ds) h a = elim (Bool-cases (sheds_before d c)) [
  | inl e ↦ rw e (a.0, insert_sorted-All P c ds h a.1)
  | inr n ↦ rw n (h, a)
]

pub sort-All {κ} : (P : Candidate → Type κ) (cs : List Candidate) → All P cs → All P (sort cs)
unfolding sort
sort-All P [] a = tt
sort-All P (c ∷ cs) a = insert_sorted-All P c (sort cs) a.0 (sort-All P cs a.1)

sheds_before_asymm : (a b : Candidate) → sheds_before a b ≡ true → sheds_before b a ≡ false
unfolding sheds_before
sheds_before_asymm a b h = ground (arith, bytes_lt_asymm a.key b.key)

sheds_before_trans :
    (a b c : Candidate)
    → sheds_before b a ≡ false
    → sheds_before c b ≡ false
    → sheds_before c a ≡ false
unfolding sheds_before
sheds_before_trans a b c h k = ground (arith, bytes_le_lt b.key c.key a.key)

none_before :
    (c d : Candidate) (ds : List Candidate)
    → sheds_before d c ≡ false
    → All (λ x. sheds_before x d ≡ false) ds
    → All (λ x. sheds_before x c ≡ false) ds
none_before c d [] h a = tt
none_before c d (x ∷ xs) h a = (sheds_before_trans c d x h a.0, none_before c d xs h a.1)

insert_sorted-Ranked :
    (c : Candidate) (cs : List Candidate) → Ranked cs → Ranked (insert_sorted c cs)
unfolding insert_sorted
insert_sorted-Ranked c [] o = (tt, tt)
insert_sorted-Ranked c (d ∷ ds) o = elim (Bool-cases (sheds_before d c)) [
  | inl e ↦ rw e (
    insert_sorted-All (λ x. sheds_before x d ≡ false) c ds (sheds_before_asymm d c e) o.0,
    insert_sorted-Ranked c ds o.1,
  )
  | inr n ↦ rw n ((n, none_before c d ds n o.0), o)
]

sort-Ranked : (cs : List Candidate) → Ranked (sort cs)
unfolding sort
sort-Ranked [] = tt
sort-Ranked (c ∷ cs) = insert_sorted-Ranked c (sort cs) (sort-Ranked cs)

module _ (s : LruState) (updates : List (Bytes × Entry)) (removals : List Bytes) (is_cleared : Bool)
    (budget : ℕ) (keep_keys : List Bytes) where
  abbrev pub ranked : List Candidate
  ranked = sort (candidates (remaining s is_cleared) updates removals keep_keys)

  -- A plan sheds a prefix of its candidates in the order of the sort.
  pub plan-Sheds :
      Ranked ranked
      × Sheds budget
          (total_after s updates removals is_cleared)
          ranked
          (plan s updates removals is_cleared budget keep_keys)
  unfolding plan
  plan-Sheds =
      let total = total_after s updates removals is_cleared in
      (
        sort-Ranked (candidates (remaining s is_cleared) updates removals keep_keys),
        elim (Bool-cases (leb total budget)) [
          | inl e ↦ rw e (none_shed budget total ranked (ground arith))
          | inr n ↦ rw n (shed-Sheds budget total ranked)
        ],
      )

  map-All :
      (p : Bytes → Bool) (t : Tree Entry)
      → All (λ e. p e.0 ≡ true) t
      → ((k : Bytes) → p k ≡ true → is_in k keep_keys ≡ false)
      → All (λ c. is_in c.key keep_keys ≡ false) (map candidate t)
  map-All p [] a h = tt
  map-All p (e ∷ t) a h = (h e.0 a.0, map-All p t a.1 h)

  kept_out : All (λ c. is_in c.key keep_keys ≡ false) ranked
  unfolding candidates
  kept_out =
      sort-All (λ c. is_in c.key keep_keys ≡ false) _
        (All-append (λ c. is_in c.key keep_keys ≡ false) _ _
          (map-All (is_spare removals updates keep_keys) _
            (All-keep_self _ (remaining s is_cleared)) (λ k h. unfold is_spare in ground arith))
          (map-All (λ k. not (is_in k keep_keys)) _ (All-keep_self _ updates)
            (λ k h. ground arith)))

  keys-All :
      (cs : List Candidate)
      → All (λ c. is_in c.key keep_keys ≡ false) cs
      → All (λ k. is_in k keep_keys ≡ false) (map (λ c. c.key) cs)
  keys-All [] a = tt
  keys-All (c ∷ cs) a = (a.0, keys-All cs a.1)

  -- A plan never sheds a key that the commit is to keep, however far over the budget it is.
  pub plan-keeps :
      All
        (λ k. is_in k keep_keys ≡ false)
        (plan s updates removals is_cleared budget keep_keys).victims
  plan-keeps =
      let p = plan s updates removals is_cleared budget keep_keys in
      subst (All (λ k. is_in k keep_keys ≡ false)) (sym plan-Sheds.1.0) (
        keys-All (take (length p.victims) ranked)
          (All-take (λ c. is_in c.key keep_keys ≡ false) (length p.victims) ranked kept_out))
