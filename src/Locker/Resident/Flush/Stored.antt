-- ===== src/Locker/Resident/Flush/Stored.antt =====
-- What a flush that succeeds leaves in storage, for a locker without a byte budget.
use mathlib.Core.List.{append-nil}
use crossbank.Prelude.{
  ◌≡◌, refl, ap, sym, ◌∙◌, true, false, Option, none, some, List, [], ◌∷◌, ◌++◌, arith, subst,
  Bool-cases, inl, inr, length, ◌==◌,
}
use crossbank.Error.{Result, ok, err, panic, ok-inj}
use crossbank.Bytes.{Bytes, IsBytes}
use crossbank.Backend.Api.{records, contains, Op}
use crossbank.Backend.Memory
use crossbank.Backend.Memory.{MemoryBackend}
use crossbank.Backend.Memory.Refines.{value_at}
use crossbank.Key.{locker_range}
use crossbank.Locker.Chunk.{ValueIds}
use crossbank.Locker.Lru.State.{LruState, clear_pending}
use crossbank.Locker.Lru.Planning
use crossbank.Locker.Inner.{encode_key}
use crossbank.Locker.Transaction.{Pending, staged_view, ops_for_items}
use crossbank.Locker.Transaction.Lands.{Leaves}
use crossbank.Locker.Transaction.WriteSet.{ops_for_items-Lands}
use crossbank.Locker.Resident.{
  Resident, Act, ◌>>=◌, modify, continue, take_staged, accounting, Accounting, commit, committed,
  with_values, touch_index, change_set, KeySet, LruState,
}
use crossbank.Locker.Resident.Budget.{
  Budget, no_budget, budget_ops, budget_with, apply_budget, forget_victims, change_lru,
}
use crossbank.Locker.Resident.Flush.{
  commit_entries, or_restage, flush_entries, flush_locked, flush, written_keys,
}

-- A chain of calls that succeeds has a first call that succeeds.
pub bind-ok :
    {A B : Type 0} (m : Act A) (next : A → Act B) (r r' : Resident) (b : B)
    → (m >>= next) r ≡ (ok b, r')
    → (a : A) × (s : Resident) × (m r ≡ (ok a, s)) × (next a s ≡ (ok b, r'))
bind-ok {A} {B} m next r r' b h = go (m r) refl h
  where
    go :
        (x : Result A × Resident)
        → m r ≡ x
        → continue x next ≡ (ok b, r')
        → (a : A) × (s : Resident) × (m r ≡ (ok a, s)) × (next a s ≡ (ok b, r'))
    go (ok a, s) e h = (a, s, e, h)
    go (err e, s) _ h = absurd (ground (arith, ap (λ x. x.0) h))
    go (panic, s) _ h = absurd (ground (arith, ap (λ x. x.0) h))

-- Without a budget a commit has none to work out.
pub budget_ops-none :
    (a : Accounting) (keep_keys : List Bytes) (r : Resident)
    → r.lru ≡ none
    → budget_ops a keep_keys r ≡ (ok ([], no_budget), r)
unfolding budget_ops budget_with
budget_ops-none a keep_keys r h = ap (λ l. budget_with l a keep_keys r) h

-- A commit that lands replaces the backend and nothing else.
pub commit-lands :
    (ops : List Op) (r r' : Resident)
    → commit ops r ≡ (ok tt, r')
    → (b : MemoryBackend) × (Memory.commit r.backend ops ≡ ok b) × (r' ≡ record r { backend = b })
unfolding commit committed
commit-lands ops r r' h = go (Memory.commit r.backend ops) refl h
  where
    go :
        (x : Result MemoryBackend)
        → Memory.commit r.backend ops ≡ x
        → committed r x ≡ (ok tt, r')
        → (b : MemoryBackend) × (Memory.commit r.backend ops ≡ ok b)
          × (r' ≡ record r { backend = b })
    go (ok b) e h = (b, e, sym (ap (λ x. x.1) h))
    go (err e) _ h = absurd (ground (arith, ap (λ x. x.0) h))
    go panic _ h = absurd (ground (arith, ap (λ x. x.0) h))

-- The records of a locker, before and after, as the view of each key says; the others stay.
abbrev pub HasLanded : Resident → (Bytes → Option (Option Bytes)) → MemoryBackend → Type 0
HasLanded r view b =
    ((key : Bytes)
      → IsBytes key
      → Leaves r.inner r.mode (view key)
          (value_at r.backend.tables records (encode_key r.inner key))
          (value_at b.tables records (encode_key r.inner key)))
    × ((k : Bytes)
        → IsBytes k
        → contains (locker_range r.inner.id) k ≡ false
        → value_at b.tables records k ≡ value_at r.backend.tables records k)

pub commit_entries-HasLanded :
    (entries : List Pending) (r r' : Resident) (budget : Budget)
    → r.lru ≡ none
    → commit_entries entries r ≡ (ok budget, r')
    → (values : ValueIds) × (b : MemoryBackend) × (r' ≡ record r { values = values; backend = b })
      × (budget ≡ no_budget)
      × HasLanded r (λ key. staged_view key entries) b
unfolding commit_entries with_values
commit_entries-HasLanded entries r r' budget plain h =
    let call =
      λ (b : MemoryBackend) (values : ValueIds). ops_for_items r.inner b entries r.mode values in
    let (ops, s, made, h1) = bind-ok (with_values call) _ r r' budget h in
    let s_is : record r { values = (call r.backend r.values).1 } ≡ s = ap (λ x. x.1) made in
    let a = accounting entries in
    let (x, t, planned, h2) = bind-ok (budget_ops a (written_keys a)) _ s r' budget h1 in
    let free =
      budget_ops-none a (written_keys a) s (ap (λ (x : Resident). x.lru) (sym s_is) ∙ plain) in
    let same : (ok ([], no_budget), s) ≡ (ok x, t) = sym free ∙ planned in
    let x_is : ([], no_budget) ≡ x = ok-inj (ap (λ y. y.0) same) in
    let t_is : s ≡ t = ap (λ y. y.1) same in
    let (_, u, landed, h3) = bind-ok (commit (ops ++ x.0)) _ t r' budget h2 in
    let (b, c, u_is) = commit-lands (ops ++ x.0) t u landed in
    let all : t ≡ record r { values = (call r.backend r.values).1 } = sym (s_is ∙ t_is) in
    let ops_is : ops ++ x.0 ≡ ops = ap (λ y. ops ++ y.0) (sym x_is) ∙ append-nil ops in
    let c' : Memory.commit r.backend ops ≡ ok b =
      ap (λ o. Memory.commit r.backend o) (sym ops_is)
      ∙ ap (λ (y : Resident). Memory.commit y.backend (ops ++ x.0)) (sym all)
      ∙ c in
    let run : call r.backend r.values ≡ (ok ops, (call r.backend r.values).1) =
      ap (λ y. (y.0, (call r.backend r.values).1)) made in
    (
      (call r.backend r.values).1,
      b,
      sym (ap (λ y. y.1) h3) ∙ u_is ∙ ap (λ (y : Resident). record y { backend = b }) all,
      sym (ok-inj (ap (λ y. y.0) h3)) ∙ ap (λ y. y.1) (sym x_is),
      ops_for_items-Lands r.inner r.backend b r.mode entries r.values _ ops run c',
    )

-- A commit without a budget has nothing to apply.
pub apply_budget-none : (r : Resident) → r.lru ≡ none → apply_budget no_budget r ≡ r
unfolding apply_budget forget_victims touch_index
apply_budget-none r plain =
    ap (λ l. record r { lru = change_lru apply_none l; index = change_set (λ keys. keys) r.index })
      plain
    ∙ ap (λ x. record r { lru = none; index = x }) (unchanged r.index)
    ∙ ap (λ l. record r { lru = l }) (sym plain)
  where
    unchanged : (keys : Option KeySet) → change_set (λ keys. keys) keys ≡ keys
    unchanged none = refl
    unchanged (some keys) = refl

    apply_none : LruState → LruState
    apply_none s =
        clear_pending (Planning.apply s [] [] false (record { victims = []; total = 0 })) []

pub nil_of_length : (xs : List Pending) → (length xs == 0) ≡ true → xs ≡ []
nil_of_length [] h = refl
nil_of_length (x ∷ xs) h = absurd (ground arith)

nothing_staged : (r : Resident) → HasLanded r (λ key. staged_view key []) r.backend
unfolding staged_view
nothing_staged r = (λ key kb. refl, λ k kb out. refl)

pub flush_entries-HasLanded :
    (entries : List Pending) (r r' : Resident)
    → r.lru ≡ none
    → r.staged ≡ entries
    → flush_entries entries (record r { staged = [] }) ≡ (ok tt, r')
    → (values : ValueIds) × (b : MemoryBackend) × (r'
        ≡ record r { values = values; backend = b; staged = [] })
      × HasLanded r (λ key. staged_view key entries) b
unfolding flush_entries
flush_entries-HasLanded [] r r' plain same h =
    (r.values, r.backend, sym (ap (λ x. x.1) h), nothing_staged r)
flush_entries-HasLanded (entry ∷ entries) r r' plain same h =
    go (commit_entries (entry ∷ entries) (record r { staged = [] })) refl h
  where
    go :
        (x : Result Budget × Resident)
        → commit_entries (entry ∷ entries) (record r { staged = [] }) ≡ x
        → continue (or_restage (entry ∷ entries) x) (λ budget. modify (apply_budget budget))
          ≡ (ok tt, r')
        → (values : ValueIds) × (b : MemoryBackend) × (r'
            ≡ record r { values = values; backend = b; staged = [] })
          × HasLanded r (λ key. staged_view key (entry ∷ entries)) b
    go (ok budget, s) e h =
        let (values, b, s_is, b_is, landed) =
          commit_entries-HasLanded (entry ∷ entries) (record r { staged = [] }) s budget plain e in
        (
          values,
          b,
          sym (ap (λ x. x.1) h)
              ∙ ap (λ x. apply_budget x s) b_is
              ∙ apply_budget-none s (ap (λ (x : Resident). x.lru) s_is ∙ plain)
              ∙ s_is,
          landed,
        )
    go (err e, s) _ h = absurd (ground (arith, ap (λ x. x.0) h))
    go (panic, s) _ h = absurd (ground (arith, ap (λ x. x.0) h))

-- A flush that succeeds has stored all that was staged, and nothing is staged afterwards: each key of
-- the locker is left as the staged writes say, the last write of the key first, and the records outside
-- the locker are kept. The locker has no byte budget, and the keys are byte strings.
flush-HasLanded :
    (r r' : Resident)
    → r.lru ≡ none
    → flush r ≡ (ok tt, r')
    → (r'.staged ≡ []) × HasLanded r (λ key. staged_view key r.staged) r'.backend
unfolding flush flush_locked take_staged
flush-HasLanded r r' plain h = elim (Bool-cases (length r.staged == 0)) [
  | inl z ↦
      let same : r ≡ r' = ap (λ x. x.1) (rw z at h) in
      let nothing : r.staged ≡ [] = nil_of_length r.staged z in
      (
        ap (λ (x : Resident). x.staged) (sym same) ∙ nothing,
        subst (λ (x : Resident). HasLanded r (λ key. staged_view key r.staged) x.backend) same
            (subst (λ es. HasLanded r (λ key. staged_view key es) r.backend) (sym nothing)
              (nothing_staged r)),
      )
  | inr n ↦
      let (values, b, r_is, landed) =
        flush_entries-HasLanded r.staged r r' plain refl (rw n at h) in
      (
        ap (λ (x : Resident). x.staged) r_is,
        subst (HasLanded r (λ key. staged_view key r.staged))
            (ap (λ (x : Resident). x.backend) (sym r_is)) landed,
      )
]
