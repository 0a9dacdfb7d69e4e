-- ===== src/Locker/Resident/Flush/Batch.antt =====
-- A flush loses nothing: a batch that does not land is still staged.
use mathlib.Core.List.{append-nil}
use crossbank.Locker.Lru.Entries.{Entry}
use crossbank.Prelude.{
  ℕ, ◌≡◌, refl, ap, sym, ◌∙◌, Bool, Option, none, some, List, [], ◌∷◌, ◌++◌, arith, Bool-cases, inl,
  inr, length, ◌==◌,
}
use crossbank.Error.{Result, ok, err, panic, Error}
use crossbank.Bytes.{Bytes}
use crossbank.Backend.Memory
use crossbank.Backend.Memory.{MemoryBackend}
use crossbank.Locker.Inner.{unknown}
use crossbank.Locker.Inner.Write.{delete_value_ops}
use crossbank.Locker.Chunk.{ValueIds}
use crossbank.Locker.Lru.Clock.{TickState, allocate}
use crossbank.Locker.Lru.Planning.{plan}
use crossbank.Locker.Lru.State.{LruState, load, adopt_loaded}
use crossbank.Locker.Transaction.{Pending, ops_for_items}
use crossbank.Locker.Resident.{
  Resident, Act, ◌>>=◌, give, modify, continue, take_staged, restage, accounting, Accounting,
  commit, committed, with_values,
}
use crossbank.Locker.Resident.Budget.{
  Budget, budget_ops, budget_with, plan_with, plan_ops, victim_ops, with_ticks, reload_lru_if_dirty,
  reload_if, allocate_tick, apply_budget, change_lru,
}
use crossbank.Locker.Resident.Flush.{
  commit_entries, or_restage, flush_entries, flush_locked, flush, written_keys,
}

-- The batch, the backend and all that the locker shows are as they were: only the counters and the
-- accounting may have moved.
abbrev pub IsStill : Resident → Resident → Type 0
IsStill r r' =
    (values : ValueIds) × (ticks : TickState) × (lru : Option LruState) × (r'
      ≡ record r { values = values; ticks = ticks; lru = lru })
    × (r.lru ≡ none → lru ≡ none)

abbrev pub Stays : {A : Type 0} → Act A → Type 0
Stays m = (r : Resident) → IsStill r (m r).1

IsStill-trans : (r s t : Resident) → IsStill r s → IsStill s t → IsStill r t
IsStill-trans r s t (_, _, _, e, m) (v, c, l, f, n) = (
  v,
  c,
  l,
  f ∙ ap (λ (x : Resident). record x { values = v; ticks = c; lru = l }) e,
  λ h. n (ap (λ (x : Resident). x.lru) e ∙ m h),
)

bind-Stays :
    {A B : Type 0} (m : Act A) (next : A → Act B)
    → Stays m
    → ((a : A) → Stays (next a))
    → Stays (m >>= next)
bind-Stays {A} {B} m next h k r = go (m r) (h r)
  where
    go : (x : Result A × Resident) → IsStill r x.1 → IsStill r (continue x next).1
    go (ok a, s) e = IsStill-trans r s (next a s).1 e (k a s)
    go (err e, s) i = i
    go (panic, s) i = i

pub still : (r : Resident) → IsStill r r
still r = (r.values, r.ticks, r.lru, refl, λ h. h)

with_ticks-Stays :
    {A : Type 0} (call : MemoryBackend → TickState → Result A × TickState) → Stays (with_ticks call)
unfolding with_ticks
with_ticks-Stays call r = (r.values, (call r.backend r.ticks).1, r.lru, refl, λ h. h)

pub with_values-Stays :
    {A : Type 0} (call : MemoryBackend → ValueIds → Result A × ValueIds) → Stays (with_values call)
unfolding with_values
with_values-Stays call r = ((call r.backend r.values).1, r.ticks, r.lru, refl, λ h. h)

reload_if-Stays : (l : Option LruState) → Stays (reload_if l)
unfolding reload_if
reload_if-Stays none r = still r
reload_if-Stays (some s) r = elim (Bool-cases s.is_dirty) [
  | inl e ↦ rw e (
      bind-Stays (λ r. with_ticks (λ b ticks. load b r.inner.id s.max_bytes ticks) r) _
        (λ r. with_ticks-Stays (λ b ticks. load b r.inner.id s.max_bytes ticks) r)
        (λ loaded r.
          (r.values, r.ticks, _, refl, λ h. ap (change_lru (λ s. adopt_loaded s loaded)) h))
        r)
  | inr e ↦ rw e (still r)
]

victim_ops-Stays : (victims : List Bytes) → Stays (victim_ops victims)
unfolding victim_ops
victim_ops-Stays [] r = still r
victim_ops-Stays (victim ∷ rest) r =
    bind-Stays (give (delete_value_ops r.inner r.backend victim unknown)) _ still
      (λ ops. bind-Stays (victim_ops rest) _ (victim_ops-Stays rest) (λ more. still)) r

plan_ops-Stays :
    (s : LruState) (updates : List (Bytes × Entry)) (removals : List Bytes) (is_cleared : Bool)
    (keep_keys : List Bytes)
    → Stays (plan_ops s updates removals is_cleared keep_keys)
unfolding plan_ops
plan_ops-Stays s updates removals is_cleared keep_keys r =
    bind-Stays (victim_ops (plan s updates removals is_cleared s.max_bytes keep_keys).victims) _
      (victim_ops-Stays (plan s updates removals is_cleared s.max_bytes keep_keys).victims)
      (λ shed. still) r

plan_with-Stays :
    (l : Option LruState) (tick : ℕ) (a : Accounting) (keep_keys : List Bytes)
    → Stays (plan_with l tick a keep_keys)
unfolding plan_with
plan_with-Stays none tick a keep_keys r = still r
plan_with-Stays (some s) tick a keep_keys r = plan_ops-Stays s _ a.removals a.is_cleared keep_keys r

budget_with-Stays :
    (l : Option LruState) (a : Accounting) (keep_keys : List Bytes)
    → Stays (budget_with l a keep_keys)
unfolding budget_with reload_lru_if_dirty allocate_tick
budget_with-Stays none a keep_keys r = still r
budget_with-Stays (some s) a keep_keys r =
    bind-Stays reload_lru_if_dirty _ (λ r. reload_if-Stays r.lru r)
      (λ _.
        bind-Stays (with_ticks allocate) _ (with_ticks-Stays allocate)
          (λ tick r. plan_with-Stays r.lru tick a keep_keys r))
      r

-- Working out a budget writes nothing.
budget_ops-Stays : (a : Accounting) (keep_keys : List Bytes) → Stays (budget_ops a keep_keys)
unfolding budget_ops
budget_ops-Stays a keep_keys r = budget_with-Stays r.lru a keep_keys r

-- What a commit that fails leaves.
abbrev pub StillUnlessDone : {A : Type 0} → Resident → Result A × Resident → Type 0
StillUnlessDone r (ok a, s) = Unit
StillUnlessDone r (err e, s) = IsStill r s
StillUnlessDone r (panic, s) = IsStill r s

pub bind-StillUnlessDone :
    {A B : Type 0} (m : Act A) (next : A → Act B) (r : Resident)
    → Stays m
    → ((a : A) (s : Resident) → StillUnlessDone s (next a s))
    → StillUnlessDone r ((m >>= next) r)
bind-StillUnlessDone {A} {B} m next r h k = go (m r) (h r)
  where
    carry :
        (s : Resident) (x : Result B × Resident)
        → IsStill r s
        → StillUnlessDone s x
        → StillUnlessDone r x
    carry s (ok b, t) i u = tt
    carry s (err e, t) i u = IsStill-trans r s t i u
    carry s (panic, t) i u = IsStill-trans r s t i u

    go : (x : Result A × Resident) → IsStill r x.1 → StillUnlessDone r (continue x next)
    go (ok a, s) i = carry s (next a s) i (k a s)
    go (err e, s) i = i
    go (panic, s) i = i

committed-StillUnlessDone :
    {A : Type 0} (a : A) (r : Resident) (x : Result MemoryBackend)
    → StillUnlessDone r (continue (committed r x) (λ _. give (ok a)))
unfolding committed
committed-StillUnlessDone a r (ok b) = tt
committed-StillUnlessDone a r (err e) = still r
committed-StillUnlessDone a r panic = still r

pub commit_entries-StillUnlessDone :
    (entries : List Pending) (r : Resident) → StillUnlessDone r (commit_entries entries r)
unfolding commit_entries commit
commit_entries-StillUnlessDone entries r =
    bind-StillUnlessDone (with_values (λ b values. ops_for_items r.inner b entries r.mode values)) _
      r (with_values-Stays _)
      (λ ops s.
        bind-StillUnlessDone (budget_ops (accounting entries) (written_keys (accounting entries))) _
          s (budget_ops-Stays (accounting entries) (written_keys (accounting entries)))
          (λ x t. committed-StillUnlessDone x.1 t (Memory.commit t.backend (ops ++ x.0))))

-- The batch is put back in front of what is staged, which is nothing.
pub flush_entries-StillUnlessDone :
    (entries : List Pending) (r : Resident) (e : Error) (r' : Resident)
    → r.staged ≡ entries
    → flush_entries entries (record r { staged = [] }) ≡ (err e, r')
    → IsStill r r'
unfolding flush_entries restage
flush_entries-StillUnlessDone [] r e r' same h = absurd (ground (arith, ap (λ x. x.0) h))
flush_entries-StillUnlessDone (entry ∷ entries) r e r' same h =
    go (commit_entries (entry ∷ entries) (record r { staged = [] }))
      (commit_entries-StillUnlessDone (entry ∷ entries) (record r { staged = [] })) h
  where
    go :
        (x : Result Budget × Resident)
        → StillUnlessDone (record r { staged = [] }) x
        → continue (or_restage (entry ∷ entries) x) (λ budget. modify (apply_budget budget))
          ≡ (err e, r')
        → IsStill r r'
    go (ok b, s) i h = absurd (ground (arith, ap (λ x. x.0) h))
    go (panic, s) i h = absurd (ground (arith, ap (λ x. x.0) h))
    go (err e, s) (v, t, l, i, m) h = (
      v,
      t,
      l,
      sym (ap (λ x. x.1) h)
          ∙ ap (λ (x : Resident). record x { staged = (entry ∷ entries) ++ x.staged }) i
          ∙ ap (λ x. record r { values = v; ticks = t; lru = l; staged = x })
              (append-nil (entry ∷ entries) ∙ sym same),
      m,
    )

-- A flush that fails leaves the batch staged, in its order, and the backend, the index and all else
-- that the locker holds as they were: only the bank's counters and the accounting may have moved.
pub flush-IsStill : (r r' : Resident) (e : Error) → flush r ≡ (err e, r') → IsStill r r'
unfolding flush flush_locked take_staged
flush-IsStill r r' e h = elim (Bool-cases (length r.staged == 0)) [
  | inl z ↦ absurd (ground (arith, ap (λ x. x.0) (rw z at h)))
  | inr n ↦ flush_entries-StillUnlessDone r.staged r e r' refl (rw n at h)
]
