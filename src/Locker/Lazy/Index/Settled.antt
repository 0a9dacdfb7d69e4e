-- ===== src/Locker/Lazy/Index/Settled.antt =====
-- A call that ends in a commit keeps the index true, whether it succeeds or fails.
use crossbank.Prelude.{
  ◌≡◌, refl, ap, sym, ◌∙◌, Bool, true, false, Option, none, some, List, [], ◌++◌, Bool-cases, inl,
  inr, if◌then◌else◌, subst,
}
use mathlib.Core.List.{append-nil}
use crossbank.Error.{Result, ok, err, panic, closed}
use crossbank.Bytes.{Bytes, bytes_eq, bytes_eq_iff}
use crossbank.Backend.Api.{records, Op}
use crossbank.Backend.Memory
use crossbank.Backend.Memory.{MemoryBackend}
use crossbank.Backend.Memory.Refines.{effects, value_at}
use crossbank.Watch.{Event}
use crossbank.Locker.Chunk.{ValueIds}
use crossbank.Locker.Inner.{encode_key}
use crossbank.Locker.Inner.Write.Effects.{commit-ok}
use crossbank.Locker.Transaction.{TxMode}
use crossbank.Locker.Transaction.Lands.{LandsAt, bytes_eq-encode_key, Leaves}
use crossbank.Locker.Resident.{
  Resident, give, ensure_open, Act, is_deferred, ◌>>=◌, modify, continue, Accounting, commit,
  committed, announce, is_some, with_values,
}
use crossbank.Locker.Resident.Budget.{Budget, no_budget, budget_ops}
use crossbank.Locker.Resident.Flush.Batch.{IsStill, Stays}
use crossbank.Locker.Resident.Flush.Stored.{budget_ops-none}
use crossbank.Locker.Lazy.Index.{IsTrue, record_at, over}
use crossbank.Locker.Lazy.Index.Changes.{Leaves-over}

-- A call's outcome, where it is no panic, leaves the index true.
abbrev pub Upholds : {A : Type 0} → Result A × Resident → Type 0
Upholds (ok a, r) = IsTrue r
Upholds (err e, r) = IsTrue r
Upholds (panic, r) = Unit

pub IsStill-IsTrue : (r r' : Resident) → IsStill r r' → IsTrue r → IsTrue r'
unfolding is_deferred
IsStill-IsTrue r r' (values, ticks, lru, e, m) t = subst IsTrue (sym e) (record {
  unbudgeted = m t.unbudgeted;
  lazily = t.lazily;
  prompt = t.prompt;
  keys = t.keys;
  is_index = t.is_index;
  tells = t.tells;
  marks = t.marks;
})

pub announce-IsTrue : (event : Event) (r : Resident) → IsTrue r → IsTrue (announce event r)
unfolding announce is_deferred
announce-IsTrue event r t = record {
  unbudgeted = t.unbudgeted;
  lazily = t.lazily;
  prompt = t.prompt;
  keys = t.keys;
  is_index = t.is_index;
  tells = t.tells;
  marks = t.marks;
}

bind-Upholds :
    {A B : Type 0} (m : Act A) (next : A → Act B) (r : Resident)
    → Stays m
    → IsTrue r
    → ((a : A) (s : Resident) → m r ≡ (ok a, s) → IsTrue s → Upholds (next a s))
    → Upholds ((m >>= next) r)
bind-Upholds {A} {B} m next r h t k = go (m r) refl (IsStill-IsTrue r (m r).1 (h r) t)
  where
    go : (x : Result A × Resident) → m r ≡ x → IsTrue x.1 → Upholds (continue x next)
    go (ok a, s) e u = k a s e u
    go (err e, s) _ u = u
    go (panic, s) _ u = tt

pub with_values-Upholds :
    {A B : Type 0} (call : MemoryBackend → ValueIds → Result A × ValueIds) (next : A → Act B)
    (r : Resident)
    → IsTrue r
    → ((a : A) (values : ValueIds)
        → call r.backend r.values ≡ (ok a, values)
        → IsTrue (record r { values = values })
        → Upholds (next a (record r { values = values })))
    → Upholds ((with_values call >>= next) r)
unfolding with_values
with_values-Upholds {A} call next r t k = go (call r.backend r.values) refl
  where
    moved : (values : ValueIds) → IsTrue (record r { values = values })
    moved values =
        IsStill-IsTrue r (record r { values = values }) (values, r.ticks, r.lru, refl, λ h. h) t

    go :
        (x : Result A × ValueIds)
        → call r.backend r.values ≡ x
        → Upholds (continue (x.0, record r { values = x.1 }) next)
    go (ok a, values) e = k a values e (moved values)
    go (err e, values) _ = moved values
    go (panic, values) _ = tt

pub give-Upholds :
    {A B : Type 0} (x : Result A) (next : A → Act B) (r : Resident)
    → IsTrue r
    → ((a : A) → x ≡ ok a → Upholds (next a r))
    → Upholds ((give x >>= next) r)
give-Upholds (ok a) next r t k = k a refl
give-Upholds (err e) next r t k = t
give-Upholds panic next r t k = tt

-- A call on a locker that is closed changes nothing.
pub ensure_open-Upholds :
    {B : Type 0} (next : Unit {0} → Act B) (r : Resident)
    → IsTrue r
    → Upholds (next tt r)
    → Upholds ((ensure_open >>= next) r)
unfolding ensure_open
ensure_open-Upholds next r t k = go r.is_closed
  where
    go : (shut : Bool) → Upholds (continue (if shut then (err closed, r) else (ok tt, r)) next)
    go true = t
    go false = k

-- The end of every write: the budget's mutations, the commit, and what it shows.
abbrev settle : List Op → Accounting → List Bytes → (Budget → Resident → Resident) → Act (Unit {0})
settle ops a keep_keys show =
    budget_ops a keep_keys >>= λ x. commit (ops ++ x.0) >>= λ _. modify (show x.1)

pub settle-Upholds :
    (ops : List Op) (a : Accounting) (keep_keys : List Bytes) (show : Budget → Resident → Resident)
    (r : Resident)
    → IsTrue r
    → ((b : MemoryBackend)
        → Memory.commit r.backend ops ≡ ok b
        → IsTrue (show no_budget (record r { backend = b })))
    → Upholds (settle ops a keep_keys show r)
unfolding commit committed
settle-Upholds ops a keep_keys show r t k =
    subst (λ x. Upholds (continue x (λ x. commit (ops ++ x.0) >>= λ _. modify (show x.1))))
      (sym (budget_ops-none a keep_keys r t.unbudgeted))
      (go (Memory.commit r.backend (ops ++ []))
        (ap (Memory.commit r.backend) (sym (append-nil ops))))
  where
    go :
        (x : Result MemoryBackend)
        → Memory.commit r.backend ops ≡ x
        → Upholds (continue (committed r x) (λ _. modify (show no_budget)))
    go (ok b) e = k b e
    go (err e) _ = t
    go panic _ = tt

-- The mutations for one key leave the records of the others.
pub LandsAt-others :
    (r : Resident) (b : MemoryBackend) (mode : TxMode) (key : Bytes) (view : Option Bytes)
    (ops : List Op)
    → LandsAt r.inner mode key (some view) ops
    → Memory.commit r.backend ops ≡ ok b
    → (j : Bytes) → bytes_eq key j ≡ false
    → value_at b.tables records (encode_key r.inner j) ≡ record_at r j
LandsAt-others r b mode key view ops lands c j n =
    (commit-ok r.backend b ops c).1 records (encode_key r.inner j)
    ∙ lands.1 (encode_key r.inner j) (record_at r j) (bytes_eq-encode_key r.inner key j ∙ n)

-- What the mutations for one key leave, once committed.
pub LandsAt-over :
    (r : Resident) (b : MemoryBackend) (mode : TxMode) (key : Bytes) (view : Option Bytes)
    (ops : List Op)
    → LandsAt r.inner mode key (some view) ops
    → Memory.commit r.backend ops ≡ ok b
    → (j : Bytes)
    → is_some (value_at b.tables records (encode_key r.inner j))
      ≡ over (if bytes_eq key j then some view else none) (is_some (record_at r j))
LandsAt-over r b mode key view ops lands c j = elim (Bool-cases (bytes_eq key j)) [
  | inl e ↦
      let at = (commit-ok r.backend b ops c).1 records (encode_key r.inner j) in
      rw e (
        ap is_some at
        ∙ Leaves-over r.inner mode (some view) (record_at r j) _ (
            subst
              (λ i.
                Leaves r.inner mode (some view) (record_at r j)
                  (effects ops records (encode_key r.inner i) (record_at r j)))
              ((bytes_eq_iff key j).0 e) (lands.0 (record_at r j))))
  | inr n ↦ rw n (ap is_some (LandsAt-others r b mode key view ops lands c j n))
]
