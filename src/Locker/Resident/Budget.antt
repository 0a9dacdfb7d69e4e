-- ===== src/Locker/Resident/Budget.antt =====
-- The byte budget of src/locker/resident.rs: what a commit does to the accounting, before and after it.
use crossbank.Prelude.{
  ℕ, Bool, true, false, Option, none, some, List, [], ◌∷◌, ◌++◌, length, map, if◌then◌else◌,
}
use crossbank.Error.{Result, ok, err, panic}
use crossbank.Bytes.{Bytes}
use crossbank.Tree
use crossbank.Backend.Api.{Op}
use crossbank.Backend.Memory.{MemoryBackend}
use crossbank.Watch.{Event}
use crossbank.Locker.Policy.{Policy, precious, evictable}
use crossbank.Locker.Inner.{unknown}
use crossbank.Locker.Inner.Write.{delete_value_ops}
use crossbank.Locker.Lru.Entries
use crossbank.Locker.Lru.Entries.{Entry}
use crossbank.Locker.Lru.Clock
use crossbank.Locker.Lru.Clock.{TickState}
use crossbank.Locker.Lru.State.{
  LruState, contains_key, adopt_loaded, touch, pending_ops, clear_pending, adopt, retain_keys, load,
  remote_put, remote_delete, remote_clear,
}
use crossbank.Locker.Lru.Planning
use crossbank.Locker.Lru.Planning.{Plan, plan}
use crossbank.Locker.Resident.{
  Resident, Act, KeySet, ◌>>=◌, ◌>>◌, give, modify, read, touch_index, note_inline, announce,
  commit, Accounting,
}

-- What one commit does to the accounting.
pub record Budget : Type 0 where
  pub updates : List (Bytes × Entry)
  pub removals : List Bytes
  pub is_cleared : Bool
  pub plan : Plan
  pub pending : List Bytes

-- `Budget::default`
abbrev pub no_budget : Budget
no_budget = record {
  updates = [];
  removals = [];
  is_cleared = false;
  plan = record { victims = []; total = 0 };
  pending = [];
}

unfoldable pub total_of : Option LruState → ℕ
total_of none = 0
total_of (some s) = s.total

unfoldable budget_used : Resident → ℕ
unfolding total_of
budget_used r = total_of r.lru

-- A change of the accounting, where there is one.
abbrev pub change_lru : (LruState → LruState) → Option LruState → Option LruState
change_lru change none = none
change_lru change (some s) = some (change s)

abbrev with_lru : (LruState → LruState) → Resident → Resident
with_lru change r = record r { lru = change_lru change r.lru }

-- A call of the bank's clock.
unfoldable pub with_ticks :
    {A : Type 0} → (MemoryBackend → TickState → Result A × TickState) → Act A
with_ticks call r =
    let (result, ticks) = call r.backend r.ticks in (result, record r { ticks = ticks })

unfoldable pub allocate_tick : Act ℕ
unfolding with_ticks
allocate_tick = with_ticks Clock.allocate

unfoldable pub note_read_in : Bytes → Option LruState → Act (Unit {0})
unfolding allocate_tick
note_read_in key none = give (ok tt)
note_read_in key (some s) = do tick ← allocate_tick; modify (with_lru (λ s. touch s key tick))

-- `note_read`
unfoldable pub note_read : Bytes → Act (Unit {0})
unfolding note_read_in
note_read key r = note_read_in key r.lru r

unfoldable pub reload_if : Option LruState → Act (Unit {0})
reload_if none = give (ok tt)
reload_if (some s) =
    if s.is_dirty
    then (do
      r ← read (λ r. r)
      loaded ← with_ticks (λ b ticks. load b r.inner.id s.max_bytes ticks)
      modify (with_lru (λ s. adopt_loaded s loaded)))
    else give (ok tt)

-- `reload_lru_if_dirty`
unfoldable pub reload_lru_if_dirty : Act (Unit {0})
unfolding reload_if with_ticks
reload_lru_if_dirty r = reload_if r.lru r

abbrev stamped : ℕ → List (Bytes × ℕ) → List (Bytes × Entry)
stamped tick updates = map (λ u. (u.0, record { tick = tick; bytes = u.1 })) updates

abbrev clear_ops : ℕ → Bool → List Op
clear_ops id true = Entries.clear_op id ∷ []
clear_ops id false = []

-- The mutations that drop what a plan sheds.
unfoldable pub victim_ops : List Bytes → Act (List Op)
victim_ops [] = give (ok [])
victim_ops (victim ∷ rest) = do
  r ← read (λ r. r)
  ops ← give (delete_value_ops r.inner r.backend victim unknown)
  more ← victim_ops rest
  give (ok (ops ++ (Entries.delete_op r.inner.id victim ∷ more)))

-- The deferred ticks that a commit carries: none, where it clears.
unfoldable pub carried : LruState → ℕ → Bool → List Bytes → List Bytes × List Op
carried s id true skip = ([], [])
carried s id false skip = pending_ops s id skip

unfoldable pub plan_ops :
    LruState → List (Bytes × Entry) → List Bytes → Bool → List Bytes → Act (List Op × Budget)
unfolding carried victim_ops
plan_ops s updates removals is_cleared keep_keys = do
  r ← read (λ r. r)
  let id = r.inner.id
  let p = plan s updates removals is_cleared s.max_bytes keep_keys
  let held = carried s id is_cleared (map (λ u. u.0) updates)
  shed ← victim_ops p.victims
  after ← read (λ r. r)
  give (
      ok (
        clear_ops id is_cleared
            ++ (map (λ u. Entries.put_op id u.0 u.1) updates
                ++ (held.1
                    ++ (map (Entries.delete_op id) removals
                        ++ (shed ++ (Clock.counter_op after.ticks ∷ []))))),
        record {
          updates = updates;
          removals = removals;
          is_cleared = is_cleared;
          plan = p;
          pending = held.0;
        },
      ))

unfoldable pub plan_with : Option LruState → ℕ → Accounting → List Bytes → Act (List Op × Budget)
unfolding plan_ops
plan_with none tick a keep_keys = give (ok ([], no_budget))
plan_with (some s) tick a keep_keys =
    plan_ops s (stamped tick a.updates) a.removals a.is_cleared keep_keys

unfoldable pub budget_with : Option LruState → Accounting → List Bytes → Act (List Op × Budget)
unfolding plan_with reload_lru_if_dirty allocate_tick
budget_with none a keep_keys = give (ok ([], no_budget))
budget_with (some s) a keep_keys = do
  reload_lru_if_dirty
  tick ← allocate_tick
  r ← read (λ r. r)
  plan_with r.lru tick a keep_keys

-- `budget_ops`: the mutations that go behind those of the commit, and what to apply once it lands.
unfoldable pub budget_ops : Accounting → List Bytes → Act (List Op × Budget)
unfolding budget_with
budget_ops a keep_keys r = budget_with r.lru a keep_keys r

unfoldable pub forget_victims : List Bytes → KeySet → KeySet
forget_victims [] keys = keys
forget_victims (victim ∷ rest) keys = forget_victims rest (Tree.remove victim keys)

unfoldable unmark_all : List Bytes → Resident → Resident
unmark_all [] r = r
unmark_all (victim ∷ rest) r = unmark_all rest (note_inline victim false r)

unfoldable announce_evicted : List Bytes → Resident → Resident
announce_evicted [] r = r
announce_evicted (victim ∷ rest) r = announce_evicted rest (announce (Event.evicted victim) r)

-- `apply_budget`
unfoldable pub apply_budget : Budget → Resident → Resident
unfolding forget_victims unmark_all announce_evicted
apply_budget b r =
    let applied =
      with_lru
        (λ s. clear_pending (Planning.apply s b.updates b.removals b.is_cleared b.plan) b.pending)
        r in
    announce_evicted b.plan.victims
      (unmark_all b.plan.victims (touch_index (forget_victims b.plan.victims) applied))

unfoldable evict_victims : Plan → List Bytes → Act ℕ
evict_victims p [] = give (ok 0)
evict_victims p (victim ∷ rest) = do
  ops ← victim_ops (victim ∷ rest)
  commit ops
  modify (apply_budget (record no_budget { plan = p }))
  give (ok (length (victim ∷ rest)))

unfoldable evict_in : ℕ → Option LruState → Act ℕ
unfolding evict_victims
evict_in bytes none = give (ok 0)
evict_in bytes (some s) = let p = plan s [] [] false bytes [] in evict_victims p p.victims

-- `evict_to`
unfoldable pub evict_to : ℕ → Act ℕ
unfolding evict_in
evict_to bytes r = evict_in bytes r.lru r

-- Another tab's news.
unfoldable remote_budget : Bytes → Option ℕ → Bool → Resident → Resident
remote_budget key bytes is_deleted =
    with_lru (λ s. if is_deleted then remote_delete s key else remote_put s key bytes)

unfoldable remote_budget_clear : Resident → Resident
remote_budget_clear = with_lru remote_clear

unfoldable adopt_all : KeySet → LruState → LruState
adopt_all [] s = s
adopt_all ((key, _) ∷ rest) s = adopt_all rest (adopt s key)

unfoldable reconciled : KeySet → Result LruState → Result (Option LruState)
unfolding adopt_all
reconciled index (ok s) = ok (some (adopt_all index (retain_keys s (contains_key index))))
reconciled index (err e) = err e
reconciled index panic = panic

unfoldable pub open_lru_for :
    Policy → MemoryBackend → ℕ → KeySet → TickState → Result (Option LruState) × TickState
unfolding reconciled
open_lru_for precious b id index ticks = (ok none, ticks)
open_lru_for (evictable max_bytes) b id index ticks =
    let (loaded, ticks') = load b id max_bytes ticks in (reconciled index loaded, ticks')
