-- ===== src/Locker/Resident.antt =====
-- src/locker/resident.rs: what a locker holds in memory, and the parts of src/locker/inner.rs that
-- commit and announce, over the in-memory backend. A call takes the locker's state and returns it: the
-- locks are held for a whole call and are never poisoned, and no other tab listens.
pub mod Budget
pub mod Deletions
pub mod Flush
use crossbank.Prelude.{
  ℕ, ◌+◌, ◌-◌, ◌^◌, Bool, true, false, not, Option, none, some, List, [], ◌∷◌, ◌++◌, length, leb,
  ◌==◌, map, keep, if◌then◌else◌,
}
use crossbank.Error.{Result, ok, err, panic, Error, closed}
use crossbank.Bytes.{Bytes, bytes_eq}
use crossbank.Tree
use crossbank.Tree.{Tree}
use crossbank.Backend.Api.{Op}
use crossbank.Backend.Memory
use crossbank.Backend.Memory.{MemoryBackend}
use crossbank.Watch.{Event}
use crossbank.Locker.Policy.{Commit, deferred}
use crossbank.Locker.Chunk.{ValueIds}
use crossbank.Locker.Inner.{Inner, Prior, unknown, absent, inline}
use crossbank.Locker.Lru.Clock.{TickState}
use crossbank.Locker.Lru.State.{LruState, contains_key}
use crossbank.Locker.Transaction.{TxMode, Pending, staged_view}

-- `BTreeSet<Vec<u8>>`
abbrev pub KeySet : Type 0
KeySet = Tree (Unit {0})

-- `Resident`, with what it reaches: the backend, the bank's counters, the locker's flags, and the
-- events that were broadcast, the oldest first. `is_deaf` is being on the web with coherence off.
pub record Resident : Type 0 where
  pub inner : Inner
  pub mode : TxMode
  pub backend : MemoryBackend
  pub values : ValueIds
  pub ticks : TickState
  pub is_closed : Bool
  pub is_name_shared : Bool
  pub is_deaf : Bool
  pub announced : List Event
  pub index : Option KeySet
  pub lru : Option LruState
  pub staged : List Pending
  pub known_inline : Option KeySet
  pub corrupt : KeySet
  pub dropped : KeySet

-- A call on the state that may fail; the state that it leaves is there in any case.
abbrev pub Act : Type 0 → Type 0
Act A = Resident → Result A × Resident

abbrev pub continue : {A B : Type 0} → Result A × Resident → (A → Act B) → Result B × Resident
continue (ok a, r) next = next a r
continue (err e, r) next = (err e, r)
continue (panic, r) next = (panic, r)

infixl 5 ◌>>=◌ ◌>>◌
abbrev pub ◌>>=◌ : {A B : Type 0} → Act A → (A → Act B) → Act B
◌>>=◌ m next r = continue (m r) next

abbrev pub ◌>>◌ : {B : Type 0} → Act (Unit {0}) → Act B → Act B
m >> next = m >>= λ _. next

abbrev pub give : {A : Type 0} → Result A → Act A
give result r = (result, r)

abbrev pub modify : (Resident → Resident) → Act (Unit {0})
modify change r = (ok tt, change r)

abbrev pub read : {A : Type 0} → (Resident → A) → Act A
read look r = (ok (look r), r)

-- The keys that are stored but not held.
unfoldable pub note_corrupt : Bytes → Resident → Resident
note_corrupt key r = record r { corrupt = Tree.insert key tt r.corrupt }

unfoldable pub is_corrupt : Resident → Bytes → Bool
is_corrupt r key = contains_key r.corrupt key

unfoldable corrupt_keys : Resident → List Bytes
corrupt_keys r = Tree.keys r.corrupt

unfoldable pub note_dropped : Bytes → Resident → Resident
note_dropped key r = record r { dropped = Tree.insert key tt r.dropped }

unfoldable pub forget_dropped : Bytes → Resident → Resident
forget_dropped key r = record r { dropped = Tree.remove key r.dropped }

unfoldable pub forget_all_dropped : Resident → Resident
forget_all_dropped r = record r { dropped = [] }

unfoldable pub stored_but_unheld : Resident → Bytes → Bool
unfolding is_corrupt
stored_but_unheld r key = if is_corrupt r key then true else contains_key r.dropped key

-- The key index.
abbrev pub change_set : (KeySet → KeySet) → Option KeySet → Option KeySet
change_set change none = none
change_set change (some keys) = some (change keys)

unfoldable pub touch_index : (KeySet → KeySet) → Resident → Resident
touch_index change r = record r { index = change_set change r.index }

abbrev pub holds_key : Bytes → Option KeySet → Bool
holds_key key none = false
holds_key key (some keys) = contains_key keys key

-- `Inner::index_is_authoritative`
unfoldable pub index_is_authoritative : Resident → Bool
index_is_authoritative r = if r.is_name_shared then false else not r.is_deaf

-- The proof that the index and the inline markers give of a key.
unfoldable pub prior_in : Bytes → Option KeySet → Option KeySet → Prior
unfolding contains_key
prior_in key none markers = unknown
prior_in key (some index) markers =
    if contains_key index key then if holds_key key markers then inline else unknown else absent

unfoldable pub prior : Resident → Bytes → Prior
unfolding index_is_authoritative prior_in
prior r key =
    if not (length r.staged == 0)
    then unknown
    else if not (index_is_authoritative r)
    then unknown
    else prior_in key r.index r.known_inline

unfoldable pub note_inline : Bytes → Bool → Resident → Resident
note_inline key is_inline r = record r {
  known_inline =
      change_set (λ keys. if is_inline then Tree.insert key tt keys else Tree.remove key keys)
        r.known_inline;
}

unfoldable pub forget_inline : Resident → Resident
forget_inline r = record r { known_inline = change_set (λ _. []) r.known_inline }

-- The staged writes.
abbrev max_usize : ℕ
max_usize = 2 ^ 64 - 1

unfoldable pub deferred_after : Commit → Option ℕ
deferred_after Commit.immediate = none
deferred_after (deferred after) = if leb after 1 then none else some after

abbrev pub is_some : {A : Type 0} → Option A → Bool
is_some none = false
is_some (some a) = true

unfoldable pub is_deferred : Resident → Bool
unfolding deferred_after
is_deferred r = is_some (deferred_after r.inner.config.commit)

unfoldable pending_len : Resident → ℕ
pending_len r = length r.staged

unfoldable pending_sum : List Pending → ℕ
pending_sum [] = 0
pending_sum (Pending.put key payload ∷ rest) = length payload + pending_sum rest
pending_sum (Pending.delete key ∷ rest) = pending_sum rest
pending_sum (Pending.clear ∷ rest) = pending_sum rest

unfoldable pending_bytes : Resident → ℕ
unfolding pending_sum
pending_bytes r = pending_sum r.staged

unfoldable pub is_full : Option ℕ → ℕ → Bool
is_full none n = leb max_usize n
is_full (some after) n = leb after n

-- `stage`: whether the batch is now full.
unfoldable pub stage : Pending → Act Bool
unfolding is_full deferred_after
stage entry r =
    let staged = r.staged ++ (entry ∷ []) in
    (
      ok (is_full (deferred_after r.inner.config.commit) (length staged)),
      record r { staged = staged },
    )

unfoldable pub take_staged : Act (List Pending)
take_staged r = (ok r.staged, record r { staged = [] })

unfoldable pub restage : List Pending → Resident → Resident
restage entries r = record r { staged = entries ++ r.staged }

unfoldable pub discard_staged : Resident → Resident
discard_staged r = record r { staged = [] }

-- Keys written with the sizes of their payloads, keys removed, and whether the batch clears.
pub record Accounting : Type 0 where
  pub updates : List (Bytes × ℕ)
  pub removals : List Bytes
  pub is_cleared : Bool

-- `retain` of the entries of other keys.
unfoldable pub without_update : Bytes → List (Bytes × ℕ) → List (Bytes × ℕ)
without_update key updates = keep (λ u. not (bytes_eq u.0 key)) updates

unfoldable pub account : Accounting → Pending → Accounting
unfolding without_update
account a (Pending.put key payload) = record a {
  updates = without_update key a.updates ++ ((key, length payload) ∷ []);
  removals = keep (λ k. not (bytes_eq k key)) a.removals;
}
account a (Pending.delete key) = record a {
  updates = without_update key a.updates;
  removals = a.removals ++ (key ∷ []);
}
account a Pending.clear = record { updates = []; removals = []; is_cleared = true }

unfoldable pub account_all : Accounting → List Pending → Accounting
unfolding account
account_all a [] = a
account_all a (entry ∷ entries) = account_all (account a entry) entries

unfoldable pub accounting : List Pending → Accounting
unfolding account_all
accounting entries =
    account_all (record { updates = []; removals = []; is_cleared = false }) entries

-- `Inner::ensure_open`, `mark_closed`, `mark_name_shared`, `announce` and `commit`.
unfoldable pub ensure_open : Act (Unit {0})
ensure_open r = if r.is_closed then (err closed, r) else (ok tt, r)

unfoldable pub mark_closed : Act Bool
mark_closed r = (ok (not r.is_closed), record r { is_closed = true })

unfoldable mark_name_shared : Resident → Resident
mark_name_shared r = record r { is_name_shared = true }

unfoldable pub announce : Event → Resident → Resident
announce event r = record r { announced = r.announced ++ (event ∷ []) }

unfoldable pub committed : Resident → Result MemoryBackend → Result (Unit {0}) × Resident
committed r (ok b) = (ok tt, record r { backend = b })
committed r (err e) = (err e, r)
committed r panic = (panic, r)

unfoldable pub commit : List Op → Act (Unit {0})
unfolding committed
commit ops r = committed r (Memory.commit r.backend ops)

-- A call that hands out of the bank's value ids.
unfoldable pub with_values : {A : Type 0} → (MemoryBackend → ValueIds → Result A × ValueIds) → Act A
with_values call r =
    let (result, values) = call r.backend r.values in (result, record r { values = values })
