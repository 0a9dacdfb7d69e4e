-- ===== src/Locker/Lazy/Values.antt =====
-- src/locker/lazy.rs: the typed reads and writes of a lazy locker.
pub mod Decoded
pub mod RoundTrip
use crossbank.Prelude.{
  ℕ, Bool, true, false, ◌&&◌, Option, none, some, List, [], ◌∷◌, ◌++◌, length, map, if◌then◌else◌,
}
use crossbank.Error.{Result, ok, err, panic, Error, is_corruption}
use crossbank.Bytes.{Bytes}
use crossbank.Tree
use crossbank.Watch.{Event}
use crossbank.Locker.Policy.{skip, on_corrupt_eq}
use crossbank.Locker.Inner.Value.{Postcard, to_payload, of_view, load_value}
use crossbank.Locker.Transaction.{Pending, Staged, pending_of, staged_view}
use crossbank.Locker.Resident.{
  Resident, Act, KeySet, ◌>>=◌, ◌>>◌, give, modify, read, continue, note_corrupt, touch_index,
  forget_inline, take_staged, ensure_open, announce,
}
use crossbank.Locker.Resident.Budget.{Budget, apply_budget, note_read}
use crossbank.Locker.Resident.Flush.{commit_entries, or_restage}
use crossbank.Locker.Lazy.{put_payload}

module _ {T : Type 0} (postcard : Postcard T) where
  -- A read of damaged bytes is noted, where the locker is to skip them.
  unfoldable pub noted : Bytes → Result (Option T) → Act (Option T)
  noted key (ok v) r = (ok v, r)
  noted key panic r = (panic, r)
  noted key (err e) r = (
    err e,
    if on_corrupt_eq r.inner.config.on_corrupt skip && is_corruption e
        then note_corrupt key r
        else r,
  )

  unfoldable pub load_and_note : Bytes → Act (Option T)
  unfolding noted
  load_and_note key r = noted key (load_value postcard r.inner r.backend key) r

  unfoldable pub touched : Bytes → Option T → Act (Option T)
  touched key none = give (ok none)
  touched key (some value) = do note_read key; give (ok (some value))

  -- A staged write is visible at once, flushed or not.
  unfoldable pub get_from : Bytes → Option (Option Bytes) → Act (Option T)
  unfolding load_and_note touched
  get_from key (some view) = give (of_view postcard view)
  get_from key none = do found ← load_and_note key; touched key found

  -- `get_by`
  unfoldable pub get_by : Bytes → Act (Option T)
  unfolding get_from
  get_by key = do ensure_open; r ← read (λ r. r); get_from key (staged_view key r.staged)

  abbrev or_default : T → Option T → T
  or_default default none = default
  or_default default (some value) = value

  -- `get_or_by`
  unfoldable get_or_by : Bytes → T → Act T
  unfolding get_by
  get_or_by key default = do found ← get_by key; give (ok (or_default default found))

  -- `put_by`
  unfoldable pub put_by : Bytes → T → Act (Unit {0})
  unfolding put_payload
  put_by key value = do
    ensure_open
    payload ← give (to_payload postcard value)
    put_payload key payload
