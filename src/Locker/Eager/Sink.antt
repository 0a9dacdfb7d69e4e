-- ===== src/Locker/Eager/Sink.antt =====
-- `EagerSink` of src/locker/eager.rs: what a locker makes of another tab's news.
pub mod Order
use crossbank.Prelude.{ℕ, Bool, true, false, Option, none, some, List, [], ◌∷◌, leb, if◌then◌else◌}
use crossbank.Error.{Result, ok, err, panic}
use crossbank.Bytes.{Bytes}
use crossbank.Tree
use crossbank.Watch.{Event}
use crossbank.Coherence.{Change, Announcement}
use crossbank.Locker.Inner.Value.{Postcard, decode_value}
use crossbank.Locker.Epochs
use crossbank.Locker.Resident
use crossbank.Locker.Resident.{Resident, note_dropped, forget_dropped, forget_all_dropped}
use crossbank.Locker.Eager.{Locker}

-- `Result::ok`
abbrev pub to_option : {A : Type 0} → Result A → Option A
to_option (ok a) = some a
to_option (err e) = none
to_option panic = none

-- `is_some_and(|mine| epoch <= mine)`
abbrev pub is_overtaken : Option ℕ → ℕ → Bool
is_overtaken none epoch = false
is_overtaken (some mine) epoch = leb epoch mine

unfoldable pub note_event : Bytes → Event → Resident → Resident
note_event key (Event.stale k) r = note_dropped key r
note_event key _ r = forget_dropped key r

module _ {T : Type 0} where
  unfoldable pub change_event : Bytes → Option T → Bool → Event
  change_event key (some value) is_deleted = Event.put key
  change_event key none true = Event.deleted key
  change_event key none false = Event.stale key

  unfoldable pub hold_decoded : Bytes → Option T → Locker T → Locker T
  hold_decoded key (some value) l = record l { values = Tree.insert key value l.values }
  hold_decoded key none l = record l { values = Tree.remove key l.values }

  unfoldable pub take_change : Change → Option T → Locker T → Locker T
  unfolding change_event hold_decoded note_event
  take_change change decoded l =
      let event = change_event change.key decoded change.is_deleted in
      let held = hold_decoded change.key decoded l in
      record held { res = Resident.announce event (note_event change.key event held.res) }

  unfoldable pub apply_cleared : Bool → Locker T → Locker T
  apply_cleared false l = l
  apply_cleared true l = record l {
    values = [];
    res = Resident.announce Event.cleared (forget_all_dropped l.res);
    epochs = Epochs.forget_local l.epochs;
  }

module _ {T : Type 0} (postcard : Postcard T) where
  unfoldable pub decode_change : Locker T → Bool → Option Bytes → Option T
  decode_change l true value = none
  decode_change l false (some sealed) = to_option (decode_value postcard l.res.inner.chain sealed)
  decode_change l false none = none

  -- A change that this tab's own commit is as new as is passed over.
  unfoldable pub apply_change : ℕ → Change → Locker T → Locker T
  unfolding decode_change take_change
  apply_change epoch change l =
      if is_overtaken (Epochs.local_epoch l.epochs change.key) epoch
      then l
      else take_change change (decode_change l change.is_deleted change.value) l

  unfoldable pub apply_changes : ℕ → List Change → Locker T → Locker T
  unfolding apply_change
  apply_changes epoch [] l = l
  apply_changes epoch (change ∷ changes) l =
      apply_changes epoch changes (apply_change epoch change l)

  -- `EagerSink::apply`: news that was absorbed, or is behind what was, changes nothing.
  unfoldable pub apply : Announcement → Locker T → Locker T
  unfolding apply_changes apply_cleared
  apply news l =
      if l.res.is_closed
      then l
      else if leb news.epoch l.epochs.applied
      then l
      else apply_changes news.epoch news.changes (
          apply_cleared news.is_cleared
            (record l { epochs = Epochs.note_applied l.epochs news.epoch }))
