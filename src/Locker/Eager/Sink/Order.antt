-- ===== src/Locker/Eager/Sink/Order.antt =====
-- News in the wrong order, and news against this tab's own commits.
use crossbank.Prelude.{
  ℕ, ◌≤◌, ◌≡◌, refl, ap, ◌∙◌, Bool, true, false, Option, none, some, List, [], ◌∷◌, arith,
  Bool-cases, inl, inr, if◌then◌else◌, leb, ◌⊎◌,
}
use crossbank.Bytes.{Bytes, bytes_eq, bytes_eq_iff}
use crossbank.Tree
use crossbank.Tree.Laws.{get-insert, get-remove}
use crossbank.Coherence.{Change, Announcement}
use crossbank.Locker.Inner.Value.{Postcard}
use crossbank.Locker.Epochs
use crossbank.Locker.Epochs.{Epochs, remember}
use crossbank.Locker.Resident
use crossbank.Watch.{Event}
use crossbank.Locker.Resident.{Resident, note_dropped, forget_dropped, forget_all_dropped}
use crossbank.Locker.Eager.{Locker, get_by}
use crossbank.Locker.Eager.Sink
use crossbank.Locker.Eager.Sink.{
  is_overtaken, decode_change, change_event, hold_decoded, note_event, take_change, apply_change,
  apply_changes, apply_cleared,
}

note_event-is_closed :
    (key : Bytes) (e : Event) (r : Resident) → (note_event key e r).is_closed ≡ r.is_closed
unfolding note_event note_dropped forget_dropped
note_event-is_closed key (Event.stale k) r = refl
note_event-is_closed key (Event.put k) r = refl
note_event-is_closed key (Event.deleted k) r = refl
note_event-is_closed key Event.cleared r = refl
note_event-is_closed key (Event.evicted k) r = refl
note_event-is_closed key (Event.lagged n) r = refl

module _ {T : Type 0} where
  -- A change moves neither the epochs nor the closed flag.
  abbrev SameClock : Locker T → Locker T → Type 0
  SameClock l l' = (l'.epochs ≡ l.epochs) × (l'.res.is_closed ≡ l.res.is_closed)

  take_change-SameClock :
      (c : Change) (d : Option T) (l : Locker T) → SameClock l (take_change c d l)
  unfolding take_change hold_decoded Resident.announce
  take_change-SameClock c none l =
      (refl, note_event-is_closed c.key (change_event {T = T} c.key none c.is_deleted) l.res)
  take_change-SameClock c (some v) l =
      (refl, note_event-is_closed c.key (change_event {T = T} c.key (some v) c.is_deleted) l.res)

  -- A change of another key leaves the value of this one.
  get-take_change :
      (c : Change) (d : Option T) (l : Locker T) (key : Bytes)
      → bytes_eq c.key key ≡ false
      → Tree.get key (take_change c d l).values ≡ Tree.get key l.values
  unfolding take_change hold_decoded
  get-take_change c none l key n = get-remove c.key key l.values ∙ rw n refl
  get-take_change c (some v) l key n = get-insert c.key key v l.values ∙ rw n refl

  apply_cleared-closed :
      (cleared : Bool) (l : Locker T) → (apply_cleared cleared l).res.is_closed ≡ l.res.is_closed
  unfolding apply_cleared Resident.announce forget_all_dropped
  apply_cleared-closed true l = refl
  apply_cleared-closed false l = refl

  apply_cleared-applied :
      (cleared : Bool) (l : Locker T) → (apply_cleared cleared l).epochs.applied ≡ l.epochs.applied
  unfolding apply_cleared Epochs.forget_local
  apply_cleared-applied true l = refl
  apply_cleared-applied false l = refl

module _ {T : Type 0} (postcard : Postcard T) where
  apply_change-SameClock :
      (epoch : ℕ) (c : Change) (l : Locker T) → SameClock l (apply_change postcard epoch c l)
  unfolding apply_change
  apply_change-SameClock epoch c l = go (is_overtaken (Epochs.local_epoch l.epochs c.key) epoch)
    where
      go :
          (o : Bool)
          → SameClock l
              (if o then l else take_change c (decode_change postcard l c.is_deleted c.value) l)
      go true = (refl, refl)
      go false = take_change-SameClock c (decode_change postcard l c.is_deleted c.value) l

  apply_changes-SameClock :
      (epoch : ℕ) (cs : List Change) (l : Locker T)
      → SameClock l (apply_changes postcard epoch cs l)
  unfolding apply_changes
  apply_changes-SameClock epoch [] l = (refl, refl)
  apply_changes-SameClock epoch (c ∷ cs) l =
      let (e, f) = apply_change-SameClock epoch c l in
      let (g, h) = apply_changes-SameClock epoch cs (apply_change postcard epoch c l) in
      (g ∙ e, h ∙ f)

  -- News that is not refused at the door.
  abbrev taken_in : Announcement → Locker T → Locker T
  taken_in news l = apply_changes postcard news.epoch news.changes (
      apply_cleared news.is_cleared (record l { epochs = Epochs.note_applied l.epochs news.epoch }))

  apply-cases :
      (news : Announcement) (l : Locker T) (P : Locker T → Type 0)
      → (l.res.is_closed ≡ true → P l)
      → (leb news.epoch l.epochs.applied ≡ true → P l)
      → P (taken_in news l)
      → P (Sink.apply postcard news l)
  unfolding Sink.apply
  apply-cases news l P shut late fresh =
      go l.res.is_closed refl (leb news.epoch l.epochs.applied) refl
    where
      go :
          (c : Bool)
          → l.res.is_closed ≡ c
          → (o : Bool) → leb news.epoch l.epochs.applied ≡ o
          → P (if c then l else if o then l else taken_in news l)
      go true e o f = shut e
      go false e true f = late f
      go false e false f = fresh

  -- What applying news leaves: a closed locker, or one that has absorbed its epoch.
  apply-absorbs :
      (news : Announcement) (l : Locker T)
      → ((Sink.apply postcard news l).res.is_closed ≡ true)
        ⊎ (news.epoch ≤ (Sink.apply postcard news l).epochs.applied)
  unfolding Epochs.note_applied
  apply-absorbs news l =
      let noted : Locker T = record l { epochs = Epochs.note_applied l.epochs news.epoch } in
      let start = apply_cleared news.is_cleared noted in
      let same =
        ap (λ (e : Epochs). e.applied) (apply_changes-SameClock news.epoch news.changes start).0 in
      let kept = apply_cleared-applied news.is_cleared noted in
      apply-cases news l (λ m. (m.res.is_closed ≡ true) ⊎ (news.epoch ≤ m.epochs.applied)) inl
        (λ old. inr (ground arith)) (inr (omega (arith, same, kept)))

  -- News that is late changes nothing: once an announcement was applied, one of the same epoch or an older
  -- one, its repetition included, leaves the locker as it is, whatever it says and whichever tab it is from.
  pub apply_late :
      (news late : Announcement) (l : Locker T)
      → late.epoch ≤ news.epoch
      → Sink.apply postcard late (Sink.apply postcard news l) ≡ Sink.apply postcard news l
  apply_late news late l h = absorbed (Sink.apply postcard news l) (apply-absorbs news l)
    where
      absorbed :
          (m : Locker T)
          → (m.res.is_closed ≡ true) ⊎ (news.epoch ≤ m.epochs.applied)
          → Sink.apply postcard late m ≡ m
      absorbed m (inl shut) = unfold Sink.apply in rw shut refl
      absorbed m (inr done) = unfold Sink.apply in ground (arith, h, done)

  get-apply_change :
      (epoch : ℕ) (c : Change) (l : Locker T) (key : Bytes)
      → is_overtaken (Epochs.local_epoch l.epochs key) epoch ≡ true
      → Tree.get key (apply_change postcard epoch c l).values ≡ Tree.get key l.values
  unfolding apply_change
  get-apply_change epoch c l key o =
      go (is_overtaken (Epochs.local_epoch l.epochs c.key) epoch) refl
    where
      other :
          (k : Bytes)
          → is_overtaken (Epochs.local_epoch l.epochs k) epoch ≡ false
          → bytes_eq k key ≡ false
      other k n = elim (Bool-cases (bytes_eq k key)) [
        | inl same ↦ absurd (
            ground (
              arith,
              ap (λ j. is_overtaken (Epochs.local_epoch l.epochs j) epoch)
                  ((bytes_eq_iff k key).0 same),
            ))
        | inr e ↦ e
      ]

      go :
          (b : Bool)
          → is_overtaken (Epochs.local_epoch l.epochs c.key) epoch ≡ b
          → Tree.get key
              (if b
                then l
                else take_change c (decode_change postcard l c.is_deleted c.value) l).values
            ≡ Tree.get key l.values
      go true e = refl
      go false e =
          get-take_change c (decode_change postcard l c.is_deleted c.value) l key (other c.key e)

  get-apply_changes :
      (epoch : ℕ) (cs : List Change) (l : Locker T) (key : Bytes)
      → is_overtaken (Epochs.local_epoch l.epochs key) epoch ≡ true
      → Tree.get key (apply_changes postcard epoch cs l).values ≡ Tree.get key l.values
  unfolding apply_changes
  get-apply_changes epoch [] l key o = refl
  get-apply_changes epoch (c ∷ cs) l key o =
      let clock = (apply_change-SameClock epoch c l).0 in
      get-apply_changes epoch cs (apply_change postcard epoch c l) key
        (ap (λ e. is_overtaken (Epochs.local_epoch e key) epoch) clock ∙ o)
      ∙ get-apply_change epoch c l key o

  -- Another tab's news does not undo a commit of this tab that is as new: where this tab remembers that it
  -- wrote the key at the epoch of the news or later, and the news does not clear the locker, the value held
  -- for the key stays, however often the news mentions the key.
  pub get_by-apply :
      (news : Announcement) (l : Locker T) (key : Bytes) (mine : ℕ)
      → news.is_cleared ≡ false
      → Epochs.local_epoch l.epochs key ≡ some mine
      → news.epoch ≤ mine
      → get_by (Sink.apply postcard news l) key ≡ get_by l key
  unfolding get_by apply_cleared Epochs.note_applied Epochs.local_epoch
  get_by-apply news l key mine kept wrote newer =
      let noted : Locker T = record l { epochs = Epochs.note_applied l.epochs news.epoch } in
      let spared =
        get-apply_changes news.epoch news.changes noted key
          (ap (λ m. is_overtaken m news.epoch) wrote ∙ ground arith) in
      apply-cases news l (λ m. get_by m key ≡ get_by l key) (λ _. refl) (λ _. refl)
        (ap
            (λ c.
              get_by (apply_changes postcard news.epoch news.changes (apply_cleared c noted)) key)
            kept
          ∙ spared)

  -- A commit that clears the locker and then writes keys forgets at once that it wrote them: a later
  -- change of another tab is taken whatever its epoch, even one older than the commit.
  apply_change-remember :
      (own : Announcement) (epoch : ℕ) (change : Change) (l : Locker T)
      → own.is_cleared ≡ true
      → apply_change postcard epoch change (record l { epochs = remember l.epochs (some own) })
        ≡ take_change change
            (decode_change postcard
              (record l { epochs = remember l.epochs (some own) })
              change.is_deleted
              change.value)
            (record l { epochs = remember l.epochs (some own) })
  unfolding apply_change remember Epochs.forget_local Epochs.local_epoch Tree.get
  apply_change-remember own epoch change l h = rw h refl
