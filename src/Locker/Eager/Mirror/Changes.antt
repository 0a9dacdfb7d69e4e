-- ===== src/Locker/Eager/Mirror/Changes.antt =====
-- What a write changes in the values held.
use crossbank.Prelude.{
  ◌≡◌, refl, ap, sym, ◌∙◌, true, false, Option, none, some, List, [], ◌∷◌, arith, All, Bool-cases,
  inl, inr, ◌⊎◌, map,
}
use crossbank.Error.{ok}
use crossbank.Bytes.{Bytes, bytes_eq}
use crossbank.Tree
use crossbank.Tree.{Tree}
use crossbank.Tree.Laws.{get-insert, get-remove}
use crossbank.Locker.Inner.Value.{Postcard, of_payload}
use crossbank.Locker.Lru.State.{contains_key}
use crossbank.Locker.Transaction.{Pending, Staged, entry_view, or_view, staged_view, pending_of}
use crossbank.Locker.Resident.{Resident, stored_but_unheld, is_corrupt, forget_dropped}
use crossbank.Locker.Eager.{Locker}
use crossbank.Locker.Eager.Sink.{to_option}
use crossbank.Locker.Eager.Puts.{hold_entry, hold_entries}
use crossbank.Locker.Eager.Mirror.{Opens, pick, pick-or_view}
use crossbank.Codec.Chain.{FilterChain}
use crossbank.Codec.RoundTrip.{AllInvert}

-- A key that is held again, or one that was before.
pub forget_dropped-held :
    (key j : Bytes) (r : Resident)
    → stored_but_unheld (forget_dropped key r) j ≡ false
    → (bytes_eq key j ≡ true) ⊎ (stored_but_unheld r j ≡ false)
unfolding stored_but_unheld is_corrupt forget_dropped contains_key
forget_dropped-held key j r h = elim (Bool-cases (bytes_eq key j)) [
  | inl e ↦ inl e
  | inr n ↦ inr (ground (arith, get-remove key j r.dropped))
]

-- A put is staged with the payload of its value, on which the filters invert each other.
abbrev pub IsFaithful : {T : Type 0} → Postcard T → FilterChain → Staged T → Type 0
IsFaithful postcard c (Staged.put key payload value) =
    (of_payload postcard payload ≡ ok value) × AllInvert c.filters payload
IsFaithful postcard c (Staged.delete key) = Unit
IsFaithful postcard c Staged.clear = Unit

pub pending-Opens :
    {T : Type 0} (postcard : Postcard T) (c : FilterChain) (es : List (Staged T))
    → All (IsFaithful postcard c) es
    → All (Opens c) (map pending_of es)
unfolding pending_of
pending-Opens postcard c [] f = tt
pending-Opens postcard c (Staged.put key payload value ∷ es) f =
    (f.0.1, pending-Opens postcard c es f.1)
pending-Opens postcard c (Staged.delete key ∷ es) f = (tt, pending-Opens postcard c es f.1)
pending-Opens postcard c (Staged.clear ∷ es) f = (tt, pending-Opens postcard c es f.1)

module _ {T : Type 0} (postcard : Postcard T) where
  pub get-put :
      (key j payload : Bytes) (value : T) (values : Tree T)
      → of_payload postcard payload ≡ ok value
      → Tree.get j (Tree.insert key value values)
        ≡ pick postcard (entry_view j (Pending.put key payload)) (Tree.get j values)
  unfolding entry_view
  get-put key j payload value values h = elim (Bool-cases (bytes_eq key j)) [
    | inl e ↦ get-insert key j value values ∙ rw e (sym (ap to_option h))
    | inr n ↦ get-insert key j value values ∙ rw n refl
  ]

  pub get-delete :
      (key j : Bytes) (values : Tree T)
      → Tree.get j (Tree.remove key values)
        ≡ pick postcard (entry_view j (Pending.delete key)) (Tree.get j values)
  unfolding entry_view
  get-delete key j values = elim (Bool-cases (bytes_eq key j)) [
    | inl e ↦ get-remove key j values ∙ rw e refl
    | inr n ↦ get-remove key j values ∙ rw n refl
  ]

  get-hold_entry :
      (c : FilterChain) (j : Bytes) (e : Staged T) (l : Locker T)
      → IsFaithful postcard c e
      → Tree.get j (hold_entry e l).0.values
        ≡ pick postcard (entry_view j (pending_of e)) (Tree.get j l.values)
  unfolding hold_entry pending_of
  get-hold_entry c j (Staged.put key payload value) l f = get-put key j payload value l.values f.0
  get-hold_entry c j (Staged.delete key) l f = get-delete key j l.values
  get-hold_entry c j Staged.clear l f = unfold Tree.get entry_view in refl

  -- A transaction changes the values as its staged view says.
  pub get-hold_entries :
      (c : FilterChain) (j : Bytes) (es : List (Staged T)) (l : Locker T)
      → All (IsFaithful postcard c) es
      → Tree.get j (hold_entries es l).0.values
        ≡ pick postcard (staged_view j (map pending_of es)) (Tree.get j l.values)
  unfolding hold_entries staged_view
  get-hold_entries c j [] l f = refl
  get-hold_entries c j (e ∷ es) l f =
      get-hold_entries c j es (hold_entry e l).0 f.1
      ∙ ap (pick postcard (staged_view j (map pending_of es))) (get-hold_entry c j e l f.0)
      ∙ sym (
          pick-or_view postcard (staged_view j (map pending_of es)) (entry_view j (pending_of e))
            (Tree.get j l.values))

  abbrev pub Decided : Option (Option Bytes) → Type 0
  Decided view = (v : Option Bytes) × (view ≡ some v)

  hold_entry-held :
      (j : Bytes) (e : Staged T) (l : Locker T)
      → stored_but_unheld (hold_entry e l).0.res j ≡ false
      → Decided (entry_view j (pending_of e)) ⊎ (stored_but_unheld l.res j ≡ false)
  unfolding hold_entry pending_of entry_view
  hold_entry-held j (Staged.put key payload value) l h = inr h
  hold_entry-held j (Staged.delete key) l h = elim (forget_dropped-held key j l.res h) [
    | inl e ↦ inl (none, rw e refl)
    | inr n ↦ inr n
  ]
  hold_entry-held j Staged.clear l h = inl (none, refl)

  or_view-Decided : (v w : Option (Option Bytes)) → Decided w → Decided (or_view v w)
  unfolding or_view
  or_view-Decided none w d = d
  or_view-Decided (some v) w d = (v, refl)

  or_view-Decided_left : (v w : Option (Option Bytes)) → Decided v → Decided (or_view v w)
  unfolding or_view
  or_view-Decided_left v w (x, e) = rw e (x, refl)

  pub hold_entries-held :
      (j : Bytes) (es : List (Staged T)) (l : Locker T)
      → stored_but_unheld (hold_entries es l).0.res j ≡ false
      → Decided (staged_view j (map pending_of es)) ⊎ (stored_but_unheld l.res j ≡ false)
  unfolding hold_entries staged_view
  hold_entries-held j [] l h = inr h
  hold_entries-held j (e ∷ es) l h = elim (hold_entries-held j es (hold_entry e l).0 h) [
    | inl d ↦
        inl
          (or_view-Decided_left (staged_view j (map pending_of es)) (entry_view j (pending_of e)) d)
    | inr held ↦ elim (hold_entry-held j e l held) [
      | inl d ↦
          inl (or_view-Decided (staged_view j (map pending_of es)) (entry_view j (pending_of e)) d)
      | inr before ↦ inr before
    ]
  ]
