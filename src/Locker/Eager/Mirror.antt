-- ===== src/Locker/Eager/Mirror.antt =====
-- The values that an eager locker holds are those that storage and the staged writes give.
pub mod Changes
pub mod Landed
pub mod Writes
pub mod Puts
pub mod Transactions
pub mod Steps
use crossbank.Prelude.{
  ◌≡◌, refl, ap, sym, subst, ◌∙◌, Bool, true, false, Option, none, some, List, [], ◌∷◌, inl, inr,
  ◌⊎◌, arith, All, if◌then◌else◌,
}
use crossbank.Error.{Result, ok, err, panic, ◌>>=◌}
use crossbank.Bytes.{Bytes, IsBytes, bytes_eq}
use crossbank.Tree
use crossbank.Codec.Chain.{FilterChain, seal_slice}
use crossbank.Codec.RoundTrip.{AllInvert, unseal-seal}
use crossbank.Locker.Inner.{Inner}
use crossbank.Locker.Inner.Value.{Postcard, of_payload, decode_value}
use crossbank.Locker.Transaction.{Pending, eager, entry_view, or_view, staged_view}
use crossbank.Locker.Transaction.Lands.{Leaves}
use crossbank.Locker.Resident.{Resident, is_deferred, stored_but_unheld}
use crossbank.Locker.Lazy.Index.{record_at}
use crossbank.Locker.Eager.{Locker}
use crossbank.Locker.Eager.Sink.{to_option}

-- The filters invert each other on the payload of a staged put.
abbrev pub Opens : FilterChain → Pending → Type 0
Opens c (Pending.put key payload) = AllInvert c.filters payload
Opens c (Pending.delete key) = Unit
Opens c Pending.clear = Unit

-- The same of the payload that a view puts.
abbrev pub ViewOpens : FilterChain → Option (Option Bytes) → Type 0
ViewOpens c view = (payload : Bytes) → view ≡ some (some payload) → AllInvert c.filters payload

pub or_view-ViewOpens :
    (c : FilterChain) (v w : Option (Option Bytes))
    → ViewOpens c v
    → ViewOpens c w
    → ViewOpens c (or_view v w)
unfolding or_view
or_view-ViewOpens c none w a b = b
or_view-ViewOpens c (some v) w a b = a

pub entry_view-ViewOpens :
    (c : FilterChain) (j : Bytes) (e : Pending) → Opens c e → ViewOpens c (entry_view j e)
unfolding entry_view
entry_view-ViewOpens c j (Pending.put key payload) o p h = go (bytes_eq key j) h
  where
    go :
        (b : Bool)
        → (if b then some (some payload) else none) ≡ some (some p)
        → AllInvert c.filters p
    go true h = subst (AllInvert c.filters) (ground arith) o
    go false h = absurd (ground arith)
entry_view-ViewOpens c j (Pending.delete key) o p h = go (bytes_eq key j) h
  where
    go : (b : Bool) → (if b then some none else none) ≡ some (some p) → AllInvert c.filters p
    go true h = absurd (ground arith)
    go false h = absurd (ground arith)
entry_view-ViewOpens c j Pending.clear o p h = absurd (ground arith)

pub staged_view-ViewOpens :
    (c : FilterChain) (j : Bytes) (es : List Pending)
    → All (Opens c) es
    → ViewOpens c (staged_view j es)
unfolding staged_view
staged_view-ViewOpens c j [] a p h = absurd (ground arith)
staged_view-ViewOpens c j (e ∷ es) a p h =
    or_view-ViewOpens c (staged_view j es) (entry_view j e) (staged_view-ViewOpens c j es a.1)
      (entry_view-ViewOpens c j e a.0) p h

module _ {T : Type 0} (postcard : Postcard T) where
  -- What a record decodes to, and what a write makes of it.
  abbrev pub stored_value : FilterChain → Option Bytes → Option T
  stored_value c none = none
  stored_value c (some raw) = to_option (decode_value postcard c raw)

  abbrev pub pick : Option (Option Bytes) → Option T → Option T
  pick none there = there
  pick (some none) there = none
  pick (some (some payload)) there = to_option (of_payload postcard payload)

  -- The value of a key, by storage and the staged writes.
  abbrev pub value_of : Resident → Bytes → Option T
  value_of r key = pick (staged_view key r.staged) (stored_value r.inner.chain (record_at r key))

  -- A locker holds the value of each key; a key whose record it could not decode or had to drop may be
  -- missing.
  abbrev pub Mirrors : Locker T → Type 0
  Mirrors l =
      (key : Bytes)
      → IsBytes key
      → (Tree.get key l.values ≡ value_of l.res key)
        ⊎ ((Tree.get key l.values ≡ none) × (stored_but_unheld l.res key ≡ true))

  -- What holds of an open eager locker between calls.
  pub record IsMirror (l : Locker T) : Type 0 where
    pub unbudgeted : l.res.lru ≡ none
    pub eagerly : l.res.mode ≡ eager
    pub prompt : is_deferred l.res ≡ false → l.res.staged ≡ []
    pub opens : All (Opens l.res.inner.chain) l.res.staged
    pub mirrors : Mirrors l

  pub pick-or_view :
      (v w : Option (Option Bytes)) (there : Option T)
      → pick (or_view v w) there ≡ pick v (pick w there)
  unfolding or_view
  pick-or_view none w there = refl
  pick-or_view (some none) w there = refl
  pick-or_view (some (some payload)) w there = refl

  -- What a commit leaves under a key decodes to what its view says.
  pub Leaves-pick :
      (i : Inner) (view : Option (Option Bytes)) (old new : Option Bytes)
      → ViewOpens i.chain view
      → Leaves i eager view old new
      → stored_value i.chain new ≡ pick view (stored_value i.chain old)
  unfolding seal_slice decode_value
  Leaves-pick i none old new inv l = ap (stored_value i.chain) l
  Leaves-pick i (some none) old new inv l = ap (stored_value i.chain) l
  Leaves-pick i (some (some payload)) old new inv (raw, e, kept) =
      ap (stored_value i.chain) e
      ∙ ap (λ x. to_option (x >>= of_payload postcard))
          (unseal-seal i.chain payload raw (inv payload refl) kept.0)

  -- Values and storage that change alike: a key that the write does not decide was decodable before.
  pub renewed-Mirrors :
      (l l' : Locker T) (view : Bytes → Option (Option Bytes))
      → Mirrors l
      → ((j : Bytes) → Tree.get j l'.values ≡ pick (view j) (Tree.get j l.values))
      → ((j : Bytes) → IsBytes j → value_of l'.res j ≡ pick (view j) (value_of l.res j))
      → ((j : Bytes)
          → stored_but_unheld l'.res j ≡ false
          → ((v : Option Bytes) × (view j ≡ some v)) ⊎ (stored_but_unheld l.res j ≡ false))
      → Mirrors l'
  renewed-Mirrors l l' view t changed stored fewer j jb = elim (t j jb) [
    | inl same ↦ inl (changed j ∙ ap (pick (view j)) same ∙ sym (stored j jb))
    | inr (missing, unheld) ↦ go (view j) refl missing unheld
  ]
    where
      decided : (v : Option Bytes) (x y : Option T) → pick (some v) x ≡ pick (some v) y
      decided none x y = refl
      decided (some payload) x y = refl

      still :
          (b : Bool)
          → stored_but_unheld l'.res j ≡ b
          → view j ≡ none
          → stored_but_unheld l.res j ≡ true
          → stored_but_unheld l'.res j ≡ true
      still true e v u = e
      still false e v u = elim (fewer j e) [
        | inl (w, d) ↦ absurd (ground arith)
        | inr held ↦ absurd (ground arith)
      ]

      go :
          (w : Option (Option Bytes))
          → view j ≡ w
          → Tree.get j l.values ≡ none
          → stored_but_unheld l.res j ≡ true
          → (Tree.get j l'.values ≡ value_of l'.res j)
            ⊎ ((Tree.get j l'.values ≡ none) × (stored_but_unheld l'.res j ≡ true))
      go none e missing unheld = inr (
        changed j ∙ ap (λ w. pick w (Tree.get j l.values)) e ∙ missing,
        still (stored_but_unheld l'.res j) refl e unheld,
      )
      go (some v) e missing unheld = inl (
          changed j
          ∙ ap (λ w. pick w (Tree.get j l.values)) e
          ∙ decided v (Tree.get j l.values) (value_of l.res j)
          ∙ ap (λ w. pick w (value_of l.res j)) (sym e)
          ∙ sym (stored j jb))
