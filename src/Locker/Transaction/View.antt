-- ===== src/Locker/Transaction/View.antt =====
-- Collapsing a write-set keeps what it says of each key.
use crossbank.Prelude.{
  ◌≡◌, refl, ap, sym, ◌∙◌, false, Option, none, some, List, [], ◌∷◌, arith, All,
}
use crossbank.Bytes.{Bytes}
use crossbank.Tree
use crossbank.Tree.{Tree, IsSorted}
use crossbank.Tree.Laws.{get-insert, insert-IsSorted}
use crossbank.Locker.Transaction.{
  Pending, entry_view, or_view, staged_view, is_clear, after_clear, Action, act, actions,
}

pub or_view_assoc :
    (a b c : Option (Option Bytes)) → or_view (or_view a b) c ≡ or_view a (or_view b c)
unfolding or_view
or_view_assoc none b c = refl
or_view_assoc (some v) b c = refl

-- No entry clears.
abbrev NoClear : List Pending → Type 0
NoClear = All (λ e. is_clear e ≡ false)

-- What is after the last clear has none, and with the clear behind it says what the whole says.
abbrev pub Tail : List Pending → Option (List Pending) → Type 0
Tail es none = NoClear es
Tail es (some tail) =
    NoClear tail × ((key : Bytes) → staged_view key es ≡ or_view (staged_view key tail) (some none))

step-Tail :
    (e : Pending) (es : List Pending) (t : Option (List Pending))
    → after_clear es ≡ t
    → Tail es t
    → Tail (e ∷ es) (after_clear (e ∷ es))
unfolding after_clear staged_view
step-Tail e es (some tail) h (plain, says) = rw h (
  plain,
  λ key.
      ap (λ v. or_view v (entry_view key e)) (says key)
      ∙ or_view_assoc (staged_view key tail) (some none) (entry_view key e)
      ∙ ap (or_view (staged_view key tail)) (unfold or_view in refl),
)
step-Tail (Pending.put k p) es none h plain = rw h (refl, plain)
step-Tail (Pending.delete k) es none h plain = rw h (refl, plain)
step-Tail Pending.clear es none h plain = rw h (plain, λ key. refl)

pub after_clear-Tail : (es : List Pending) → Tail es (after_clear es)
after_clear-Tail [] = unfold after_clear in tt
after_clear-Tail (e ∷ es) = step-Tail e es (after_clear es) refl (after_clear-Tail es)

-- What an action says of its key.
abbrev pub action_view : Option Action → Option (Option Bytes)
action_view none = none
action_view (some (Action.put payload)) = some (some payload)
action_view (some Action.delete) = some none

action_view-act :
    (key : Bytes) (t : Tree Action) (e : Pending)
    → is_clear e ≡ false
    → action_view (Tree.get key (act t e))
      ≡ or_view (entry_view key e) (action_view (Tree.get key t))
unfolding act entry_view or_view is_clear
action_view-act key t (Pending.put k p) h =
    ap action_view (get-insert k key (Action.put p) t) ∙ ground arith
action_view-act key t (Pending.delete k) h =
    ap action_view (get-insert k key Action.delete t) ∙ ground arith
action_view-act key t Pending.clear h = absurd (ground arith)

actions-view :
    (key : Bytes) (t : Tree Action) (es : List Pending)
    → NoClear es
    → action_view (Tree.get key (actions t es))
      ≡ or_view (staged_view key es) (action_view (Tree.get key t))
unfolding actions staged_view
actions-view key t [] plain = unfold or_view in refl
actions-view key t (e ∷ es) plain =
    actions-view key (act t e) es plain.1
    ∙ ap (or_view (staged_view key es)) (action_view-act key t e plain.0)
    ∙ sym (or_view_assoc (staged_view key es) (entry_view key e) (action_view (Tree.get key t)))

pub or_view-none : (v : Option (Option Bytes)) → or_view v none ≡ v
unfolding or_view
or_view-none none = refl
or_view-none (some v) = refl

pub actions-view_empty :
    (key : Bytes) (es : List Pending)
    → NoClear es
    → action_view (Tree.get key (actions [] es)) ≡ staged_view key es
unfolding Tree.get
actions-view_empty key es plain = actions-view key [] es plain ∙ or_view-none (staged_view key es)

act-IsSorted : (t : Tree Action) (e : Pending) → IsSorted t → IsSorted (act t e)
unfolding act
act-IsSorted t (Pending.put k p) s = insert-IsSorted k (Action.put p) t s
act-IsSorted t (Pending.delete k) s = insert-IsSorted k Action.delete t s
act-IsSorted t Pending.clear s = s

pub actions-IsSorted : (t : Tree Action) (es : List Pending) → IsSorted t → IsSorted (actions t es)
unfolding actions
actions-IsSorted t [] s = s
actions-IsSorted t (e ∷ es) s = actions-IsSorted (act t e) es (act-IsSorted t e s)
