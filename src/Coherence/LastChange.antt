-- ===== src/Coherence/LastChange.antt =====
-- src/coherence/api.rs: the last change of a key in the news.
use crossbank.Prelude.{◌≡◌, refl, sym, Option, none, some, List, [], ◌∷◌, ◌++◌, if◌then◌else◌}
use crossbank.Bytes.{Bytes, bytes_eq}
use crossbank.Coherence.{Change}

-- The last change of a key.
abbrev or_change : Option Change → Option Change → Option Change
or_change none d = d
or_change (some c) d = some c

abbrev of_key : Bytes → Change → Option Change
of_key k c = if bytes_eq c.key k then some c else none

abbrev pub last_change : Bytes → List Change → Option Change
last_change k [] = none
last_change k (c ∷ cs) = or_change (last_change k cs) (of_key k c)

or_change_assoc :
    (a b c : Option Change) → or_change (or_change a b) c ≡ or_change a (or_change b c)
or_change_assoc none b c = refl
or_change_assoc (some x) b c = refl

or_change-none : (a : Option Change) → or_change a none ≡ a
or_change-none none = refl
or_change-none (some x) = refl

pub last_change-snoc :
    (k : Bytes) (cs : List Change) (c : Change)
    → last_change k (cs ++ c ∷ []) ≡ or_change (of_key k c) (last_change k cs)
last_change-snoc k [] c = sym (or_change-none (of_key k c))
last_change-snoc k (d ∷ cs) c =
    rw (last_change-snoc k cs c) (or_change_assoc (of_key k c) (last_change k cs) (of_key k d))
