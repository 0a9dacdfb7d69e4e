-- ===== src/Locker/Epochs.antt =====
-- `Epochs` of src/locker/inner.rs: what a locker remembers of its own commits and of other tabs' news.
use crossbank.Prelude.{ℕ, max, Option, none, some, List, [], ◌∷◌, map, if◌then◌else◌, ltb, length}
use crossbank.Bytes.{Bytes}
use crossbank.Tree
use crossbank.Tree.{Tree}
use crossbank.Coherence.{Announcement}

abbrev epoch_memory : ℕ
epoch_memory = 4096

pub record Epochs : Type 0 where
  pub local : Tree ℕ
  pub applied : ℕ

abbrev pub new : Epochs
new = record { local = []; applied = 0 }

unfoldable insert_keys : List Bytes → ℕ → Tree ℕ → Tree ℕ
insert_keys [] epoch t = t
insert_keys (key ∷ keys) epoch t = insert_keys keys epoch (Tree.insert key epoch t)

unfoldable pub note_local : Epochs → List Bytes → ℕ → Epochs
unfolding insert_keys
note_local e keys epoch =
    let local = insert_keys keys epoch e.local in
    record e { local = if ltb epoch_memory (length local) then [] else local }

-- `local`, which is also the field's name in the source.
unfoldable pub local_epoch : Epochs → Bytes → Option ℕ
local_epoch e key = Tree.get key e.local

-- `fetch_max`
unfoldable pub note_applied : Epochs → ℕ → Epochs
note_applied e epoch = record e { applied = max e.applied epoch }

unfoldable pub forget_local : Epochs → Epochs
forget_local e = record e { local = [] }

-- What `Inner::commit` remembers of the news of a commit that landed.
unfoldable pub remember : Epochs → Option Announcement → Epochs
unfolding note_local forget_local
remember e none = e
remember e (some news) =
    let noted = note_local e (map (λ c. c.key) news.changes) news.epoch in
    if news.is_cleared then forget_local noted else noted
