-- ===== src/Examples/Backends.antt =====
-- src/backend: the in-memory backend.
use crossbank.Prelude.{◌≡◌, refl, ◌⊎◌, arith, true, false, List, [], ◌∷◌}
use crossbank.Error.{ok, err, closed}
use crossbank.Bytes.{Bytes, bytes_lt}
use crossbank.Tree.{Tree, range_panics, IsSorted}
use crossbank.Backend.Api.{
  Table, records, meta, included, unbounded, Op, put, delete_range, KeyRange, ScanPage,
}
use crossbank.Backend.Memory
use crossbank.Backend.Memory.{MemoryBackend, new, commit, tree_of}
use crossbank.Backend.Memory.Refines.{IsOrdered, effects, value_at, commit-refines}
use crossbank.Backend.Memory.Paging.{request}
use crossbank.Locker.Inner.Walk.Pages.{Pages, scan-past}

abbrev abc : Tree Bytes
abc = (1 ∷ [], 10 ∷ []) ∷ (2 ∷ [], 20 ∷ []) ∷ (3 ∷ [], 30 ∷ []) ∷ []

abbrev batch : List Op
batch =
    put records (1 ∷ []) (10 ∷ [])
    ∷ put records (2 ∷ []) (20 ∷ [])
    ∷ delete_range records (record { start = included (2 ∷ []); finish = unbounded })
    ∷ put meta (2 ∷ []) (7 ∷ [])
    ∷ []

commit-refines_example :
    (false ≡ true) × (commit new batch ≡ err closed)
    ⊎ ((b' : MemoryBackend) × (commit new batch ≡ ok b')
        × IsOrdered b'.tables
        × ((t : Table) (k : Bytes)
            → Memory.get b' t k ≡ ok (effects batch t k (value_at new.tables t k))))
commit-refines_example = commit-refines new batch (record { meta = tt; records = tt; chunks = tt })

abc-IsSorted : IsSorted abc
unfolding bytes_lt
abc-IsSorted = ((refl, (refl, tt)), ((refl, tt), (tt, tt)))

abbrev filled : MemoryBackend
filled = record { tables = record { meta = []; records = abc; chunks = [] }; is_closed = false }

abbrev from_one : KeyRange
from_one = record { start = included (1 ∷ []); finish = unbounded }

scan-past_example :
    (page : ScanPage) × (Memory.scan filled (request records from_one true 2 true) ≡ ok page)
    × Pages true true 2 from_one abc page
unfolding range_panics tree_of
scan-past_example =
    scan-past filled records from_one true true 2 refl abc-IsSorted refl (omega arith)
