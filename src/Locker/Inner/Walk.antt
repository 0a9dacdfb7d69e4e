-- ===== src/Locker/Inner/Walk.antt =====
-- `Inner::walk`: every record of a range, page by page.
pub mod Keeps
pub mod Complete
pub mod Records
pub mod Pages
use crossbank.Prelude.{
  ℕ, zero, suc, ◌+◌, Bool, true, false, Option, none, some, List, [], ◌∷◌, if◌then◌else◌, length,
}
use crossbank.Error.{Result, ok, err, panic, ◌>>=◌}
use crossbank.Bytes.{Bytes}
use crossbank.Backend.Api.{Bound, excluded, KeyRange, records, ScanRequest, ScanPage}
use crossbank.Backend.Memory
use crossbank.Backend.Memory.{MemoryBackend}
use crossbank.Key.{LockerId, decode_bytes, encode_range_bytes, is_degenerate}
use crossbank.Locker.Inner.{Inner}

-- The range past the last key returned.
unfoldable pub past : Bool → KeyRange → Bytes → KeyRange
past true r last = record r { finish = excluded last }
past false r last = record r { start = excluded last }

module _ {ℓ} {S : Type ℓ} (visit : S → Bytes → Option Bytes → Result S) where
  -- The loop over the items of a page.
  unfoldable pub visit_page : LockerId → S → List (Bytes × Option Bytes) → Result S
  visit_page id s [] = ok s
  visit_page id s ((encoded, value) ∷ rest) = do
    user_key ← decode_bytes id encoded
    s' ← visit s user_key value
    visit_page id s' rest

  -- The loop over the pages. Running out of fuel reads as a panic.
  unfoldable pub walk_pages : Inner → MemoryBackend → Bool → Bool → ℕ → KeyRange → S → Result S
  unfolding past
  walk_pages i b is_reverse want zero r s = panic
  walk_pages i b is_reverse want (suc fuel) r s = do
    page ← Memory.scan b (record {
      table = records;
      range = r;
      is_reverse = is_reverse;
      limit = i.scan_page;
      want_values = want;
    })
    s' ← visit_page i.id s page.items
    elim page.resume [
      | none ↦ ok s'
      | some last ↦ walk_pages i b is_reverse want fuel (past is_reverse r last) s'
    ]

  -- A page that resumes is not empty, so one page for each record and a last one are enough.
  unfoldable pub walk :
      Inner → MemoryBackend → Bound Bytes → Bound Bytes → Bool → Bool → S → Result S
  walk i b start finish is_reverse want s =
      if is_degenerate start finish
      then ok s
      else walk_pages i b is_reverse want (length b.tables.records + 1)
          (encode_range_bytes i.id start finish) s
