-- ===== src/Backend/Api.antt =====
-- src/backend/api.rs: tables, key ranges, mutations, scan requests and pages.
pub mod Ranges
use crossbank.Prelude.{
  ℕ, suc, ◌+◌, ◌==◌, Bool, true, false, not, ◌&&◌, Option, none, some, List, [], ◌∷◌, reverse,
  if◌then◌else◌,
}
use crossbank.Bytes.{Bytes, bytes_lt, bytes_le}

pub data Table : Type 0 where
  meta records chunks : Table

-- `std::ops::Bound`.
pub data Bound {ℓ} (A : Type ℓ) : Type ℓ where
  unbounded : Bound A
  included : A → Bound A
  excluded : A → Bound A

pub record KeyRange : Type 0 where
  pub start : Bound Bytes
  pub finish : Bound Bytes

-- `KeyRange::all`
abbrev pub all : KeyRange
all = record { start = unbounded; finish = unbounded }

-- The `while let Some(last) = end.pop()` loop of `KeyRange::prefix`, on the prefix from its last
-- byte to its first.
bump : Bytes → Option Bytes
bump [] = none
bump (last ∷ rest) = if last == 0xff then bump rest else some (reverse ((last + 1) ∷ rest))

prefix_end : Option Bytes → Bound Bytes
prefix_end none = unbounded
prefix_end (some s) = excluded s

-- `KeyRange::prefix`
unfoldable pub prefix : Bytes → KeyRange
unfolding bump prefix_end
prefix p = record { start = included p; finish = prefix_end (bump (reverse p)) }

unfoldable pub above_start : Bound Bytes → Bytes → Bool
above_start unbounded key = true
above_start (included s) key = bytes_le s key
above_start (excluded s) key = bytes_lt s key

unfoldable pub below_end : Bound Bytes → Bytes → Bool
below_end unbounded key = true
below_end (included e) key = bytes_le key e
below_end (excluded e) key = bytes_lt key e

-- `KeyRange::contains`
unfoldable pub contains : KeyRange → Bytes → Bool
unfolding above_start below_end
contains r key = above_start r.start key && below_end r.finish key

-- When a commit must be on stable storage.
pub data Durability : Type 0 where
  immediate eventual : Durability

pub data Op : Type 0 where
  put : Table → Bytes → Bytes → Op
  delete : Table → Bytes → Op
  delete_range : Table → KeyRange → Op

pub record ScanRequest : Type 0 where
  pub table : Table
  pub range : KeyRange
  pub is_reverse : Bool
  pub limit : ℕ
  pub want_values : Bool

pub record ScanPage : Type 0 where
  pub items : List (Bytes × Option Bytes)
  pub resume : Option Bytes

abbrev pub default_scan_page : ℕ
default_scan_page = 256
