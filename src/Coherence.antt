-- ===== src/Coherence.antt =====
-- src/coherence/api.rs: the news of a commit, for the other tabs.
pub mod LastChange
pub mod Mirror
use crossbank.Prelude.{
  ℕ, ◌+◌, Bool, true, false, ◌&&◌, not, Option, none, some, List, [], ◌∷◌, ◌++◌, if◌then◌else◌, leb,
  length,
}
use crossbank.Error.{Result, ok, err, panic}
use crossbank.Bytes.{Bytes, bytes_eq}
use crossbank.Backend.Api.{
  Table, records, Bound, unbounded, included, excluded, KeyRange, Op, put, delete, delete_range,
}
use crossbank.Key.{LockerId, decode_bytes, locker_range}
use crossbank.Locker.Chunk.{ChunkPointer, parse, is_pointer}

abbrev pub inline_limit : ℕ
inline_limit = 4096

pub record Change : Type 0 where
  pub key : Bytes
  pub value : Option Bytes
  pub bytes : Option ℕ
  pub is_deleted : Bool

pub record Announcement : Type 0 where
  pub instance_id : ℕ
  pub locker_id : LockerId
  pub epoch : ℕ
  pub is_cleared : Bool
  pub changes : List Change

unfoldable pub bound_eq : Bound Bytes → Bound Bytes → Bool
bound_eq unbounded unbounded = true
bound_eq (included a) (included b) = bytes_eq a b
bound_eq (excluded a) (excluded b) = bytes_eq a b
bound_eq _ _ = false

unfoldable pub range_eq : KeyRange → KeyRange → Bool
unfolding bound_eq
range_eq r s = bound_eq r.start s.start && bound_eq r.finish s.finish

unfoldable total_len_of : Result ChunkPointer → Option ℕ
total_len_of (ok p) = some p.total_len
total_len_of (err e) = none
total_len_of panic = none

-- The change that a put of a record is.
unfoldable pub put_change : Bytes → Bytes → Change
unfolding total_len_of
put_change user_key value =
    let pointer = is_pointer value in
    record {
      key = user_key;
      value = if leb (length value) inline_limit && not pointer then some value else none;
      bytes = if pointer then total_len_of (parse value) else none;
      is_deleted = false;
    }

abbrev pub delete_change : Bytes → Change
delete_change user_key = record { key = user_key; value = none; bytes = none; is_deleted = true }

-- Whether the locker was cleared, and the changes since.
abbrev pub News : Type 0
News = Bool × List Change

unfoldable pub push : News → (Bytes → Change) → Result Bytes → News
push (is_cleared, changes) change (ok user_key) = (is_cleared, changes ++ (change user_key ∷ []))
push (is_cleared, changes) change (err e) = (is_cleared, changes)
push (is_cleared, changes) change panic = (is_cleared, changes)

-- One round of the loop over the mutations.
unfoldable pub news_step : LockerId → News → Op → News
unfolding push put_change range_eq
news_step id news (put records key value) =
    push news (λ k. put_change k value) (decode_bytes id key)
news_step id news (delete records key) = push news delete_change (decode_bytes id key)
news_step id news (delete_range records r) =
    if range_eq r (locker_range id) then (true, []) else news
news_step id news _ = news

unfoldable pub news_of : LockerId → News → List Op → News
unfolding news_step
news_of id news [] = news
news_of id news (op ∷ ops) = news_of id (news_step id news op) ops

unfoldable pub announce_news : ℕ → LockerId → ℕ → News → Option Announcement
announce_news instance_id id epoch (false, []) = none
announce_news instance_id id epoch (is_cleared, changes) = some (record {
  instance_id = instance_id;
  locker_id = id;
  epoch = epoch;
  is_cleared = is_cleared;
  changes = changes;
})

unfoldable pub announcement_from_ops : ℕ → LockerId → ℕ → List Op → Option Announcement
unfolding announce_news news_of
announcement_from_ops instance_id id epoch ops =
    announce_news instance_id id epoch (news_of id (false, []) ops)
