-- ===== src/Locker/Eager/Opening.antt =====
-- src/locker/eager.rs: opening an eager locker.
use crossbank.Prelude.{
  ℕ, ◌+◌, ◌-◌, ◌^◌, min, true, false, ◌&&◌, Option, none, some, List, [], ◌∷◌, ◌++◌, length, ltb,
  if◌then◌else◌,
}
use crossbank.Error.{
  Result, ok, err, panic, is_corruption, corrupt, omitted_value, invalid_config, locker_too_large,
}
use crossbank.Bytes.{Bytes}
use crossbank.Tree
use crossbank.Tree.{Tree}
use crossbank.Backend.Api.{unbounded}
use crossbank.Backend.Memory.{MemoryBackend}
use crossbank.Locker.Policy.{OnCorrupt, skip, on_corrupt_eq, Policy, precious, evictable}
use crossbank.Locker.Chunk.{ValueIds}
use crossbank.Locker.Inner.{Inner}
use crossbank.Locker.Inner.Walk.{walk}
use crossbank.Locker.Inner.Value.{Postcard, decode_value}
use crossbank.Locker.Lru.Clock.{TickState}
use crossbank.Locker.Transaction.{eager}
use crossbank.Locker.Epochs
use crossbank.Locker.Epochs.{Epochs}
use crossbank.Locker.Resident.{Resident, note_corrupt}
use crossbank.Error.{◌>>=◌}
use crossbank.Locker.Eager.{Locker}

-- What the visitor of `open` has so far.
pub record Loading (T : Type 0) : Type 0 where
  pub values : Tree T
  pub corrupt : List Bytes
  pub loaded : ℕ
  pub overflow : Option ℕ

abbrev or_first : Option ℕ → ℕ → Option ℕ
or_first none n = some n
or_first (some first) n = some first

module _ {T : Type 0} (postcard : Postcard T) where
  unfoldable load_decoded : OnCorrupt → Bytes → Loading T → Result T → Result (Loading T)
  load_decoded on_corrupt key s (ok value) =
      ok (record s { values = Tree.insert key value s.values })
  load_decoded on_corrupt key s panic = panic
  load_decoded on_corrupt key s (err e) =
      if on_corrupt_eq on_corrupt skip && is_corruption e
      then ok (record s { corrupt = s.corrupt ++ (key ∷ []) })
      else err e

  -- The visitor of `open`: past the budget nothing more is decoded.
  unfoldable pub load_entry : Inner → Loading T → Bytes → Option Bytes → Result (Loading T)
  unfolding load_decoded
  load_entry i s key none = err (corrupt omitted_value)
  load_entry i s key (some bytes) =
      let loaded = min (2 ^ 64 - 1) (s.loaded + length bytes) in
      if ltb i.config.eager_budget loaded
      then ok (record s { loaded = loaded; overflow = or_first s.overflow loaded })
      else load_decoded i.config.on_corrupt key (record s { loaded = loaded })
          (decode_value postcard i.chain bytes)

  unfoldable pub note_all_corrupt : List Bytes → Resident → Resident
  note_all_corrupt [] r = r
  note_all_corrupt (key ∷ keys) r = note_all_corrupt keys (note_corrupt key r)

  abbrev pub opened_with : Inner → MemoryBackend → ValueIds → TickState → Loading T → Locker T
  opened_with i b values ticks s = record {
    res = note_all_corrupt s.corrupt (record {
      inner = i;
      mode = eager;
      backend = b;
      values = values;
      ticks = ticks;
      is_closed = false;
      is_name_shared = false;
      is_deaf = false;
      announced = [];
      index = none;
      lru = none;
      staged = [];
      known_inline = none;
      corrupt = [];
      dropped = [];
    });
    values = s.values;
    epochs = Epochs.new;
  }

  abbrev within_budget : Inner → Loading T → Result (Loading T)
  within_budget i s = elim s.overflow [
    | none ↦ ok s
    | some first ↦ err (locker_too_large s.loaded i.config.eager_budget)
  ]

  unfoldable open_under : Policy → Inner → MemoryBackend → ValueIds → TickState → Result (Locker T)
  unfolding load_entry
  open_under (evictable max_bytes) i b values ticks = err invalid_config
  open_under precious i b values ticks = do
    s ←
        walk (load_entry i) i b unbounded unbounded false true
          (record { values = []; corrupt = []; loaded = 0; overflow = none })
    loaded ← within_budget i s
    ok (opened_with i b values ticks loaded)

  -- `open`: an evictable policy is refused.
  unfoldable pub open_locker : Inner → MemoryBackend → ValueIds → TickState → Result (Locker T)
  unfolding open_under
  open_locker i b values ticks = open_under i.config.policy i b values ticks
