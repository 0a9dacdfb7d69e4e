-- ===== src/Watch.antt =====
-- src/watch.rs: change notification. The bounded queue of `futures` is a parameter: a type of senders
-- and `try_send`. The lock is held for a whole broadcast and is never poisoned.
pub mod Losses
use crossbank.Prelude.{
  ℕ, ◌+◌, ◌-◌, ◌^◌, min, Bool, true, false, not, Option, none, some, List, [], ◌∷◌, ◌++◌,
  if◌then◌else◌, ltb, any,
}
use crossbank.Bytes.{Bytes, bytes_eq}

abbrev default_capacity : ℕ
default_capacity = 64

pub data Event : Type 0 where
  put : Bytes → Event
  deleted : Bytes → Event
  cleared : Event
  stale : Bytes → Event
  evicted : Bytes → Event
  lagged : ℕ → Event

unfoldable key_bytes : Event → Bytes
key_bytes (put key) = key
key_bytes (deleted key) = key
key_bytes (evicted key) = key
key_bytes (stale key) = key
key_bytes cleared = []
key_bytes (lagged skipped) = []

unfoldable matches_keys : Event → List Bytes → Bool
unfolding key_bytes
matches_keys cleared keys = true
matches_keys (lagged skipped) keys = true
matches_keys e keys = any (λ k. bytes_eq k (key_bytes e)) keys

-- `Event::matches`
unfoldable pub matches : Event → Option (List Bytes) → Bool
unfolding matches_keys
matches e none = true
matches e (some keys) = matches_keys e keys

-- What `try_send` answers: the event is queued, the queue is full, the receiver is gone.
pub data Attempt : Type 0 where
  queued full disconnected : Attempt

abbrev pub max_u64 : ℕ
max_u64 = 2 ^ 64 - 1

pub record Subscriber (Q : Type 0) : Type 0 where
  pub sender : Q
  pub filter : Option (List Bytes)
  pub skipped : ℕ

module _ {Q : Type 0} (try_send : Q → Event → Attempt × Q) where
  unfoldable pub skip_one : Subscriber Q → Q → Subscriber Q
  skip_one s q = record s { sender = q; skipped = min (s.skipped + 1) max_u64 }

  -- The event itself. `none` is a subscriber that is dropped.
  unfoldable pub after_send : Subscriber Q → Attempt × Q → Option (Subscriber Q)
  unfolding skip_one
  after_send s (queued, q) = some (record s { sender = q })
  after_send s (disconnected, q) = none
  after_send s (full, q) = some (skip_one s q)

  unfoldable pub send_event : Subscriber Q → Event → Option (Subscriber Q)
  unfolding after_send
  send_event s e = after_send s (try_send s.sender e)

  -- The notice of a gap, and then the event.
  unfoldable pub after_notice : Subscriber Q → Event → Attempt × Q → Option (Subscriber Q)
  unfolding send_event skip_one
  after_notice s e (queued, q) = send_event (record s { sender = q; skipped = 0 }) e
  after_notice s e (disconnected, q) = none
  after_notice s e (full, q) = some (skip_one s q)

  -- The closure that `broadcast` runs over each subscriber.
  unfoldable pub offer : Event → Subscriber Q → Option (Subscriber Q)
  unfolding after_notice
  offer e s =
      if matches e s.filter
      then if ltb 0 s.skipped
        then after_notice s e (try_send s.sender (lagged s.skipped))
        else send_event s e
      else some s

  unfoldable keep_some : Option (Subscriber Q) → List (Subscriber Q) → List (Subscriber Q)
  keep_some none rest = rest
  keep_some (some s) rest = s ∷ rest

  -- `Watchers::broadcast`
  unfoldable broadcast : Event → List (Subscriber Q) → List (Subscriber Q)
  unfolding offer keep_some
  broadcast e [] = []
  broadcast e (s ∷ rest) = keep_some (offer e s) (broadcast e rest)

  -- `Watchers::subscribe`, given the sender of a new channel.
  unfoldable subscribe : List (Subscriber Q) → Q → Option (List Bytes) → List (Subscriber Q)
  subscribe subscribers sender filter =
      subscribers ++ (record { sender = sender; filter = filter; skipped = 0 } ∷ [])
