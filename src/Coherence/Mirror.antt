-- ===== src/Coherence/Mirror.antt =====
-- The news says of each key of the locker what the commit leaves under it.
use crossbank.Prelude.{
  ℕ, ◌≡◌, ◌≢◌, refl, ap, sym, subst, ◌∙◌, Bool, true, false, ◌&&◌, not, Option, none, some, List,
  [], ◌∷◌, ◌++◌, arith, if◌then◌else◌, leb, length, All, Bool-cases, inl, inr, ◌⊎◌,
}
use crossbank.Error.{Result, ok, err, panic}
use crossbank.Bytes.{Bytes, IsBytes, bytes_eq, bytes_eq_iff}
use crossbank.Bytes.Number.{to_be}
use crossbank.Backend.Api.{
  records, meta, chunks, Bound, unbounded, included, excluded, KeyRange, contains, Op, put, delete,
  delete_range,
}
use crossbank.Backend.Memory.Refines.{effect, effects}
use crossbank.Key.{LockerId, encode_bytes, decode_bytes, locker_range}
use crossbank.Key.Scope.{contains-locker_range}
use crossbank.Key.Laws.{IsId, decode-encode_self, encode-decode}
use crossbank.Locker.Chunk.{is_pointer}
use crossbank.Coherence.{
  inline_limit, Change, Announcement, announce_news, announcement_from_ops, News, range_eq,
  bound_eq, put_change, delete_change, push, news_step, news_of,
}
use crossbank.Coherence.LastChange.{last_change, last_change-snoc}

-- What the news says of a key, against the value it had and the value it has.
abbrev Says : Bool → Option Change → Option Bytes → Option Bytes → Type 0
Says is_cleared none old new = new ≡ (if is_cleared then none else old)
Says is_cleared (some c) old new =
    ((c.is_deleted ≡ true) × (new ≡ none))
    ⊎ ((v : Bytes) × (c.is_deleted ≡ false)
        × (new ≡ some v)
        × ((c.value ≡ none) ⊎ (c.value ≡ some v)))

abbrev Mirrors : Bytes → News → Option Bytes → Option Bytes → Type 0
Mirrors k news old new = Says news.0 (last_change k news.1) old new

bytes_eq-append : (p a b : Bytes) → bytes_eq (p ++ a) (p ++ b) ≡ bytes_eq a b
unfolding bytes_eq
bytes_eq-append [] a b = refl
bytes_eq-append (x ∷ p) a b = ground (arith, bytes_eq-append p a b)

bool_clash : {b : Bool} → b ≡ true → b ≡ false → ⊥
bool_clash t f = absurd (ground arith)

eq_of_bound_eq : (a b : Bound Bytes) → bound_eq a b ≡ true → a ≡ b
unfolding bound_eq
eq_of_bound_eq unbounded unbounded h = refl
eq_of_bound_eq (included a) (included b) h = ap included ((bytes_eq_iff a b).0 h)
eq_of_bound_eq (excluded a) (excluded b) h = ap excluded ((bytes_eq_iff a b).0 h)
eq_of_bound_eq unbounded (included b) h = absurd (ground arith)
eq_of_bound_eq unbounded (excluded b) h = absurd (ground arith)
eq_of_bound_eq (included a) unbounded h = absurd (ground arith)
eq_of_bound_eq (included a) (excluded b) h = absurd (ground arith)
eq_of_bound_eq (excluded a) unbounded h = absurd (ground arith)
eq_of_bound_eq (excluded a) (included b) h = absurd (ground arith)

eq_of_range_eq : (r s : KeyRange) → range_eq r s ≡ true → r ≡ s
unfolding range_eq
eq_of_range_eq r s h =
    let start : bound_eq r.start s.start ≡ true = ground arith in
    let finish : bound_eq r.finish s.finish ≡ true = ground arith in
    ap (λ x. record r { start = x }) (eq_of_bound_eq r.start s.start start)
    ∙ ap (λ x. record s { finish = x }) (eq_of_bound_eq r.finish s.finish finish)

push-unchanged :
    (news : News) (change : Bytes → Change) (r : Result Bytes)
    → ((u : Bytes) → r ≢ ok u)
    → push news change r ≡ news
unfolding push
push-unchanged news change (ok u) ne = absurd (ne u refl)
push-unchanged news change (err e) ne = refl
push-unchanged news change panic ne = refl

-- The mutations that a commit of the locker is made of: keys of bytes, and ranges of records that are
-- the whole locker or leave the key alone.
abbrev InScope : LockerId → Bytes → Op → Type 0
InScope id k (put records key value) = IsBytes key
InScope id k (delete records key) = IsBytes key
InScope id k (delete_range records r) =
    (range_eq r (locker_range id) ≡ true) ⊎ (contains r (encode_bytes id k) ≡ false)
InScope id k _ = Unit

module _ (id : LockerId) (fits : IsId id) (k : Bytes) (kb : IsBytes k) (old : Option Bytes) where
  pushed :
      (news : News) (c : Change) (cur new : Option Bytes)
      → Mirrors k news old cur
      → (bytes_eq c.key k ≡ true → Says news.0 (some c) old new)
      → (bytes_eq c.key k ≡ false → new ≡ cur)
      → Mirrors k (news.0, news.1 ++ c ∷ []) old new
  pushed news c cur new m hit miss =
      subst (λ o. Says news.0 o old new) (sym (last_change-snoc k news.1 c))
        (elim (Bool-cases (bytes_eq c.key k)) [ inl e ↦ rw e (hit e) | inr n ↦ rw (n, miss n) m ])

  not_own :
      (key : Bytes) (r : Result Bytes)
      → decode_bytes id key ≡ r
      → r ≢ ok k
      → bytes_eq key (encode_bytes id k) ≡ false
  not_own key r e ne = elim (Bool-cases (bytes_eq key (encode_bytes id k))) [
    | inl same ↦
        let own = ap (decode_bytes id) ((bytes_eq_iff key (encode_bytes id k)).0 same) in
        absurd (ne (sym e ∙ own ∙ decode-encode_self id k fits))
    | inr n ↦ n
  ]

  -- A stored key is the key's own exactly where it decodes to it.
  own_key :
      (key : Bytes)
      → IsBytes key
      → (r : Result Bytes) → decode_bytes id key ≡ r
      → ((u : Bytes) × (r ≡ ok u) × (bytes_eq key (encode_bytes id k) ≡ bytes_eq u k))
        ⊎ (((u : Bytes) → r ≢ ok u) × (bytes_eq key (encode_bytes id k) ≡ false))
  own_key key b (ok u) e = inl (
    u,
    refl,
    rw (encode-decode id key u b e) (unfold encode_bytes in bytes_eq-append (to_be 4 id) u k),
  )
  own_key key b (err why) e =
      inr (λ u h. absurd (ground arith), not_own key (err why) e (λ h. absurd (ground arith)))
  own_key key b panic e =
      inr (λ u h. absurd (ground arith), not_own key panic e (λ h. absurd (ground arith)))

  -- A change to a record, and what it leaves under the key.
  recorded :
      (news : News) (key : Bytes) (change : Bytes → Change) (cur value : Option Bytes)
      → IsBytes key
      → Mirrors k news old cur
      → ((u : Bytes) → (change u).key ≡ u)
      → ((u : Bytes) → Says news.0 (some (change u)) old value)
      → Mirrors k
          (push news change (decode_bytes id key))
          old
          (if bytes_eq key (encode_bytes id k) then value else cur)
  unfolding push
  recorded news key change cur value b m named says =
      elim (own_key key b (decode_bytes id key) refl) [
        | inl (u, e, same) ↦
            rw (e, same)
              (pushed news (change u) cur (if bytes_eq u k then value else cur) m
                (λ h. let h' = rw (named u) at h in rw h' (says u))
                (λ h. let h' = rw (named u) at h in rw h' refl))
        | inr (other, n) ↦ rw (n, push-unchanged news change (decode_bytes id key) other) m
      ]

  covers :
      (r : KeyRange) → range_eq r (locker_range id) ≡ true → contains r (encode_bytes id k) ≡ true
  covers r e =
      ap (λ r. contains r (encode_bytes id k)) (eq_of_range_eq r (locker_range id) e)
      ∙ contains-locker_range id k kb

  -- A put carries its value or says nothing of it.
  carried :
      (u value : Bytes)
      → ((put_change u value).value ≡ none) ⊎ ((put_change u value).value ≡ some value)
  unfolding put_change
  carried u value = elim (Bool-cases (leb (length value) inline_limit && not (is_pointer value))) [
    | inl e ↦ inr (rw e refl)
    | inr n ↦ inl (rw n refl)
  ]

  step-Mirrors :
      (news : News) (op : Op) (cur : Option Bytes)
      → InScope id k op
      → Mirrors k news old cur
      → Mirrors k (news_step id news op) old (effect op records (encode_bytes id k) cur)
  unfolding news_step
  step-Mirrors news (put records key value) cur b m =
      recorded news key (λ u. put_change u value) cur (some value) b m
        (λ u. unfold put_change in refl)
        (λ u. inr (value, unfold put_change in refl, refl, carried u value))
  step-Mirrors news (delete records key) cur b m =
      recorded news key delete_change cur none b m (λ u. refl) (λ u. inl (refl, refl))
  step-Mirrors news (delete_range records r) cur (inl e) m = rw (e, covers r e) refl
  step-Mirrors news (delete_range records r) cur (inr n) m =
      elim (Bool-cases (range_eq r (locker_range id))) [
        | inl e ↦ absurd (bool_clash (covers r e) n)
        | inr apart ↦ rw (apart, n) m
      ]
  step-Mirrors news (put meta key value) cur b m = m
  step-Mirrors news (put chunks key value) cur b m = m
  step-Mirrors news (delete meta key) cur b m = m
  step-Mirrors news (delete chunks key) cur b m = m
  step-Mirrors news (delete_range meta r) cur b m = m
  step-Mirrors news (delete_range chunks r) cur b m = m

  news_of-Mirrors :
      (news : News) (ops : List Op) (cur : Option Bytes)
      → All (InScope id k) ops
      → Mirrors k news old cur
      → Mirrors k (news_of id news ops) old (effects ops records (encode_bytes id k) cur)
  unfolding news_of
  news_of-Mirrors news [] cur a m = m
  news_of-Mirrors news (op ∷ ops) cur a m =
      news_of-Mirrors (news_step id news op) ops _ a.1 (step-Mirrors news op cur a.0 m)

-- What another tab is told of a key, against the value before and after the commit.
abbrev pub Told : LockerId → ℕ → Bytes → Option Announcement → Option Bytes → Option Bytes → Type 0
Told id epoch k none old new = new ≡ old
Told id epoch k (some a) old new =
    Mirrors k (a.is_cleared, a.changes) old new × (a.locker_id ≡ id) × (a.epoch ≡ epoch)

Told-news :
    (instance_id : ℕ) (id : LockerId) (epoch : ℕ) (k : Bytes) (is_cleared : Bool)
    (changes : List Change) (old new : Option Bytes)
    → Mirrors k (is_cleared, changes) old new
    → Told id epoch k (announce_news instance_id id epoch (is_cleared, changes)) old new
unfolding announce_news
Told-news instance_id id epoch k false [] old new m = m
Told-news instance_id id epoch k true [] old new m = (m, refl, refl)
Told-news instance_id id epoch k false (c ∷ cs) old new m = (m, refl, refl)
Told-news instance_id id epoch k true (c ∷ cs) old new m = (m, refl, refl)

-- The news of a commit is true and complete. For each key of the locker, a last change that deletes
-- it means that the commit leaves nothing there; any other last change means that a record is there,
-- and a carried value is that record; where the news names no change, the record is gone if the
-- locker was cleared and untouched if not. Without an announcement the record is untouched. The keys
-- are byte strings, and a range of records that the commit deletes is the whole locker or leaves the
-- key alone.
pub announcement_from_ops-Told :
    (instance_id : ℕ) (id : LockerId) (epoch : ℕ) (k : Bytes) (ops : List Op) (old : Option Bytes)
    → IsId id
    → IsBytes k
    → All (InScope id k) ops
    → Told id epoch k
        (announcement_from_ops instance_id id epoch ops)
        old
        (effects ops records (encode_bytes id k) old)
unfolding announcement_from_ops
announcement_from_ops-Told instance_id id epoch k ops old fits kb a =
    let news = news_of id (false, []) ops in
    Told-news instance_id id epoch k news.0 news.1 old _
      (news_of-Mirrors id fits k kb old (false, []) ops old a refl)
