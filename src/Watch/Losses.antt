-- ===== src/Watch/Losses.antt =====
-- A subscriber that falls behind learns how much it missed.
use crossbank.Prelude.{
  ℕ, suc, ◌+◌, ◌≤◌, ◌≡◌, refl, ap, ◌∙◌, Bool, true, false, Option, none, some, List, [], ◌∷◌, ◌++◌,
  arith, if◌then◌else◌, ltb, length, All, Bool-cases, inl, inr,
}
use crossbank.Bytes.{Bytes}
use crossbank.Watch.{
  Event, put, deleted, cleared, stale, evicted, lagged, matches, Attempt, queued, full,
  disconnected, max_u64, Subscriber, skip_one, after_send, send_event, after_notice, offer,
}

-- How many events a message stands for.
abbrev weight : Event → ℕ
weight (lagged n) = n
weight _ = 1

abbrev weights : List Event → ℕ
weights [] = 0
weights (e ∷ es) = weight e + weights es

weights-snoc : (es : List Event) (e : Event) → weights (es ++ e ∷ []) ≡ weights es + weight e
weights-snoc [] e = omega arith
weights-snoc (d ∷ es) e = omega (arith, weights-snoc es e)

-- The events that a change raises: the notice of a gap is made by the fan-out alone.
abbrev is_change : Event → Bool
is_change (lagged n) = false
is_change _ = true

some-inj : {A : Type 0} {a b : A} → some a ≡ some b → a ≡ b
some-inj h = cc

weight_one : (e : Event) → is_change e ≡ true → weight e ≡ 1
weight_one (put k) h = refl
weight_one (deleted k) h = refl
weight_one cleared h = refl
weight_one (stale k) h = refl
weight_one (evicted k) h = refl
weight_one (lagged n) h = absurd (ground arith)

module _ {Q : Type 0} (try_send : Q → Event → Attempt × Q) (sent : Q → List Event)
    (on_queued : (q q' : Q) (e : Event) → try_send q e ≡ (queued, q') → sent q' ≡ sent q ++ e ∷ [])
    (on_full : (q q' : Q) (e : Event) → try_send q e ≡ (full, q') → sent q' ≡ sent q) where
  -- What a subscriber was sent stands for, and what it has not been told of yet.
  abbrev pub told : Subscriber Q → ℕ
  told s = weights (sent s.sender) + s.skipped

  abbrev Counted : Subscriber Q → Subscriber Q → Type 0
  Counted s s' = (told s' ≡ told s + 1) × (s'.skipped ≤ s.skipped + 1) × (s'.filter ≡ s.filter)

  skipped_one :
      (s s' : Subscriber Q) (q : Q) (e : Event)
      → s.skipped + 1 ≤ max_u64
      → try_send s.sender e ≡ (full, q)
      → some (skip_one try_send s q) ≡ some s'
      → Counted s s'
  unfolding skip_one
  skipped_one s s' q e small t h =
      let same = some-inj h in
      let at = ap weights (on_full s.sender q e t) in
      rw (← same) (omega (arith, at), omega arith, refl)

  send-told :
      (s s' : Subscriber Q) (e : Event) (w : Attempt × Q)
      → is_change e ≡ true
      → s.skipped + 1 ≤ max_u64
      → try_send s.sender e ≡ w
      → after_send try_send s w ≡ some s'
      → Counted s s'
  unfolding after_send
  send-told s s' e (queued, q) c small t h =
      let at = ap weights (on_queued s.sender q e t) ∙ weights-snoc (sent s.sender) e in
      rw (← some-inj h) (omega (arith, at, weight_one e c), omega arith, refl)
  send-told s s' e (full, q) c small t h = skipped_one s s' q e small t h
  send-told s s' e (disconnected, q) c small t h = absurd (ground arith)

  notice-told :
      (s s' : Subscriber Q) (e : Event) (w : Attempt × Q)
      → is_change e ≡ true
      → s.skipped + 1 ≤ max_u64
      → try_send s.sender (lagged s.skipped) ≡ w
      → after_notice try_send s e w ≡ some s'
      → Counted s s'
  unfolding after_notice send_event
  notice-told s s' e (queued, q) c small t h =
      let s0 : Subscriber Q = record s { sender = q; skipped = 0 } in
      let at =
        ap weights (on_queued s.sender q (lagged s.skipped) t)
        ∙ weights-snoc (sent s.sender) (lagged s.skipped) in
      let (told_e, few, same) = send-told s0 s' e (try_send q e) c (omega arith) refl h in
      (omega (arith, at, told_e), omega (arith, few), same)
  notice-told s s' e (full, q) c small t h = skipped_one s s' q (lagged s.skipped) small t h
  notice-told s s' e (disconnected, q) c small t h = absurd (ground arith)

  -- How many of a run of events a filter lets through.
  abbrev pub matching : List Event → Option (List Bytes) → ℕ
  matching [] f = 0
  matching (e ∷ es) f = if matches e f then suc (matching es f) else matching es f

  abbrev pub offer_all : List Event → Subscriber Q → Option (Subscriber Q)
  offer_all [] s = some s
  offer_all (e ∷ es) s = elim (offer try_send e s) [ none ↦ none | some s' ↦ offer_all es s' ]

  offer-told :
      (s s' : Subscriber Q) (e : Event)
      → is_change e ≡ true
      → s.skipped + 1 ≤ max_u64
      → matches e s.filter ≡ true
      → offer try_send e s ≡ some s'
      → Counted s s'
  unfolding offer send_event
  offer-told s s' e c small m h = elim (Bool-cases (ltb 0 s.skipped)) [
    | inl some_skipped ↦
        notice-told s s' e (try_send s.sender (lagged s.skipped)) c small refl
          (rw (m, some_skipped) at h)
    | inr none_skipped ↦
        send-told s s' e (try_send s.sender e) c small refl (rw (m, none_skipped) at h)
  ]

  passed_over :
      (s s' : Subscriber Q) (e : Event)
      → matches e s.filter ≡ false
      → offer try_send e s ≡ some s'
      → s ≡ s'
  unfolding offer
  passed_over s s' e m h = some-inj (rw m at h)

  first_offer :
      (s : Subscriber Q) (e : Event) (es : List Event) (o : Option (Subscriber Q))
      (s' : Subscriber Q)
      → offer try_send e s ≡ o
      → elim o [ none ↦ none | some s1 ↦ offer_all es s1 ] ≡ some s'
      → (s1 : Subscriber Q) × (offer try_send e s ≡ some s1) × (offer_all es s1 ≡ some s')
  first_offer s e es none s' o h = absurd (ground arith)
  first_offer s e es (some s1) s' o h = (s1, o, h)

  -- No loss is silent: while a subscriber stays connected, what it was sent, each notice of a gap
  -- counted for the events it stands for, and the gap it has not been told of yet, together account
  -- for every event that passes its filter. The queue is assumed to hold what it accepts and to leave
  -- a refused event out, and the gap to fit a `u64`.
  pub offer_all-told :
      (es : List Event) (s s' : Subscriber Q)
      → All (λ e. is_change e ≡ true) es
      → s.skipped + length es ≤ max_u64
      → offer_all es s ≡ some s'
      → told s' ≡ told s + matching es s.filter
  offer_all-told [] s s' c small h = omega (arith, ap told (some-inj h))
  offer_all-told (e ∷ es) s s' c small h =
      let (s1, first, rest) = first_offer s e es (offer try_send e s) s' refl h in
      elim (Bool-cases (matches e s.filter)) [
        | inl m ↦
            let (one, few, same) = offer-told s s1 e c.0 (omega arith) m first in
            let more = offer_all-told es s1 s' c.1 (omega (arith, few)) rest in
            rw m (omega (arith, one, more, ap (matching es) same))
        | inr m ↦
            let same = passed_over s s1 e m first in
            let more = offer_all-told es s1 s' c.1 (omega (arith, ap (λ x. x.skipped) same)) rest in
            rw m (omega (arith, more, ap told same, ap (λ x. matching es x.filter) same))
      ]
