-- ===== src/Locker/Lru/Clock/Monotone.antt =====
-- The clock only moves forward.
use crossbank.Prelude.{
  ℕ, ◌+◌, ◌^◌, ◌<◌, ◌≤◌, max, ◌≡◌, refl, ap, sym, ◌∙◌, Option, none, some, List, [], ◌∷◌, arith,
  ltb, All, Bool-cases, inl, inr, ◌⊎◌,
}
use crossbank.Error.{Result, ok, err, panic, ok-inj}
use crossbank.Locker.Lru.Clock.{
  TickState, fresh_clock, larger, above_floor, cursor, advance, move_to, take_from, take, or_else,
  seed_and_take, raise, raise_floor, observe_recorded,
}

-- Where the clock stands, at least.
abbrev stands : TickState → ℕ
stands s = max (or_else 0 s.next) s.floor

advance-ok : (tick next : ℕ) → advance tick ≡ ok next → next ≡ tick + 1
unfolding advance
advance-ok tick next h = elim (Bool-cases (ltb (tick + 1) (2 ^ 64))) [
  | inl e ↦ ground arith
  | inr n ↦ absurd (ground arith)
]

move_to-ok {ℓ} :
    {A : Type ℓ} (s s' : TickState) (a x : A) (tick : ℕ) (r : Result ℕ)
    → r ≡ advance tick
    → move_to s a r ≡ (ok x, s')
    → (x ≡ a) × (s' ≡ record s { next = some (tick + 1) })
unfolding move_to
move_to-ok s s' a x tick (ok next) e h = (
  sym (ok-inj (ap (λ w. w.0) h)),
  sym (ap (λ w. w.1) h) ∙ ap (λ n. record s { next = some n }) (advance-ok tick next (sym e)),
)
move_to-ok s s' a x tick (err why) e h = absurd (ground (arith, ap (λ w. w.0) h))
move_to-ok s s' a x tick panic e h = absurd (ground (arith, ap (λ w. w.0) h))

-- A tick that is given out is where the clock stands or later, and the clock moves past it.
abbrev Ticked : TickState → ℕ → TickState → Type 0
Ticked s tick s' = (stands s ≤ tick) × (tick < stands s')

take-ok :
    (next : Option ℕ) (floor : ℕ) (s' : TickState) (tick : ℕ)
    → take (record { next = next; floor = floor }) ≡ (ok (some tick), s')
    → Ticked (record { next = next; floor = floor }) tick s'
unfolding take take_from cursor larger above_floor or_else
take-ok none floor s' tick h = absurd (ground (arith, ok-inj (ap (λ w. w.0) h)))
take-ok (some next) floor s' tick h =
    let (e, moved) =
      move_to-ok (record { next = some next; floor = floor }) s' (some (max next floor)) (some tick)
        (max next floor) (advance (max next floor)) refl h in
    let same : tick ≡ max next floor = cc in (omega (arith, same), rw moved (omega (arith, same)))

seed_and_take-ok :
    (next : Option ℕ) (floor stored : ℕ) (s' : TickState) (tick : ℕ)
    → seed_and_take (record { next = next; floor = floor }) stored ≡ (ok tick, s')
    → Ticked (record { next = next; floor = floor }) tick s'
unfolding seed_and_take cursor larger above_floor or_else
seed_and_take-ok none floor stored s' tick h =
    let (e, moved) =
      move_to-ok (record { next = none; floor = floor }) s' (max stored floor) tick
        (max stored floor) (advance (max stored floor)) refl h in
    (omega (arith, e), rw moved (omega (arith, e)))
seed_and_take-ok (some next) floor stored s' tick h =
    let (e, moved) =
      move_to-ok (record { next = some next; floor = floor }) s' (max (max next stored) floor) tick
        (max (max next stored) floor) (advance (max (max next stored) floor)) refl h in
    (omega (arith, e), rw moved (omega (arith, e)))

-- A tick that was seen in storage is behind the clock, which has not moved back.
raise_floor-ok :
    (next : Option ℕ) (floor seen : ℕ) (r : Result ℕ) (s' : TickState)
    → r ≡ advance seen
    → raise_floor (record { next = next; floor = floor }) r ≡ (ok tt, s')
    → (seen < stands s') × (stands (record { next = next; floor = floor }) ≤ stands s')
unfolding raise_floor raise or_else
raise_floor-ok none floor seen (ok least) s' e h =
    let at = advance-ok seen least (sym e) in
    rw (← ap (λ w. w.1) h) (omega (arith, at), omega (arith, at))
raise_floor-ok (some next) floor seen (ok least) s' e h =
    let at = advance-ok seen least (sym e) in
    rw (← ap (λ w. w.1) h) (omega (arith, at), omega (arith, at))
raise_floor-ok next floor seen (err why) s' e h = absurd (ground (arith, ap (λ w. w.0) h))
raise_floor-ok next floor seen panic s' e h = absurd (ground (arith, ap (λ w. w.0) h))

-- The ticks that the clock of a bank gave out or saw in storage, the newest first, and the clock
-- after them, for any order of the two halves of `allocate` and of the loads of lockers.
pub data Run : List ℕ → TickState → Type 0 where
  started : Run [] fresh_clock
  saw :
      {ticks : List ℕ} {s : TickState}
      → Run ticks s
      → (seen : ℕ) (s' : TickState) → observe_recorded s seen ≡ (ok tt, s')
      → Run (seen ∷ ticks) s'
  took :
      {ticks : List ℕ} {s : TickState}
      → Run ticks s
      → (tick : ℕ) (s' : TickState) → take s ≡ (ok (some tick), s')
      → Run (tick ∷ ticks) s'
  seeded :
      {ticks : List ℕ} {s : TickState}
      → Run ticks s
      → (stored tick : ℕ) (s' : TickState) → seed_and_take s stored ≡ (ok tick, s')
      → Run (tick ∷ ticks) s'

below_weaken : (m n : ℕ) (ticks : List ℕ) → m ≤ n → All (λ t. t < m) ticks → All (λ t. t < n) ticks
below_weaken m n [] h a = tt
below_weaken m n (t ∷ ticks) h a = (omega (arith, a.0), below_weaken m n ticks h a.1)

Run-below : (ticks : List ℕ) (s : TickState) → Run ticks s → All (λ t. t < stands s) ticks
unfolding observe_recorded
Run-below _ _ started = tt
Run-below _ _ (saw {ticks = ticks} {s = s} run seen s' h) =
    let (past, onward) = raise_floor-ok s.next s.floor seen (advance seen) s' refl h in
    (past, below_weaken (stands s) (stands s') ticks onward (Run-below ticks s run))
Run-below _ _ (took {ticks = ticks} {s = s} run tick s' h) =
    let (least, past) = take-ok s.next s.floor s' tick h in
    (past, below_weaken (stands s) (stands s') ticks (omega arith) (Run-below ticks s run))
Run-below _ _ (seeded {ticks = ticks} {s = s} run stored tick s' h) =
    let (least, past) = seed_and_take-ok s.next s.floor stored s' tick h in
    (past, below_weaken (stands s) (stands s') ticks (omega arith) (Run-below ticks s run))

-- A tick that the clock gives out is above every tick that it gave out before and every tick that a
-- load saw in storage, in whatever order the tasks of a bank run, and whatever counter was stored.
pub All-below-tick :
    (ticks : List ℕ) (s s' : TickState) (tick stored : ℕ)
    → Run ticks s
    → (take s ≡ (ok (some tick), s')) ⊎ (seed_and_take s stored ≡ (ok tick, s'))
    → All (λ older. older < tick) ticks
All-below-tick ticks s s' tick stored run (inl h) =
    below_weaken (stands s) tick ticks (take-ok s.next s.floor s' tick h).0 (Run-below ticks s run)
All-below-tick ticks s s' tick stored run (inr h) =
    below_weaken (stands s) tick ticks (seed_and_take-ok s.next s.floor stored s' tick h).0
      (Run-below ticks s run)
