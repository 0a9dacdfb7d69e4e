-- ===== src/Locker/Transaction/Actions.antt =====
-- What the mutations of the actions, one after the other, leave.
use crossbank.Prelude.{
  ◌≡◌, refl, ap, sym, ◌∙◌, false, Option, none, some, List, [], ◌∷◌, ◌++◌, arith, Bool-cases, inl,
  inr, subst,
}
use crossbank.Error.{Result, ok, err, panic, >>=-eq-ok, ok-inj}
use crossbank.Bytes.{Bytes, bytes_eq, bytes_eq_iff}
use crossbank.Tree
use crossbank.Tree.{Tree, IsSorted}
use crossbank.Tree.Laws.{above_absent}
use crossbank.Backend.Api.{records, Op}
use crossbank.Backend.Memory.{MemoryBackend}
use crossbank.Backend.Memory.Refines.{effects}
use crossbank.Locker.Chunk.{ValueIds}
use crossbank.Locker.Inner.{Inner, unknown, encode_key}
use crossbank.Locker.Inner.Write.Effects.{effects-append}
use crossbank.Locker.Transaction.{TxMode, eager, lazy, Action, action_ops, and_then, actions_ops}
use crossbank.Locker.Transaction.View.{action_view}
use crossbank.Locker.Transaction.Lands.{
  Leaves, LandsAt, bytes_eq-encode_key, lazy-LandsAt, delete-LandsAt, eager-LandsAt,
}

module _ (i : Inner) where
  action-LandsAt :
      (b : MemoryBackend) (mode : TxMode) (key : Bytes) (a : Action) (cursor cursor' : ValueIds)
      (ops : List Op)
      → action_ops i b mode key a cursor ≡ (ok ops, cursor')
      → LandsAt i mode key (action_view (some a)) ops
  unfolding action_ops
  action-LandsAt b mode key Action.delete cursor cursor' ops h =
      delete-LandsAt i b mode key unknown ops (ap (λ w. w.0) h)
  action-LandsAt b eager key (Action.put payload) cursor cursor' ops h =
      eager-LandsAt i b key payload ops (ap (λ w. w.0) h)
  action-LandsAt b lazy key (Action.put payload) cursor cursor' ops h =
      lazy-LandsAt i b key payload unknown cursor cursor' ops h

  -- A chain that succeeds is the mutations of its two halves.
  pub and_then-ok :
      (m : Result (List Op) × ValueIds) (next : ValueIds → Result (List Op) × ValueIds)
      (ops : List Op) (cursor' : ValueIds)
      → and_then m next ≡ (ok ops, cursor')
      → (first : List Op) × (middle : ValueIds) × (more : List Op) × (m ≡ (ok first, middle))
        × (next middle ≡ (ok more, cursor'))
        × (first ++ more ≡ ops)
  unfolding and_then
  and_then-ok (panic, c) next ops cursor' h = absurd (ground (arith, ap (λ w. w.0) h))
  and_then-ok (err e, c) next ops cursor' h = absurd (ground (arith, ap (λ w. w.0) h))
  and_then-ok (ok first, c) next ops cursor' h =
      let (more, run, joined) =
        >>=-eq-ok (next c).0 (λ more. ok (first ++ more)) {y = ops} (ap (λ w. w.0) h) in
      (
        first,
        c,
        more,
        refl,
        ap (λ r. (r, (next c).1)) run ∙ ap (λ c'. (ok more, c')) (ap (λ w. w.1) h),
        ok-inj joined,
      )

  -- What a whole write-set does to the records, by the view of each key.
  abbrev LandsOn : TxMode → (Bytes → Option (Option Bytes)) → List Op → Type 0
  LandsOn mode view ops =
      ((key : Bytes) (old : Option Bytes)
        → Leaves i mode (view key) old (effects ops records (encode_key i key) old))
      × ((k : Bytes) (old : Option Bytes)
          → ((key : Bytes) → bytes_eq (encode_key i key) k ≡ false)
          → effects ops records k old ≡ old)

  pub actions_ops-LandsOn :
      (b : MemoryBackend) (mode : TxMode) (t : Tree Action) (cursor cursor' : ValueIds)
      (ops : List Op)
      → IsSorted t
      → actions_ops i b mode t cursor ≡ (ok ops, cursor')
      → LandsOn mode (λ key. action_view (Tree.get key t)) ops
  unfolding actions_ops Tree.get
  actions_ops-LandsOn b mode [] cursor cursor' ops s h =
      let none_done : [] ≡ ops = ok-inj (ap (λ w. w.0) h) in
      (
        λ key old. ap (λ o. effects o records (encode_key i key) old) (sym none_done),
        λ k old other. ap (λ o. effects o records k old) (sym none_done),
      )
  actions_ops-LandsOn b mode ((key, a) ∷ rest) cursor cursor' ops s h =
      let (first, middle, more, run, run2, joined) =
        and_then-ok (action_ops i b mode key a cursor) (actions_ops i b mode rest) ops cursor' h in
      let one = action-LandsAt b mode key a cursor middle first run in
      let others = actions_ops-LandsOn b mode rest middle cursor' more s.1 run2 in
      let whole = λ (k : Bytes) (old : Option Bytes).
        ap (λ o. effects o records k old) (sym joined) ∙ effects-append first more records k old in
      (
        λ k old.
            let k' = encode_key i k in
            elim (Bool-cases (bytes_eq key k)) [
              | inl e ↦
                  let same = (bytes_eq_iff key k).0 e in
                  let gone : Tree.get k rest ≡ none =
                    ap (λ x. Tree.get x rest) (sym same) ∙ (above_absent key rest s.0).0 in
                  let x = effects first records k' old in
                  let still : effects more records k' x ≡ x =
                    subst (λ v. Leaves i mode (action_view v) x (effects more records k' x)) gone
                      (others.0 k x) in
                  rw e (
                    subst (Leaves i mode (action_view (some a)) old) (sym (whole k' old ∙ still)) (
                      subst
                        (λ j.
                          Leaves i mode (action_view (some a)) old
                            (effects first records (encode_key i j) old))
                        same (one.0 old)))
              | inr n ↦
                  let v = action_view (Tree.get k rest) in
                  let kept = one.1 k' old (bytes_eq-encode_key i key k ∙ n) in
                  rw n (
                    subst (Leaves i mode v old) (sym (whole k' old)) (
                      subst
                        (λ x.
                          Leaves i mode v x
                            (effects more records k' (effects first records k' old)))
                        kept (others.0 k (effects first records k' old))))
            ],
        λ k old other. whole k old ∙ others.1 k _ other ∙ one.1 k old (other key),
      )
