-- ===== src/Locker/Inner/Write/Effects.antt =====
-- What the mutations of a put leave under a key.
use crossbank.Prelude.{
  ◌≡◌, refl, ap, sym, ◌∙◌, false, Option, none, some, List, [], ◌∷◌, ◌++◌, arith, Bool-cases, inl,
  inr,
}
use crossbank.Error.{ok, ok-inj}
use crossbank.Bytes.{Bytes, bytes_eq_refl}
use crossbank.Backend.Api.{Table, records, chunks, Op, put}
use crossbank.Backend.Memory.{MemoryBackend, commit}
use crossbank.Backend.Memory.Refines.{effects, value_at, value_at-apply_all}
use crossbank.Locker.Chunk.{ValueIds, counter_op, counter_op_for}
use crossbank.Locker.Inner.Write.{to_list}

pub effects-append :
    (xs ys : List Op) (t : Table) (k : Bytes) (old : Option Bytes)
    → effects (xs ++ ys) t k old ≡ effects ys t k (effects xs t k old)
effects-append [] ys t k old = refl
effects-append (x ∷ xs) ys t k old = effects-append xs ys t k _

-- A record that is put, with nothing after it that touches records.
pub effects-put :
    (xs ys : List Op) (k v : Bytes) (old : Option Bytes)
    → ((w : Option Bytes) → effects ys records k w ≡ w)
    → effects (xs ++ (put records k v ∷ ys)) records k old ≡ some v
effects-put xs ys k v old kept =
    effects-append xs (put records k v ∷ ys) records k old ∙ kept _ ∙ rw (bytes_eq_refl k) refl

-- A commit that succeeds found the backend open and leaves it open.
pub commit-ok :
    (b b' : MemoryBackend) (ops : List Op)
    → commit b ops ≡ ok b'
    → (b'.is_closed ≡ false)
      × ((t : Table) (k : Bytes) → value_at b'.tables t k ≡ effects ops t k (value_at b.tables t k))
unfolding commit
commit-ok b b' ops h = elim (Bool-cases b.is_closed) [
  | inl e ↦ absurd (ground arith)
  | inr e ↦
      let same = ok-inj (rw e at h) in
      (
        ap (λ m. m.is_closed) (sym same),
        λ t k. ap (λ m. value_at m.tables t k) (sym same) ∙ value_at-apply_all b.tables ops t k,
      )
]

-- The counter lies in `meta`: the records and the chunks keep what they hold.
pub counter-elsewhere :
    (cursor : ValueIds) (k : Bytes) (old : Option Bytes)
    → (effects (to_list (counter_op cursor)) records k old ≡ old)
      × (effects (to_list (counter_op cursor)) chunks k old ≡ old)
unfolding counter_op counter_op_for
counter-elsewhere none k old = (refl, refl)
counter-elsewhere (some n) k old = (refl, refl)
