-- ===== src/Locker/Lazy/Index/Opened.antt =====
-- The index of a locker that was just opened.
use crossbank.Prelude.{
  ◌≡◌, refl, ap, sym, ◌∙◌, true, false, none, some, [], ◌∷◌, arith, All, Bool-cases, inl, inr,
  if◌then◌else◌, map, ◌<◌,
}
use crossbank.Error.{Result, ok, err, panic, ok-inj}
use crossbank.Bytes.{Bytes, IsBytes, bytes_eq, bytes_eq_iff, bytes_eq-append}
use crossbank.Bytes.Number.{to_be}
use crossbank.Tree
use crossbank.Tree.{Tree, IsSorted}
use crossbank.Tree.Laws.{get-insert}
use crossbank.Backend.Api.{KeyRange, unbounded, contains, above_start, below_end}
use crossbank.Backend.Memory.{MemoryBackend, tree_of, in_direction}
use crossbank.Key.{LockerId, encode_bytes, decode_bytes}
use crossbank.Key.Laws.{IsId, encode-decode, decode-encode_self}
use crossbank.Locker.Chunk.{ValueIds}
use crossbank.Locker.Inner.{Inner}
use crossbank.Locker.Inner.Walk.{walk}
use crossbank.Locker.Inner.Walk.Records.{own_records, own_entry, visit_all, walk-visit_all}
use crossbank.Locker.Lru.Clock.{TickState}
use crossbank.Locker.Lru.State.{contains_key}
use crossbank.Locker.Resident.{KeySet, is_some}
use crossbank.Locker.Transaction.{staged_view}
use crossbank.Locker.Lazy.{collect_key, opened_with}
use crossbank.Backend.Memory.Paging.{item}
use crossbank.Locker.Lazy.Index.{IsTrue}

abbrev everything : KeyRange
everything = record { start = unbounded; finish = unbounded }

-- A key's record, among the locker's own records.
get-own_records :
    (id : LockerId) (key : Bytes) (t : Tree Bytes)
    → IsId id
    → All (λ e. IsBytes e.0) t
    → Tree.get key (own_records id everything t) ≡ Tree.get (encode_bytes id key) t
unfolding own_records Tree.get
get-own_records id key [] fits a = refl
get-own_records id key ((x, v) ∷ t) fits a =
    go (decode_bytes id x) refl (get-own_records id key t fits a.1)
  where
    foreign :
        (d : Result Bytes)
        → decode_bytes id x ≡ d
        → (ok key ≡ d → ⊥)
        → bytes_eq x (encode_bytes id key) ≡ false
    foreign d e other = elim (Bool-cases (bytes_eq x (encode_bytes id key))) [
      | inl same ↦ absurd (
          other (
            sym (decode-encode_self id key fits)
            ∙ ap (decode_bytes id) (sym ((bytes_eq_iff x (encode_bytes id key)).0 same))
            ∙ e))
      | inr n ↦ n
    ]

    go :
        (d : Result Bytes)
        → decode_bytes id x ≡ d
        → Tree.get key (own_records id everything t) ≡ Tree.get (encode_bytes id key) t
        → Tree.get key (own_entry everything d v (own_records id everything t))
          ≡ (if bytes_eq x (encode_bytes id key) then some v else Tree.get (encode_bytes id key) t)
    go (ok k) e ih =
        let same : bytes_eq x (encode_bytes id key) ≡ bytes_eq k key =
          ap (λ y. bytes_eq y (encode_bytes id key)) (encode-decode id x k a.0 e)
          ∙ unfold encode_bytes in bytes_eq-append (to_be 4 id) k key in
        let all : contains everything k ≡ true = unfold contains above_start below_end in refl in
        rw (same, all) (ap (λ g. if bytes_eq k key then some v else g) ih)
    go (err f) e ih = rw (foreign (err f) e (λ h. ground arith)) ih
    go panic e ih = rw (foreign panic e (λ h. ground arith)) ih

-- The keys that the visitor collects.
visit_all-collect_key :
    (t : Tree Bytes) (keys keys' : KeySet) (j : Bytes)
    → visit_all collect_key keys (map (item false) t) ≡ ok keys'
    → contains_key keys' j ≡ (if contains_key keys j then true else is_some (Tree.get j t))
unfolding visit_all collect_key Tree.get contains_key
visit_all-collect_key [] keys keys' j h = ap (λ t. contains_key t j) (sym (ok-inj h)) ∙ ground arith
visit_all-collect_key ((k, v) ∷ t) keys keys' j h =
    visit_all-collect_key t (Tree.insert k tt keys) keys' j h ∙ go
  where
    go : (if contains_key (Tree.insert k tt keys) j then true else is_some (Tree.get j t)) ≡ (
        if contains_key keys j
        then true
        else is_some (if bytes_eq k j then some v else Tree.get j t))
    go = elim (Bool-cases (bytes_eq k j)) [
      | inl e ↦ ground (arith, get-insert k j tt keys)
      | inr n ↦ ground (arith, get-insert k j tt keys)
    ]

-- A lazy locker that was opened without a byte budget has a true index, whatever records of its own and
-- of others its open backend holds.
pub opened-IsTrue :
    (i : Inner) (b : MemoryBackend) (values : ValueIds) (ticks : TickState) (index : KeySet)
    → b.is_closed ≡ false
    → IsSorted b.tables.records
    → All (λ e. IsBytes e.0) b.tables.records
    → IsId i.id
    → 0 < i.scan_page
    → walk collect_key i b unbounded unbounded false false [] ≡ ok index
    → IsTrue (opened_with i b values ticks index none)
unfolding staged_view tree_of contains_key in_direction Tree.get
opened-IsTrue i b values ticks index opened sorted owned fits pages h = record {
  unbudgeted = refl;
  lazily = refl;
  prompt = λ _. refl;
  keys = index;
  is_index = refl;
  tells = λ j jb.
      visit_all-collect_key (own_records i.id everything b.tables.records) [] index j (
        sym (
          walk-visit_all collect_key i b unbounded unbounded false false [] opened sorted owned fits
            pages tt tt)
        ∙ h)
      ∙ ap is_some (get-own_records i.id j b.tables.records fits owned);
  marks = λ j jb m. absurd (unmarked m);
}
  where
    unmarked : false ≡ true → ⊥
    unmarked h = ground arith
