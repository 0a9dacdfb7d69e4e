-- ===== src/Codec/RoundTrip.antt =====
-- What a chain seals it opens again, and what it opens it has sealed under its own id.
use mathlib.Core.List.{reverse-append}
use mathlib.Core.Path.{fun_ext}
use crossbank.Prelude.{
  ℕ, ◌≡◌, ◌≢◌, refl, sym, ◌∙◌, true, false, List, [], ◌∷◌, ◌++◌, take, drop, length, reverse, ltb,
  ◌==◌, arith, ==_refl, if◌then◌else◌,
}
use crossbank.Error.{ok, err, schema_mismatch, ◌>>=◌, >>=-eq-ok, >>=-ok, >>=_assoc}
use crossbank.Bytes.{Bytes, bytes_eq, bytes_eq_iff}
use crossbank.Bytes.Slices.{byte_at, six_bytes}
use crossbank.Codec.Filters.{Filter}
use crossbank.Codec.Chain.{
  FilterChain, magic, version, header_len, header, forward_all, seal, reverse_all, unseal,
}

-- The documented contract of a filter, at one payload: `reverse` inverts `forward`.
abbrev pub Inverts : Filter → Bytes → Type 0
Inverts f x = (y : Bytes) → f.forward_owned x ≡ ok y → f.reverse_owned y ≡ ok x

-- The contract at every payload that the chain hands down.
abbrev pub AllInvert : List Filter → Bytes → Type 0
AllInvert [] x = Unit
AllInvert (f ∷ fs) x = Inverts f x × ((y : Bytes) → f.forward_owned x ≡ ok y → AllInvert fs y)

reverse_all-snoc :
    (fs : List Filter) (f : Filter) (x : Bytes)
    → reverse_all (fs ++ f ∷ []) x ≡ (reverse_all fs x >>= f.reverse_owned)
unfolding reverse_all
reverse_all-snoc [] f x = >>=-ok (f.reverse_owned x)
reverse_all-snoc (g ∷ fs) f x =
    rw (fun_ext (λ y. reverse_all-snoc fs f y))
      (>>=_assoc (g.reverse_owned x) (reverse_all fs) f.reverse_owned)

reverse_all-forward_all :
    (fs : List Filter) (x y : Bytes)
    → AllInvert fs x
    → forward_all fs x ≡ ok y
    → reverse_all (reverse fs) y ≡ ok x
unfolding forward_all reverse_all
reverse_all-forward_all [] x y c h = sym h
reverse_all-forward_all (f ∷ fs) x y c h =
    let (z, first, rest) = >>=-eq-ok (f.forward_owned x) (forward_all fs) {y = y} h in
    rw
      (
        reverse-append (f ∷ []) fs,
        reverse_all-snoc (reverse fs) f y,
        reverse_all-forward_all fs z y (c.1 z first) rest,
      )
      (c.0 z first)

length-header : (id : ℕ) (body : Bytes) → ltb (length (header id ++ body)) header_len ≡ false
unfolding header
length-header id body = ground arith

-- What the header says decides what opening a sealed value does.
unseal-header :
    (c : FilterChain) (id : ℕ) (body : Bytes)
    → unseal c (header id ++ body)
      ≡ (if id == c.id then reverse_all (reverse c.filters) body else err (schema_mismatch id c.id))
unfolding unseal
unseal-header c id body = rw (length-header id body) (unfold header bytes_eq in refl)

-- A value that a chain has sealed opens under that chain to the payload, where each filter inverts
-- what it was handed.
pub unseal-seal :
    (c : FilterChain) (payload stored : Bytes)
    → AllInvert c.filters payload
    → seal c payload ≡ ok stored
    → unseal c stored ≡ ok payload
unfolding seal
unseal-seal c payload stored inv h =
    let (body, run, e) =
      >>=-eq-ok (forward_all c.filters payload) (λ b. ok (header c.id ++ b)) {y = stored} h in
    let same : stored ≡ header c.id ++ body = ground arith in
    rw (same, unseal-header c c.id body, ==_refl c.id)
      (reverse_all-forward_all c.filters payload body inv run)

-- Under another chain id it is refused, with both ids.
pub unseal-seal_ne :
    (c other : FilterChain) (payload stored : Bytes)
    → c.id ≢ other.id
    → seal c payload ≡ ok stored
    → unseal other stored ≡ err (schema_mismatch c.id other.id)
unfolding seal
unseal-seal_ne c other payload stored ne h =
    let (body, run, e) =
      >>=-eq-ok (forward_all c.filters payload) (λ b. ok (header c.id ++ b)) {y = stored} h in
    let same : stored ≡ header c.id ++ body = ground arith in
    let differ : (c.id == other.id) ≡ false = ground arith in
    rw (same, unseal-header other c.id body, differ) refl

-- The bytes that a chain opens begin with its own header.
pub header_of_unseal :
    (c : FilterChain) (stored payload : Bytes)
    → unseal c stored ≡ ok payload
    → (body : Bytes) × (stored ≡ header c.id ++ body)
      × (reverse_all (reverse c.filters) body ≡ ok payload)
header_of_unseal c stored payload h =
    let long : ltb (length stored) 6 ≡ false = unfold unseal in ground arith in
    let marked : bytes_eq (take 4 stored) magic ≡ true = unfold unseal in ground arith in
    let versioned : byte_at 4 stored ≡ version = unfold unseal in ground arith in
    let owned : byte_at 5 stored ≡ c.id = unfold unseal in ground arith in
    let parts : stored ≡ magic ++ (version ∷ c.id ∷ drop 6 stored) =
      six_bytes stored long
      ∙ rw ((bytes_eq_iff (take 4 stored) magic).0 marked, versioned, owned) refl in
    (drop 6 stored, unfold header in parts, unfold unseal in ground arith)
