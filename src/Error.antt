-- ===== src/Error.antt =====
-- src/error.rs: the error type and `Result`. A message text is modelled by a constructor that names
-- the place it is formatted at, with the numbers that it prints. `panic` is a Rust panic, which is
-- no `Error`: a release build aborts there.
use crossbank.Prelude.{ℕ, ◌≡◌, refl, Bool, true, false, Option}

-- What a `Corrupt` message says.
pub data Damage : Type 0 where
  short_key : ℕ → Damage
  foreign_locker : ℕ → ℕ → Damage
  not_a_pointer : Damage
  over_limit : ℕ → Damage
  too_many_chunks : ℕ → ℕ → Damage
  bad_counter : Damage
  bad_tick_counter : Damage
  short_chunk_key : Damage
  short_value : ℕ → Damage
  no_magic : Damage
  no_lz4_prefix : Damage
  lz4_limit : ℕ → Damage
  lz4_failed : Damage
  short_crc : Damage
  crc_mismatch : ℕ → ℕ → Damage
  missing_chunk : ℕ → ℕ → Damage
  overlong_value : ℕ → ℕ → Damage
  wrong_length : ℕ → ℕ → Damage
  undecodable : Damage
  omitted_value : Damage

-- What a `Backend` message says.
pub data Failure : Type 0 where
  ids_exhausted : Failure
  ticks_exhausted : Failure
  seqs_exhausted : Failure

-- What a `Filter` message says.
pub data FilterFailure : Type 0 where
  serialisation : FilterFailure
  user_filter : ℕ → FilterFailure

pub data Error : Type 0 where
  backend : Failure → Error
  quota_exceeded : ℕ → Option ℕ → Error
  value_too_large : ℕ → ℕ → Error
  locker_too_large : ℕ → ℕ → Error
  schema_mismatch : ℕ → ℕ → Error
  corrupt : Damage → Error
  unsupported_version : ℕ → ℕ → Error
  filter : FilterFailure → Error
  invalid_config : Error
  closed : Error

pub data Result {ℓ} (A : Type ℓ) : Type ℓ where
  ok : A → Result A
  err : Error → Result A
  panic : Result A

unfoldable pub is_corruption : Error → Bool
is_corruption (corrupt d) = true
is_corruption (unsupported_version found supported) = true
is_corruption (filter f) = true
is_corruption _ = false

-- The `?` operator, with an early return of whatever is not a value, and its laws.
module _ {ℓ κ} {A : Type ℓ} {B : Type κ} where
  infixl 5 ◌>>=◌
  abbrev pub ◌>>=◌ : Result A → (A → Result B) → Result B
  panic >>= k = panic
  err why >>= k = err why
  ok value >>= k = k value

  -- A chain that succeeds has a first step that succeeds.
  pub >>=-eq-ok :
      (first : Result A) (next : A → Result B) {y : B}
      → (first >>= next) ≡ ok y
      → (x : A) × (first ≡ ok x) × (next x ≡ ok y)
  >>=-eq-ok panic next h = cc
  >>=-eq-ok (err why) next h = cc
  >>=-eq-ok (ok x) next h = (x, refl, h)

  pub >>=-cong :
      (first : Result A) (next other : A → Result B)
      → ((x : A) → next x ≡ other x)
      → (first >>= next) ≡ (first >>= other)
  >>=-cong panic next other same = refl
  >>=-cong (err why) next other same = refl
  >>=-cong (ok x) next other same = same x

pub >>=-ok {ℓ} : {A : Type ℓ} (first : Result A) → (first >>= λ x. ok x) ≡ first
>>=-ok panic = refl
>>=-ok (err why) = refl
>>=-ok (ok x) = refl

pub >>=_assoc {ℓ κ μ} :
    {A : Type ℓ} {B : Type κ} {C : Type μ} (first : Result A) (next : A → Result B)
    (last : B → Result C)
    → (first >>= (λ x. next x >>= last)) ≡ (first >>= next >>= last)
>>=_assoc panic next last = refl
>>=_assoc (err why) next last = refl
>>=_assoc (ok x) next last = refl

pub ok-inj {ℓ} : {A : Type ℓ} {a b : A} → ok a ≡ ok b → a ≡ b
ok-inj h = cc
