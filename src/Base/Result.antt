-- ===== src/Base/Result.antt =====
-- Go's `(value, error)` results. An error keeps the format string and the arguments of the
-- `fmt.Errorf`, `errors.New` or `errors.Wrap` that made it.
use Prim.Native.Nat.{ℕ}
use Prim.Native.String.{String}
use mathlib.Core.Path.{◌≡◌, refl, sym}
use mathlib.Core.Logic.{◌⊎◌, inl, inr}
use mathlib.Core.List.{List}
use mathlib.Core.Bool.{Bool, true, false}

-- The missing attestations of an image: for each policy, the authorities that did not attest.
abbrev pub Missing : Type 0
Missing = List (String × List (String × List String))

pub data Error : Type 0 where
  -- made by code outside the repository
  external : String → Error
  -- a format string with its arguments
  errorf : String → List String → Error
  -- the same, with the error that it wraps as the last argument
  wrap : String → List String → Error → Error
  -- the same, with a number as the argument
  errorf_count : String → ℕ → Error
  -- a run-time panic: the call does not return, and what handles errors does not see it
  panicked : Error
  -- the rejected images with the table of missing attestations
  rejected : List String → Missing → Error

pub data Result {ℓ} (A : Type ℓ) : Type ℓ where
  ok : A → Result A
  err : Error → Result A

-- The value of a call that returns an error only.
abbrev pub Done : Type 0
Done = Unit

module _ {ℓ κ} {A : Type ℓ} {B : Type κ} where
  infixl 10 ◌>>=◌ ◌>>◌
  -- An early return on an error.
  abbrev pub ◌>>=◌ : Result A → (A → Result B) → Result B
  err failure >>= next = err failure
  ok value >>= next = next value

  abbrev pub ◌>>◌ : Result A → Result B → Result B
  first >> second = first >>= λ _. second

  pub >>=-eq-ok :
      (m : Result A) (next : A → Result B) {b : B}
      → (m >>= next) ≡ ok b
      → (value : A) × (m ≡ ok value) × (next value ≡ ok b)
  >>=-eq-ok (err failure) next h = cc
  >>=-eq-ok (ok value) next h = (value, refl, h)

abbrev rewrap : (Error → Error) → Error → Error
rewrap f panicked = panicked
rewrap f e = f e

-- `return fmt.Errorf(…, err)` around a failing call
abbrev pub map_err {ℓ} : {A : Type ℓ} → (Error → Error) → Result A → Result A
map_err f (ok a) = ok a
map_err f (err e) = err (rewrap f e)

-- What `if err != nil` sees: the result as a value, unless the call panicked.
abbrev pub caught {ℓ} : {A : Type ℓ} → Result A → Result (Result A)
caught (ok a) = ok (ok a)
caught (err panicked) = err panicked
caught (err e) = ok (err e)

abbrev pub is_ok {ℓ} : {A : Type ℓ} → Result A → Bool
is_ok (ok a) = true
is_ok (err e) = false

abbrev pub require : Bool → Error → Result Done
require true e = ok tt
require false e = err e

pub ok-injective {ℓ} : {A : Type ℓ} {a b : A} → ok a ≡ ok b → a ≡ b
ok-injective h = cc

pub map_err-eq-ok {ℓ} :
    {A : Type ℓ} (f : Error → Error) (r : Result A) {a : A} → map_err f r ≡ ok a → r ≡ ok a
map_err-eq-ok f (ok b) h = h
map_err-eq-ok f (err e) h = absurd (cc h)

-- A returned value or a returned error, with the equation.
pub Result-cases {ℓ} :
    {A : Type ℓ} (returned : Result A)
    → ((value : A) × (returned ≡ ok value)) ⊎ ((failure : Error) × (returned ≡ err failure))
Result-cases (err failure) = inr (failure, refl)
Result-cases (ok value) = inl (value, refl)

pub caught-eq-ok {ℓ} : {A : Type ℓ} (r : Result A) {s : Result A} → caught r ≡ ok s → s ≡ r
caught-eq-ok (ok a) h = ok-injective (sym h)
caught-eq-ok (err panicked) h = cc
caught-eq-ok (err (external s)) h = ok-injective (sym h)
caught-eq-ok (err (errorf s a)) h = ok-injective (sym h)
caught-eq-ok (err (wrap s a e)) h = ok-injective (sym h)
caught-eq-ok (err (errorf_count s n)) h = ok-injective (sym h)
caught-eq-ok (err (rejected b m)) h = ok-injective (sym h)
