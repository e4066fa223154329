-- ===== src/Base/Run.antt =====
-- Loops that may not end: calls on the world with a bound on the rounds, `none` when it is used up.
use mathlib.Core.Path.{◌≡◌, refl}
use mathlib.Core.Option.{Option, none, some}
use kritis.Base.Result
use kritis.Base.Result.{Error, Result, ok, err}
use kritis.Base.Exec.{Exec}

abbrev pub Run {ℓ} : Type ℓ → Type ℓ → Type ℓ
Run W A = W → Option (Result A × W)

module _ {ℓ} {W A B : Type ℓ} where
  abbrev pub then_run : (A → Run W B) → Option (Result A × W) → Option (Result B × W)
  then_run f none = none
  then_run f (some (ok a, w)) = f a w
  then_run f (some (err e, w)) = some (err e, w)

  infixl 10 ◌>>=◌
  abbrev pub ◌>>=◌ : Run W A → (A → Run W B) → Run W B
  ◌>>=◌ m f w = then_run f (m w)

module _ {ℓ} {W A : Type ℓ} where
  -- A call that returns.
  abbrev pub call : Exec W A → Run W A
  call m w = some (m w)

  -- The bound is used up.
  abbrev pub unfinished : Run W A
  unfinished w = none

-- A run that ends with this result.
abbrev pub Returns {ℓ} : {W A : Type ℓ} → Result A → Option (Result A × W) → Type ℓ
Returns {W} r o = (w : W) × (o ≡ some (r, w))

module _ {ℓ} {W A B : Type ℓ} (f : A → Result B) where
  -- The rest of a run that returned.
  pub Returns-then :
      (r : Result A) (o : Option (Result A × W))
      → Returns r o
      → Returns (Result.◌>>=◌ r f) (then_run (λ a. call (λ w. (f a, w))) o)
  Returns-then (ok a) o (w, e) = rw e (w, refl)
  Returns-then (err x) o (w, e) = rw e (w, refl)
