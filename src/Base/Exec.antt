-- ===== src/Base/Exec.antt =====
-- Calls that act on the world and may return an error. What was done before an error stays done,
-- so the world comes back beside the error too.
use mathlib.Core.Path.{◌≡◌}
use kritis.Base.Result.{Error, Result, ok, err, caught, map_err}

abbrev pub Exec {ℓ} : Type ℓ → Type ℓ → Type ℓ
Exec W A = W → Result A × W

module _ {ℓ} {W A B : Type ℓ} where
  abbrev pub continue : Result A → (A → Exec W B) → Exec W B
  continue (ok a) f w = f a w
  continue (err e) f w = (err e, w)

  infixl 10 ◌>>=◌ ◌>>◌
  abbrev pub ◌>>=◌ : Exec W A → (A → Exec W B) → Exec W B
  ◌>>=◌ m f w = let (r, w') = m w in continue r f w'

  abbrev pub ◌>>◌ : Exec W A → Exec W B → Exec W B
  m >> n = m >>= λ _. n

module _ {ℓ} {W A : Type ℓ} where
  abbrev pub pure : A → Exec W A
  pure a w = (ok a, w)

  abbrev pub raise : Error → Exec W A
  raise e w = (err e, w)

  abbrev pub lift : Result A → Exec W A
  lift r w = (r, w)

  -- Hands the result on as a value, so that the caller goes on whether or not it is an error.
  -- A panic passes.
  abbrev pub attempt : Exec W A → Exec W (Result A)
  attempt m w = let (r, w') = m w in (caught r, w')

  -- `if err != nil { return fmt.Errorf(…, err) }`
  abbrev pub wrapping : (Error → Error) → Exec W A → Exec W A
  wrapping f m w = let (r, w') = m w in (map_err f r, w')

  -- `defer close()`, which runs after an error and a panic too
  abbrev pub closing : (W → W) → Exec W A → Exec W A
  closing close m w = let (r, w') = m w in (r, close w')

  -- `m` returns `r` whatever the world is.
  abbrev pub Yields : Exec W A → Result A → Type ℓ
  Yields m r = (w : W) → (m w).0 ≡ r
