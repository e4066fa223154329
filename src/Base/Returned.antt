-- ===== src/Base/Returned.antt =====
-- What came before a call that returned a value.
use mathlib.Core.Path.{◌≡◌, refl}
use mathlib.Core.Option.{Option, none, some}
use kritis.Base.Run.{Run, then_run}
use kritis.Base.Result.{Error, Result, ok, err}
use kritis.Base.Exec.{Exec, continue, wrapping, ◌>>=◌}

pub some-injective : {A : Type 0} {a b : A} → some a ≡ some b → a ≡ b
some-injective h = cc

module _ {W A B : Type 0} (f : A → Exec W B) (b : B) (w' : W) where
  continued-ok :
      (r : Result A) (w : W)
      → continue r f w ≡ (ok b, w')
      → (a : A) × (r ≡ ok a) × (f a w ≡ (ok b, w'))
  continued-ok (ok a) w h = (a, refl, h)
  continued-ok (err e) w h = absurd (cc h)

  -- Both calls returned a value.
  pub bound-ok :
      (m : Exec W A) (w : W)
      → (m >>= f) w ≡ (ok b, w')
      → (a : A) × ((m w).0 ≡ ok a) × (f a (m w).1 ≡ (ok b, w'))
  bound-ok m w h = continued-ok (m w).0 (m w).1 h

module _ {W A : Type 0} (f : Error → Error) (a : A) (w' : W) where
  rewrapped-ok : (p : Result A × W) → wrapping f (λ w. p) p.1 ≡ (ok a, w') → p ≡ (ok a, w')
  rewrapped-ok (ok b, w) h = h
  rewrapped-ok (err e, w) h = absurd (cc h)

  pub wrapped-ok : (m : Exec W A) (w : W) → wrapping f m w ≡ (ok a, w') → m w ≡ (ok a, w')
  wrapped-ok m w h = rewrapped-ok (m w) h

module _ {W A B : Type 0} (f : A → Run W B) (b : B) (w' : W) where
  -- Both parts of a run returned a value.
  pub then_run-ok :
      (o : Option (Result A × W))
      → then_run f o ≡ some (ok b, w')
      → (a : A) × (v : W) × (o ≡ some (ok a, v)) × (f a v ≡ some (ok b, w'))
  then_run-ok none h = absurd (cc h)
  then_run-ok (some (ok a, v)) h = (a, v, refl, h)
  then_run-ok (some (err e, v)) h = absurd (cc h)
