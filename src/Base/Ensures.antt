-- ===== src/Base/Ensures.antt =====
-- Postconditions of calls that act on the world: every call keeps a property `P` of the world, and a
-- call that returns a value ensures `Q` of the value.
use mathlib.Core.Path.{◌≡◌, refl, ◌∙◌, sym, subst}
use mathlib.Core.Bool.{Bool, true, false}
use kritis.Base.Tests.{if◌then◌else◌}
use kritis.Base.Result.{Error, Result, ok, err, caught-eq-ok, map_err-eq-ok, ok-injective}
use kritis.Base.Exec.{Exec, continue, pure, raise, lift, attempt, wrapping, closing, ◌>>=◌}

pub record Ensures {W A : Type 0} (P : W → Type 0) (Q : A → Type 0) (m : Exec W A) : Type 0 where
  pub keeps : (w : W) → P w → P (m w).1
  pub gives : (w : W) (a : A) → P w → (m w).0 ≡ ok a → Q a

module _ {W A : Type 0} {P : W → Type 0} (Q : A → Type 0) where
  pub Ensures-pure : (a : A) → Q a → Ensures P Q (pure a)
  Ensures-pure a q = record { keeps = λ w p. p; gives = λ w b p e. subst Q (ok-injective e) q }

  pub Ensures-raise : (e : Error) → Ensures P Q (raise e)
  Ensures-raise e = record { keeps = λ w p. p; gives = λ w b p h. absurd (cc h) }

  pub Ensures-lift : (r : Result A) → ((a : A) → r ≡ ok a → Q a) → Ensures P Q (lift r)
  Ensures-lift r q = record { keeps = λ w p. p; gives = λ w b p h. q b h }

  pub Ensures-wrapping :
      (f : Error → Error) (m : Exec W A) → Ensures P Q m → Ensures P Q (wrapping f m)
  Ensures-wrapping f m h = record {
    keeps = h.keeps;
    gives = λ w b p e. h.gives w b p (map_err-eq-ok f (m w).0 e);
  }

  pub Ensures-attempt :
      (m : Exec W A) → Ensures P Q m → Ensures P (λ r. (a : A) → r ≡ ok a → Q a) (attempt m)
  Ensures-attempt m h = record {
    keeps = h.keeps;
    gives = λ w r p e a s. h.gives w a p (sym (caught-eq-ok (m w).0 e) ∙ s);
  }

  pub Ensures-if :
      (b : Bool) (m n : Exec W A)
      → (b ≡ true → Ensures P Q m)
      → (b ≡ false → Ensures P Q n)
      → Ensures P Q (if b then m else n)
  Ensures-if true m n hm hn = hm refl
  Ensures-if false m n hm hn = hn refl

pub Ensures-weaken :
    {W A : Type 0} {P : W → Type 0} (Q R : A → Type 0) (m : Exec W A)
    → Ensures P Q m
    → ((a : A) → Q a → R a)
    → Ensures P R m
Ensures-weaken Q R m h f = record { keeps = h.keeps; gives = λ w a p e. f a (h.gives w a p e) }

-- The value of a caught call is not used.
pub Ensures-ignored :
    {W A : Type 0} (P : W → Type 0) (m : Exec W A)
    → ((w : W) → P w → P (m w).1)
    → Ensures P (λ r. Unit) (attempt m)
Ensures-ignored P m h = record { keeps = h; gives = λ w r p e. tt }

-- Nothing is said of the value.
pub Ensures-call :
    {W A : Type 0} {P : W → Type 0} (m : Exec W A)
    → ((w : W) → P w → P (m w).1)
    → Ensures P (λ a. Unit) m
Ensures-call m h = record { keeps = h; gives = λ w a p e. tt }

module _ {W A B : Type 0} {P : W → Type 0} (Q : A → Type 0) (R : B → Type 0) where
  continue-keeps :
      (r : Result A) (w : W) (f : A → Exec W B)
      → P w
      → ((a : A) → r ≡ ok a → Ensures P R (f a))
      → P (continue r f w).1
  continue-keeps (ok a) w f p k = (k a refl).keeps w p
  continue-keeps (err e) w f p k = p

  continue-gives :
      (r : Result A) (w : W) (f : A → Exec W B) (b : B)
      → P w
      → ((a : A) → r ≡ ok a → Ensures P R (f a))
      → (continue r f w).0 ≡ ok b
      → R b
  continue-gives (ok a) w f b p k e = (k a refl).gives w b p e
  continue-gives (err x) w f b p k e = absurd (cc e)

  pub Ensures-bind :
      (m : Exec W A) (f : A → Exec W B)
      → Ensures P Q m
      → ((a : A) → Q a → Ensures P R (f a))
      → Ensures P R (m >>= f)
  Ensures-bind m f h k = record {
    keeps = λ w p. continue-keeps (m w).0 (m w).1 f (h.keeps w p) (λ a e. k a (h.gives w a p e));
    gives = λ w b p e.
        continue-gives (m w).0 (m w).1 f b (h.keeps w p) (λ a q. k a (h.gives w a p q)) e;
  }

pub Ensures-closing :
    {W A : Type 0} {P : W → Type 0} (Q : A → Type 0) (close : W → W) (m : Exec W A)
    → ((w : W) → P w → P (close w))
    → Ensures P Q m
    → Ensures P Q (closing close m)
Ensures-closing Q close m k h = record { keeps = λ w p. k (m w).1 (h.keeps w p); gives = h.gives }
