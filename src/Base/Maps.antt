-- ===== src/Base/Maps.antt =====
-- Go maps with string keys, as association lists with one entry for each key.
use mathlib.Core.Path.{◌≡◌, refl}
use mathlib.Core.Option.{Option, none, some}
use mathlib.Core.List.{List, [], ◌∷◌}
use native.Mathlib.Omega.{arith}
use Prim.Native.String.{String}
use kritis.Base.Tests.{if◌then◌else◌}
use kritis.Base.Texts.{str_eq, str_eq_iff}

module _ {ℓ} {A : Type ℓ} where
  unfoldable pub lookup : String → List (String × A) → Option A
  lookup key [] = none
  lookup key ((name, value) ∷ rest) = if str_eq name key then some value else lookup key rest

  unfoldable pub insert : String → A → List (String × A) → List (String × A)
  insert key new [] = (key, new) ∷ []
  insert key new ((name, old) ∷ rest) =
      if str_eq name key then (key, new) ∷ rest else (name, old) ∷ insert key new rest

  unfoldable pub delete : String → List (String × A) → List (String × A)
  delete key [] = []
  delete key ((name, value) ∷ rest) =
      let others = delete key rest in if str_eq name key then others else (name, value) ∷ others

  pub lookup-nil : (key : String) → lookup key [] ≡ none
  unfolding lookup
  lookup-nil key = refl

  pub lookup-insert :
      (key other : String) (new : A) (m : List (String × A))
      → lookup other (insert key new m) ≡ (if str_eq key other then some new else lookup other m)
  unfolding insert lookup
  lookup-insert key other new [] = refl
  lookup-insert key other new ((name, old) ∷ rest) = ground (
    lookup-insert key other new rest,
    str_eq_iff name other,
    str_eq_iff name key,
    str_eq_iff key other,
    arith,
  )

  pub lookup-delete :
      (key other : String) (m : List (String × A))
      → lookup other (delete key m) ≡ (if str_eq key other then none else lookup other m)
  unfolding delete lookup
  lookup-delete key other [] = ground arith
  lookup-delete key other ((name, old) ∷ rest) = ground (
    lookup-delete key other rest,
    str_eq_iff name other,
    str_eq_iff name key,
    str_eq_iff key other,
    arith,
  )
