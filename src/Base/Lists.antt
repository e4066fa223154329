-- ===== src/Base/Lists.antt =====
-- Lists: length over the native numbers, and predicates by recursion.
use Prim.Native.Nat.{ℕ, suc, ◌+◌}
use mathlib.Core.Path.{◌≡◌, refl, subst}
use mathlib.Core.Logic.{◌↔◌, ◌⊎◌, inl, inr}
use mathlib.Core.Bool.{Bool, true, false, ◌||◌, ◌&&◌}
use mathlib.Core.List.{List, [], ◌∷◌, ◌++◌}
use native.Mathlib.Omega.{arith}
use kritis.Base.Tests.{if◌then◌else◌, Bool-cases}

module _ {ℓ} {A : Type ℓ} where
  abbrev pub length : List A → ℕ
  length [] = 0
  length (x ∷ xs) = suc (length xs)

  abbrev pub is_empty : List A → Bool
  is_empty [] = true
  is_empty (x ∷ xs) = false

  -- `for _, x := range xs { if p(x) { return true } }; return false`
  abbrev pub any : (A → Bool) → List A → Bool
  any p [] = false
  any p (x ∷ xs) = p x || any p xs

  abbrev pub all : (A → Bool) → List A → Bool
  all p [] = true
  all p (x ∷ xs) = p x && all p xs

  -- The elements that pass a test, in order.
  abbrev pub select : (A → Bool) → List A → List A
  select p [] = []
  select p (x ∷ xs) = let rest = select p xs in if p x then x ∷ rest else rest

  pub is_empty-eq-nil : (xs : List A) → is_empty xs ≡ true → xs ≡ []
  is_empty-eq-nil [] h = refl
  is_empty-eq-nil (x ∷ xs) h = absurd (cc h)

  -- What is put behind a list that is not empty leaves it so.
  pub is_empty-append : (xs ys : List A) → is_empty xs ≡ false → is_empty (xs ++ ys) ≡ false
  is_empty-append [] ys h = absurd (cc h)
  is_empty-append (x ∷ xs) ys h = refl

  pub length-append : (xs ys : List A) → length (xs ++ ys) ≡ length xs + length ys
  length-append [] ys = omega arith
  length-append (x ∷ xs) ys = omega (arith, length-append xs ys)

module _ {ℓ κ} {A : Type ℓ} (P : A → Type κ) where
  abbrev pub All : List A → Type κ
  All [] = Unit
  All (x ∷ xs) = P x × All xs

  pub All-append : (xs ys : List A) → All xs → All ys → All (xs ++ ys)
  All-append [] ys h k = k
  All-append (x ∷ xs) ys (p, h) k = (p, All-append xs ys h k)

  pub All-prefix : (xs ys : List A) → All (xs ++ ys) → All xs
  All-prefix [] ys h = tt
  All-prefix (x ∷ xs) ys (p, h) = (p, All-prefix xs ys h)

  pub All-suffix : (xs ys : List A) → All (xs ++ ys) → All ys
  All-suffix [] ys h = h
  All-suffix (x ∷ xs) ys (p, h) = All-suffix xs ys h

-- Some element has the property; the position is kept, so that a proof can match on it.
abbrev pub Any {ℓ} : {A : Type ℓ} → (A → Type 0) → List A → Type 0
Any P [] = ⊥
Any P (x ∷ xs) = P x ⊎ Any P xs

abbrev pub In : {A : Type 0} → A → List A → Type 0
In a = Any (λ x. x ≡ a)

module _ {ℓ} {A : Type ℓ} (P Q : A → Type 0) (f : (x : A) → P x → Q x) where
  pub All-map : (xs : List A) → All P xs → All Q xs
  All-map [] h = tt
  All-map (x ∷ xs) (p, h) = (f x p, All-map xs h)

  pub Any-map : (xs : List A) → Any P xs → Any Q xs
  Any-map [] h = absurd h
  Any-map (x ∷ xs) (inl p) = inl (f x p)
  Any-map (x ∷ xs) (inr h) = inr (Any-map xs h)

module _ {ℓ} {A : Type ℓ} (P : A → Type 0) (p : A → Bool)
    (reads : (x : A) → (p x ≡ true) ↔ P x) where
  pub any_iff : (xs : List A) → (any p xs ≡ true) ↔ Any P xs
  any_iff [] = (λ h. cc, λ h. absurd h)
  any_iff (x ∷ xs) = grind (arith, reads x, any_iff xs)

  pub all_iff : (xs : List A) → (all p xs ≡ true) ↔ All P xs
  all_iff [] = (λ h. tt, λ h. refl)
  all_iff (x ∷ xs) = grind (arith, reads x, all_iff xs)

module _ {A : Type 0} (p : A → Bool) (a x : A) (xs : List A) where
  In-select_here :
      p x ≡ true
      → In a (select p xs) ↔ (In a xs × (p a ≡ true))
      → ((x ≡ a) ⊎ In a (select p xs)) ↔ (((x ≡ a) ⊎ In a xs) × (p a ≡ true))
  In-select_here e ih = (
    λ h. elim h [ inl q ↦ (inl q, rw q at e) | inr k ↦ (inr (ih.0 k).0, (ih.0 k).1) ],
    λ (h, t). elim h [ inl q ↦ inl q | inr k ↦ inr (ih.1 (k, t)) ],
  )

  In-select_past :
      p x ≡ false
      → In a (select p xs) ↔ (In a xs × (p a ≡ true))
      → In a (select p xs) ↔ (((x ≡ a) ⊎ In a xs) × (p a ≡ true))
  In-select_past e ih = (
    λ h. (inr (ih.0 h).0, (ih.0 h).1),
    λ (h, t). elim h [ inl q ↦ absurd (cc (q, e, t)) | inr k ↦ ih.1 (k, t) ],
  )

pub In-select :
    {A : Type 0} (p : A → Bool) (a : A) (xs : List A)
    → In a (select p xs) ↔ (In a xs × (p a ≡ true))
In-select p a [] = (λ h. absurd h, λ h. absurd h.0)
In-select p a (x ∷ xs) = elim (Bool-cases (p x)) [
  | inl e ↦ rw e (In-select_here p a x xs e (In-select p a xs))
  | inr e ↦ rw e (In-select_past p a x xs e (In-select p a xs))
]

pub All-In : {A : Type 0} (P : A → Type 0) (a : A) (xs : List A) → All P xs → In a xs → P a
All-In P a [] h i = absurd i
All-In P a (x ∷ xs) (p, h) (inl e) = subst P e p
All-In P a (x ∷ xs) (p, h) (inr i) = All-In P a xs h i
