-- ===== src/Base/Split.antt =====
-- `strings.Split` and `strings.Join` with a separator of one character.
use Prim.Native.Char.{Char, code}
use Prim.Native.Nat.{ℕ, suc}
use Prim.Native.String.{String}
use mathlib.Core.Path.{◌≡◌, refl, ap, ◌∙◌, subst}
use mathlib.Core.Logic.{◌≢◌, inl, inr}
use mathlib.Core.Bool.{Bool, true, false, ◌&&◌}
use mathlib.Core.List.{List, [], ◌∷◌}
use native.Mathlib.Omega.{arith}
use text.Mathlib.TextEquality.{Char-path}
use kritis.Base.Tests.{if◌then◌else◌, nat_eq, nat_eq_iff, Bool-cases}
use kritis.Base.Lists.{All}

-- The text in front of the first part.
abbrev pub prepend : Char → List String → List String
prepend c [] = String.◌∷◌ c String.[] ∷ []
prepend c (part ∷ parts) = String.◌∷◌ c part ∷ parts

abbrev pub glue : String → String → String
glue String.[] t = t
glue (String.◌∷◌ c s) t = String.◌∷◌ c (glue s t)

-- The second text begins with the first.
abbrev pub begins : String → String → Bool
begins String.[] s = true
begins (String.◌∷◌ c sep) String.[] = false
begins (String.◌∷◌ c sep) (String.◌∷◌ d s) = nat_eq (code c) (code d) && begins sep s

abbrev pub text_length : String → ℕ
text_length String.[] = 0
text_length (String.◌∷◌ c s) = suc (text_length s)

module _ (sep : Char) where
  unfoldable pub split : String → List String
  split String.[] = String.[] ∷ []
  split (String.◌∷◌ c s) =
      let parts = split s in
      if nat_eq (code c) (code sep) then String.[] ∷ parts else prepend c parts

  unfoldable pub join : List String → String
  join [] = String.[]
  join (part ∷ []) = part
  join (part ∷ next ∷ parts) = glue part (String.◌∷◌ sep (join (next ∷ parts)))

  -- The separator is not in the text.
  abbrev pub Lacks : String → Type 0
  Lacks String.[] = Unit
  Lacks (String.◌∷◌ c s) = (code c ≢ code sep) × Lacks s

  same_char : (c : Char) → nat_eq (code c) (code sep) ≡ true → c ≡ sep
  same_char c e = Char-path c sep ((nat_eq_iff (code c) (code sep)).0 e)

  other_char : (c : Char) → nat_eq (code c) (code sep) ≡ false → code c ≢ code sep
  other_char c e q = cc (e, (nat_eq_iff (code c) (code sep)).1 q)

  not_same : (c : Char) → code c ≢ code sep → nat_eq (code c) (code sep) ≡ false
  not_same c n = elim (Bool-cases (nat_eq (code c) (code sep))) [
    | inl e ↦ absurd (n ((nat_eq_iff (code c) (code sep)).0 e))
    | inr e ↦ e
  ]

  split-ne-nil : (s : String) → split s ≢ []
  unfolding split
  split-ne-nil String.[] h = cc
  split-ne-nil (String.◌∷◌ c s) h = ground arith

  prepend-Lacks :
      (c : Char) (parts : List String)
      → code c ≢ code sep
      → All Lacks parts
      → All Lacks (prepend c parts)
  prepend-Lacks c [] n h = ((n, tt), tt)
  prepend-Lacks c (p ∷ ps) n (h, hs) = ((n, h), hs)

  pub split-Lacks : (s : String) → All Lacks (split s)
  unfolding split
  split-Lacks String.[] = (tt, tt)
  split-Lacks (String.◌∷◌ c s) = elim (Bool-cases (nat_eq (code c) (code sep))) [
    | inl e ↦ rw e (tt, split-Lacks s)
    | inr e ↦ rw e (prepend-Lacks c (split s) (other_char c e) (split-Lacks s))
  ]

  join-cons_empty :
      (parts : List String) → parts ≢ [] → join (String.[] ∷ parts) ≡ String.◌∷◌ sep (join parts)
  unfolding join
  join-cons_empty [] n = absurd (n refl)
  join-cons_empty (p ∷ ps) n = refl

  join-prepend :
      (c : Char) (parts : List String) → join (prepend c parts) ≡ String.◌∷◌ c (join parts)
  unfolding join
  join-prepend c [] = refl
  join-prepend c (p ∷ []) = refl
  join-prepend c (p ∷ q ∷ ps) = refl

  -- What was split is joined back.
  pub join-split : (s : String) → join (split s) ≡ s
  unfolding split join
  join-split String.[] = refl
  join-split (String.◌∷◌ c s) = elim (Bool-cases (nat_eq (code c) (code sep))) [
    | inl e ↦
        rw (e, split)
          (join-cons_empty (split s) (split-ne-nil s) ∙ (rw (join-split s, same_char c e) refl))
    | inr e ↦ rw (e, split) (join-prepend c (split s) ∙ ap (λ t. String.◌∷◌ c t) (join-split s))
  ]

  split-glue :
      (p : String) (rest : String) → Lacks p → split (glue p (String.◌∷◌ sep rest)) ≡ p ∷ split rest
  unfolding split
  split-glue String.[] rest h = rw ((nat_eq_iff (code sep) (code sep)).1 refl) refl
  split-glue (String.◌∷◌ c p) rest (n, h) = rw (not_same c n, split-glue p rest h) refl

  split_lacking : (p : String) → Lacks p → split p ≡ p ∷ []
  unfolding split
  split_lacking String.[] h = refl
  split_lacking (String.◌∷◌ c p) (n, h) = rw (not_same c n, split_lacking p h) refl

  -- Parts without the separator come back from their join.
  pub split-join :
      (p : String) (parts : List String)
      → Lacks p
      → All Lacks parts
      → split (join (p ∷ parts)) ≡ p ∷ parts
  unfolding join
  split-join p [] h hs = split_lacking p h
  split-join p (q ∷ qs) h (k, hs) =
      (split-glue p (join (q ∷ qs)) h ∙ ap (λ ps. p ∷ ps) (split-join q qs k hs))

  -- A text that is its own only part.
  pub unsplit-Lacks : (s : String) → split s ≡ s ∷ [] → Lacks s
  unsplit-Lacks s e = (subst (All Lacks) e (split-Lacks s)).0
