-- ===== src/Base/Texts.antt =====
-- Text. Go's strings are native texts, compared whole; where the code walks one, it walks the
-- list of code points.
use Prim.Native.Char.{code}
use Prim.Native.Nat.{ℕ}
use Prim.Native.String
use Prim.Native.String.{String}
use mathlib.Core.Path.{◌≡◌}
use mathlib.Core.Logic.{◌↔◌, ◌≢◌, inl, inr}
use mathlib.Core.Bool.{Bool, true, false}
use mathlib.Core.List.{List, [], ◌∷◌}
use kritis.Base.Tests.{if◌then◌else◌, nat_eq, Bool-cases}
use text.Mathlib.Text.{◌==◌}
use text.Mathlib.TextEquality.{eq_iff}

abbrev pub codes : String → List ℕ
codes String.[] = []
codes (String.◌∷◌ c s) = code c ∷ codes s

abbrev pub str_eq : String → String → Bool
str_eq s t = s == t

pub str_eq_iff : (s t : String) → (str_eq s t ≡ true) ↔ (s ≡ t)
str_eq_iff s t = eq_iff s t

pub str_eq-false : (s t : String) → s ≢ t → str_eq s t ≡ false
str_eq-false s t n = elim (Bool-cases (str_eq s t)) [
  | inl e ↦ absurd (n ((str_eq_iff s t).0 e))
  | inr e ↦ e
]

infixl 65 ◌+++◌
abbrev pub ◌+++◌ : String → String → String
s +++ t = String.◌++◌ s t

-- `x` in front of the first part
abbrev pub push_front : ℕ → List (List ℕ) → List (List ℕ)
push_front x [] = (x ∷ []) ∷ []
push_front x (part ∷ parts) = (x ∷ part) ∷ parts

-- `bytes.Split` and `strings.Split`, for a separator of one character
abbrev pub split_on : ℕ → List ℕ → List (List ℕ)
split_on c [] = [] ∷ []
split_on c (x ∷ xs) =
    let parts = split_on c xs in if nat_eq x c then [] ∷ parts else push_front x parts
