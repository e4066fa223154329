-- ===== src/Allowlist/Patterns.antt =====
-- Name patterns: what `image_name_pattern_match` accepts, as a relation on texts.
use kritis.Base.{
  ℕ, String, ◌≡◌, ◌≢◌, refl, ap, ◌↔◌, ◌⊎◌, inl, inr, Bool, true, Option, none, some, List, [], ◌∷◌,
  ◌++◌, arith, if◌then◌else◌, nat_eq, nat_eq_iff, Bool-cases, Option-cases, All, codes, str_eq,
  str_eq_iff,
}
use kritis.Base.Result.{ok, is_ok}
use kritis.Allowlist.{last_index, index_lt, split_last, stem_match, image_name_pattern_match}

abbrev pub NoSlash : List ℕ → Type 0
NoSlash = All (λ c. c ≢ b'/')

-- The stem, and a rest that stays within the last path component.
abbrev pub StemMatches : List ℕ → List ℕ → Type 0
StemMatches image stem = (rest : List ℕ) × (image ≡ stem ++ rest) × NoSlash rest

abbrev pub EndsInStar : String → List ℕ → Type 0
EndsInStar pattern stem = codes pattern ≡ stem ++ b'*' ∷ []

-- What an allowlist pattern stands for.
abbrev pub Matches : String → String → Type 0
Matches image pattern =
    ((stem : List ℕ) × EndsInStar pattern stem × StemMatches (codes image) stem)
    ⊎ (((stem : List ℕ) → ¬ EndsInStar pattern stem) × (image ≡ pattern) × (codes pattern ≢ []))

split_last-append : (s : List ℕ) (c : ℕ) → split_last (s ++ c ∷ []) ≡ some (s, c)
split_last-append [] c = refl
split_last-append (x ∷ []) c = refl
split_last-append (x ∷ y ∷ s) c = ground (arith, split_last-append (y ∷ s) c)

split_last-eq-some : (s body : List ℕ) (c : ℕ) → split_last s ≡ some (body, c) → s ≡ body ++ c ∷ []
split_last-eq-some [] body c h = cc
split_last-eq-some (x ∷ []) body c h = ground arith
split_last-eq-some (x ∷ y ∷ s) body c h = elim (Option-cases (split_last (y ∷ s))) [
  | inl e ↦ ground arith
  | inr ((body', last), e) ↦ ground (arith, split_last-eq-some (y ∷ s) body' last e)
]

split_last-eq-none : (s : List ℕ) → split_last s ≡ none → s ≡ []
split_last-eq-none [] h = refl
split_last-eq-none (x ∷ []) h = cc
split_last-eq-none (x ∷ y ∷ s) h = ground (arith, split_last-eq-none (y ∷ s))

last_index-eq-none : (c : ℕ) (s : List ℕ) → (last_index c s ≡ none) ↔ All (λ x. x ≢ c) s
last_index-eq-none c [] = (λ h. tt, λ h. refl)
last_index-eq-none c (x ∷ s) = ground (arith, last_index-eq-none c s, nat_eq_iff x c)

index_lt-zero : (o : Option ℕ) → index_lt o 0 ≡ true → o ≡ none
index_lt-zero none h = refl
index_lt-zero (some i) h = absurd (ground arith)

stem_match_sound : (image stem : List ℕ) → stem_match image stem ≡ true → StemMatches image stem
stem_match_sound image [] h =
    (image, refl, (last_index-eq-none b'/' image).0 (index_lt-zero (last_index b'/' image) h))
stem_match_sound [] (c ∷ stem) h = cc
stem_match_sound (x ∷ image) (c ∷ stem) h =
    let below : stem_match image stem ≡ true = ground arith in
    let same : x ≡ c = ground arith in
    let (rest, e, free) = stem_match_sound image stem below in (rest, cc, free)

stem_match_complete : (stem rest : List ℕ) → NoSlash rest → stem_match (stem ++ rest) stem ≡ true
stem_match_complete [] rest free = rw ((last_index-eq-none b'/' rest).1 free)
stem_match_complete (c ∷ stem) rest free = ground (arith, stem_match_complete stem rest free)

stem_match_iff : (image stem : List ℕ) → (stem_match image stem ≡ true) ↔ StemMatches image stem
stem_match_iff image stem =
    (stem_match_sound image stem, λ (rest, e, free). rw e (stem_match_complete stem rest free))

module _ (image pattern : String) where
  match_empty :
      split_last (codes pattern) ≡ none → ¬ (image_name_pattern_match image pattern ≡ ok true)
  unfolding image_name_pattern_match
  match_empty e h = cc (rw (e, image_name_pattern_match) at h)

  match_value :
      (body : List ℕ) (last : ℕ)
      → split_last (codes pattern) ≡ some (body, last)
      → image_name_pattern_match image pattern
        ≡ ok (if nat_eq last b'*' then stem_match (codes image) body else str_eq image pattern)
  unfolding image_name_pattern_match
  match_value body last e = rw (e, image_name_pattern_match)

  star_is_last :
      (stem body : List ℕ) (last : ℕ)
      → EndsInStar pattern stem
      → split_last (codes pattern) ≡ some (body, last)
      → (body ≡ stem) × (last ≡ b'*')
  star_is_last stem body last ends e =
      ground (arith, split_last-append stem b'*', ap split_last ends)

  Matches-star :
      (body : List ℕ)
      → split_last (codes pattern) ≡ some (body, b'*')
      → (stem_match (codes image) body ≡ true) ↔ Matches image pattern
  Matches-star body e = (
    λ h. inl (body, split_last-eq-some (codes pattern) body b'*' e, stem_match_sound _ _ h),
    λ m. elim m [
      | inl (stem, ends, sm) ↦
          rw (star_is_last stem body b'*' ends e).0 ((stem_match_iff (codes image) stem).1 sm)
      | inr (no_star, _, _) ↦ absurd (no_star body (split_last-eq-some (codes pattern) body b'*' e))
    ],
  )

  Matches-exact :
      (body : List ℕ) (last : ℕ)
      → split_last (codes pattern) ≡ some (body, last)
      → last ≢ b'*'
      → (str_eq image pattern ≡ true) ↔ Matches image pattern
  Matches-exact body last e other = (
    λ h. inr (
      (λ stem ends. other (star_is_last stem body last ends e).1),
      (str_eq_iff image pattern).0 h,
      λ nil. cc (ap split_last nil),
    ),
    λ m. elim m [
      | inl (stem, ends, _) ↦ absurd (other (star_is_last stem body last ends e).1)
      | inr (_, same, _) ↦ (str_eq_iff image pattern).1 same
    ],
  )

  not-Matches-empty : split_last (codes pattern) ≡ none → ¬ Matches image pattern
  not-Matches-empty e (inl (stem, ends, _)) =
      cc (e, split_last-append stem b'*', ap split_last ends)
  not-Matches-empty e (inr (_, _, filled)) = filled (split_last-eq-none (codes pattern) e)

ok_iff : {b : Bool} {P : Type 0} → (b ≡ true) ↔ P → (ok b ≡ ok true) ↔ P
ok_iff {b} h = (λ e. h.0 (cc), λ p. ap ok (h.1 p))

-- A name pattern accepts an image exactly when the pattern is not empty, does not end in '*' and is
-- the image, or is a stem and '*', and the image is the stem and a rest without a slash.
pub image_name_pattern_match_iff :
    (image pattern : String)
    → (image_name_pattern_match image pattern ≡ ok true) ↔ Matches image pattern
image_name_pattern_match_iff image pattern = elim (Option-cases (split_last (codes pattern))) [
  | inl e ↦ (
    λ h. absurd (match_empty image pattern e h),
    λ m. absurd (not-Matches-empty image pattern e m),
  )
  | inr ((body, last), e) ↦
      rw (match_value image pattern body last e) (elim (Bool-cases (nat_eq last b'*')) [
        | inl star ↦
            let is_star : last ≡ b'*' = (nat_eq_iff last b'*').0 star in
            rw star (ok_iff (Matches-star image pattern body (rw is_star at e)))
        | inr other ↦
            let no_star : last ≢ b'*' = λ q. cc (other, (nat_eq_iff last b'*').1 q) in
            rw other (ok_iff (Matches-exact image pattern body last e no_star))
      ])
]

-- Only the empty pattern is an error.
pub image_name_pattern_match-err :
    (image pattern : String)
    → (is_ok (image_name_pattern_match image pattern) ≡ true) ↔ (codes pattern ≢ [])
unfolding image_name_pattern_match
image_name_pattern_match-err image pattern = elim (Option-cases (split_last (codes pattern))) [
  | inl e ↦
      rw (e, image_name_pattern_match)
        (λ h. cc, λ h. absurd (h (split_last-eq-none (codes pattern) e)))
  | inr ((body, last), e) ↦
      rw (match_value image pattern body last e) (λ h nil. cc (e, ap split_last nil), λ h. refl)
]
