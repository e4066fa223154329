-- ===== src/Allowlist/Split.antt =====
-- The splits of a list of images by an allowlist.
use kritis.Base.{
  String, ◌≡◌, refl, ap, ◌≢◌, ◌↔◌, ◌⊎◌, inl, inr, Bool, true, false, not, List, [], ◌∷◌, select,
  codes, Bool-cases, In, In-select,
}
use kritis.Base.Result.{Result, ok, err, is_ok}
use kritis.Allowlist.{
  or_false, image_name_pattern_match, split_allowed, image_in_gap_allowlist,
  split_gap_allowed_images,
}
use kritis.Allowlist.Patterns.{Matches, image_name_pattern_match_iff, image_name_pattern_match-err}

-- The two parts, each in the order of the images.
pub split_allowed_lem :
    (check : String → Result Bool) (images : List String)
    → split_allowed check images
      ≡ (select (λ i. not (or_false (check i))) images, select (λ i. or_false (check i)) images)
unfolding split_allowed
split_allowed_lem check [] = refl
split_allowed_lem check (image ∷ images) = elim (Bool-cases (or_false (check image))) [
  | inl e ↦ rw (split_allowed_lem check images, e)
  | inr e ↦ rw (split_allowed_lem check images, e)
]

-- Some pattern matches, and none before it is empty.
abbrev pub AllowedBy : String → List String → Type 0
AllowedBy image [] = ⊥
AllowedBy image (w ∷ ws) = Matches image w ⊎ ((codes w ≢ []) × AllowedBy image ws)

image_in_gap_allowlist-cons :
    (image w : String) (ws : List String) (r : Result Bool)
    → image_name_pattern_match image w ≡ r
    → (image_in_gap_allowlist image ws ≡ ok true) ↔ AllowedBy image ws
    → (image_in_gap_allowlist image (w ∷ ws) ≡ ok true) ↔ AllowedBy image (w ∷ ws)
unfolding image_in_gap_allowlist
image_in_gap_allowlist-cons image w ws (ok true) e ih =
    rw e (λ h. inl ((image_name_pattern_match_iff image w).0 e), λ h. refl)
image_in_gap_allowlist-cons image w ws (ok false) e ih = rw e (
  λ h. inr ((image_name_pattern_match-err image w).0 (rw e refl), ih.0 h),
  λ h. elim h [
    | inl m ↦ absurd (cc (e, (image_name_pattern_match_iff image w).1 m))
    | inr (_, k) ↦ ih.1 k
  ],
)
image_in_gap_allowlist-cons image w ws (err x) e ih = rw e (
  λ h. cc,
  λ h. elim h [
    | inl m ↦ absurd (cc (e, (image_name_pattern_match_iff image w).1 m))
    | inr (filled, _) ↦ absurd (cc (ap is_ok e, (image_name_pattern_match-err image w).1 filled))
  ],
)

-- The loop over the patterns allows an image exactly when some pattern matches it and no pattern
-- before that one is empty.
pub image_in_gap_allowlist_iff :
    (image : String) (allowlist : List String)
    → (image_in_gap_allowlist image allowlist ≡ ok true) ↔ AllowedBy image allowlist
image_in_gap_allowlist_iff image [] = unfold image_in_gap_allowlist in (λ h. cc, λ h. absurd h)
image_in_gap_allowlist_iff image (w ∷ ws) =
    image_in_gap_allowlist-cons image w ws (image_name_pattern_match image w) refl
      (image_in_gap_allowlist_iff image ws)

or_false_iff : (r : Result Bool) → (or_false r ≡ true) ↔ (r ≡ ok true)
or_false_iff (ok b) = (λ h. ap ok h, λ h. cc)
or_false_iff (err e) = (λ h. cc, λ h. cc)

not-true_iff : (b : Bool) → (not b ≡ true) ↔ (¬ (b ≡ true))
not-true_iff true = (λ h. cc, λ h. absurd (h refl))
not-true_iff false = (λ h e. cc, λ h. refl)

pub split_allowed-cases :
    (check : String → Result Bool) (images : List String) (i : String)
    → In i images
    → (check i ≡ ok true) ⊎ In i (split_allowed check images).0
split_allowed-cases check images i h = elim (Bool-cases (or_false (check i))) [
  | inl e ↦ inl ((or_false_iff (check i)).0 e)
  | inr e ↦ inr (rw split_allowed_lem ((In-select _ i images).1 (h, rw e refl)))
]

module _ (P : String → Type 0) (check : String → Result Bool)
    (reads : (i : String) → (check i ≡ ok true) ↔ P i) where
  pub split_allowed_iff :
      (images : List String) (i : String)
      → (In i (split_allowed check images).0 ↔ (In i images × (¬ P i)))
        × (In i (split_allowed check images).1 ↔ (In i images × P i))
  split_allowed_iff images i = rw split_allowed_lem (
    (
      λ h.
          let (k, t) = (In-select _ i images).0 h in
          (k, λ m. (not-true_iff _).0 t ((or_false_iff _).1 ((reads i).1 m))),
      λ (h, n).
          (In-select _ i images).1
            (h, (not-true_iff _).1 (λ t. n ((reads i).0 ((or_false_iff _).0 t)))),
    ),
    (
      λ h. let (k, t) = (In-select _ i images).0 h in (k, (reads i).0 ((or_false_iff _).0 t)),
      λ (h, m). (In-select _ i images).1 (h, (or_false_iff _).1 ((reads i).1 m)),
    ),
  )

-- An image is kept for review exactly when it is in the list and the policies' allowlist does not
-- allow it, and it is removed from the review exactly when it is in the list and is allowed.
pub split_gap_allowed_images_iff :
    (images allowlist : List String) (i : String)
    → (In i (split_gap_allowed_images images allowlist).0
        ↔ (In i images × (¬ AllowedBy i allowlist)))
      × (In i (split_gap_allowed_images images allowlist).1 ↔ (In i images × AllowedBy i allowlist))
unfolding split_gap_allowed_images
split_gap_allowed_images_iff images allowlist i =
    split_allowed_iff (λ i. AllowedBy i allowlist) (λ i. image_in_gap_allowlist i allowlist)
      (λ i. image_in_gap_allowlist_iff i allowlist) images i
