-- ===== src/Allowlist.antt =====
-- pkg/kritis/util/allowlist.go: the global allowlist and the allowlists of the policies.
pub mod Patterns
pub mod Split
use kritis.Base.{
  ℕ, suc, String, ◌≡◌, Bool, true, false, ◌&&◌, Option, none, some, List, [], ◌∷◌, if◌then◌else◌,
  ltb, nat_eq, length, codes, str_eq,
}
use kritis.Base.Result.{Result, ok, err, errorf, ◌>>=◌}
use kritis.Names.{Names}

-- `constants.GlobalImageAllowlist`
abbrev pub global_image_allowlist : List String
global_image_allowlist =
    "gcr.io/kritis-project/kritis-server" ∷ "gcr.io/kritis-project/preinstall"
    ∷ "gcr.io/kritis-project/postinstall" ∷ "gcr.io/kritis-project/predelete"
    ∷ "us.gcr.io/grafeas/grafeas-server" ∷ []

-- `strings.HasPrefix(s, prefix)`
abbrev pub has_prefix : List ℕ → List ℕ → Bool
has_prefix s [] = true
has_prefix [] (c ∷ prefix) = false
has_prefix (x ∷ s) (c ∷ prefix) = nat_eq x c && has_prefix s prefix

-- `strings.LastIndex` for one character, with `none` for -1
abbrev pub last_index : ℕ → List ℕ → Option ℕ
last_index c [] = none
last_index c (x ∷ s) = elim (last_index c s) [
  | some i ↦ some (suc i)
  | none ↦ if nat_eq x c then some 0 else none
]

-- `index < bound`, which -1 passes
abbrev pub index_lt : Option ℕ → ℕ → Bool
index_lt none bound = true
index_lt (some i) bound = ltb i bound

-- `pattern[:len(pattern)-1]` and `pattern[len(pattern)-1]`, unless the pattern is empty
abbrev pub split_last : List ℕ → Option (List ℕ × ℕ)
split_last [] = none
split_last (c ∷ []) = some ([], c)
split_last (c ∷ d ∷ s) = elim (split_last (d ∷ s)) [
  | none ↦ none
  | some (body, last) ↦ some (c ∷ body, last)
]

-- The test of a pattern that ends in '*', with the stem before it.
abbrev pub stem_match : List ℕ → List ℕ → Bool
stem_match image stem = has_prefix image stem && index_lt (last_index b'/' image) (length stem)

unfoldable pub image_name_pattern_match : String → String → Result Bool
image_name_pattern_match image pattern = elim (split_last (codes pattern)) [
  | none ↦ err (errorf "empty pattern" [])
  | some (body, last) ↦
      ok (if nat_eq last b'*' then stem_match (codes image) body else str_eq image pattern)
]

-- The loops of `imageInAllowlistByReference` and `imageInAllowlistByPattern`, over the match:
-- an error ends the loop, and so does the first match.
unfoldable pub image_in_allowlist_by :
    (String → String → Result Bool) → String → List String → Result Bool
image_in_allowlist_by matches image [] = ok false
image_in_allowlist_by matches image (w ∷ allow_list) =
    let rest = image_in_allowlist_by matches image allow_list in
    matches image w >>= λ hit. if hit then ok true else rest

unfoldable pub image_in_gap_allowlist : String → List String → Result Bool
unfolding image_in_allowlist_by image_name_pattern_match
image_in_gap_allowlist image allowlist =
    image_in_allowlist_by image_name_pattern_match image allowlist

-- The error is logged, and an image with an error counts as not allowlisted.
abbrev pub or_false : Result Bool → Bool
or_false (ok b) = b
or_false (err e) = false

-- The loop of the two splits: the images that are not allowlisted, and those that are.
unfoldable pub split_allowed : (String → Result Bool) → List String → List String × List String
split_allowed check [] = ([], [])
split_allowed check (image ∷ images) =
    let (kept, removed) = split_allowed check images in
    if or_false (check image) then (kept, image ∷ removed) else (image ∷ kept, removed)

unfoldable pub split_gap_allowed_images : List String → List String → List String × List String
unfolding image_in_gap_allowlist split_allowed
split_gap_allowed_images images allowlist =
    split_allowed (λ image. image_in_gap_allowlist image allowlist) images

module _ {R : Type 0} (names : Names R) where
  unfoldable pub image_ref_match : String → String → Result Bool
  image_ref_match image pattern = do
    allow_ref ← names.parse_reference pattern
    image_ref ← names.parse_reference image
    ok (names.deep_equal allow_ref image_ref)

  unfoldable pub image_in_global_allowlist : String → Result Bool
  unfolding image_in_allowlist_by image_ref_match
  image_in_global_allowlist image =
      image_in_allowlist_by image_ref_match image global_image_allowlist

  unfoldable pub split_globally_allowed_images : List String → List String × List String
  unfolding image_in_global_allowlist split_allowed
  split_globally_allowed_images images = split_allowed image_in_global_allowlist images
