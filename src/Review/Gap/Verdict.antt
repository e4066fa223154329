-- ===== src/Review/Gap/Verdict.antt =====
-- What a successful `ReviewGAP` proves of the images it was given.
use kritis.Base.{
  String, ◌≡◌, ◌≢◌, refl, Bool, true, false, Option, List, [], ◌∷◌, if◌then◌else◌, is_empty, All,
  Any,
}
use kritis.Base.Maps.{insert}
use kritis.Base.Result.{Missing}
use kritis.Base.Ensures.{
  Ensures, Ensures-weaken, Ensures-pure, Ensures-raise, Ensures-if, Ensures-ignored, Ensures-bind,
}
use kritis.Names.{Names}
use kritis.Resources.{GenericAttestationPolicy, AttestationAuthority, Workload}
use kritis.Metadata.{Client}
use kritis.Attest.{Libraries}
use kritis.Review.{Config}
use kritis.Review.Gap.{
  get_attestation_authorities_for_gap, check_gaps, review_images, reject_bad, images_to_review,
  review_gap,
}
use kritis.Review.Gap.Soundness.{AllFetched, Kept, GapAttests, fetch-Ensures, try-Ensures}

empty_lem : {A : Type 0} (xs : List A) → is_empty xs ≡ true → xs ≡ []
empty_lem [] e = refl
empty_lem (x ∷ xs) e = absurd (cc e)

abbrev pub NamesAuthorities : GenericAttestationPolicy → Type 0
NamesAuthorities gap = gap.attestation_authority_names ≢ []

module _ {R W K : Type 0} (libs : Libraries) (names : Names R) (config : Config W K)
    (client : Client W K) (P : W → Type 0) where
  filled_lem :
      (namespace : String) (ns : List String) (auths : List AttestationAuthority)
      → AllFetched libs names config client P namespace ns auths
      → is_empty auths ≡ false
      → ns ≢ []
  filled_lem namespace [] [] f e = absurd (cc e)
  filled_lem namespace [] (a ∷ auths) f e = absurd f
  filled_lem namespace (n ∷ ns) auths f e = λ h. cc h

  -- Some policy attests the image.
  abbrev pub AnyAttests : List GenericAttestationPolicy → String → Type 0
  AnyAttests gaps image = Any (GapAttests libs names config client P image) gaps

  module _ (kept : Kept libs names config client P) where
    check_gaps-Ensures :
        (gaps : List GenericAttestationPolicy)
        → Ensures P (λ u. All NamesAuthorities gaps) (check_gaps libs names config client gaps)
    unfolding check_gaps get_attestation_authorities_for_gap
    check_gaps-Ensures [] = Ensures-pure _ tt tt
    check_gaps-Ensures (gap ∷ gaps) =
        Ensures-bind _ _ _ _
          (fetch-Ensures libs names config client P kept gap.namespace
            gap.attestation_authority_names)
          λ auths f.
            Ensures-if _ (is_empty auths) _ _ (λ e. Ensures-raise _ _)
              (λ e.
                Ensures-weaken _ _ _ (check_gaps-Ensures gaps)
                  (λ u h. (filled_lem gap.namespace gap.attestation_authority_names auths f e, h)))

    module _ (gaps : List GenericAttestationPolicy) (pod : Option Workload) where
      kept_or_bad :
          (image : String) (images : List String) (hit : Bool) (bad : List String)
          → (hit ≡ true → AnyAttests gaps image)
          → (is_empty bad ≡ true → All (AnyAttests gaps) images)
          → is_empty (if hit then bad else image ∷ bad) ≡ true
          → AnyAttests gaps image × All (AnyAttests gaps) images
      kept_or_bad image images true bad q h e = (q refl, h e)
      kept_or_bad image images false bad q h e = absurd (cc e)

      review_images-Ensures :
          (images : List String) (missing : Missing)
          → Ensures P
              (λ r. is_empty r.0 ≡ true → All (AnyAttests gaps) images)
              (review_images libs names config client gaps pod images missing)
      unfolding review_images
      review_images-Ensures [] missing = Ensures-pure _ _ (λ e. tt)
      review_images-Ensures (image ∷ images) missing =
          Ensures-bind _ _ _ _ (try-Ensures libs names config client P kept image gaps []) λ r h.
            Ensures-bind _ _ _ _
              (Ensures-ignored P (config.strategy.handle_attestation image pod r.0)
                (kept.report image pod r.0))
              λ _ _.
                Ensures-bind _ _ _ _ (review_images-Ensures images (insert image r.1 missing))
                  λ rest k. Ensures-pure _ _ (kept_or_bad image images r.0 rest.0 h k)

      reject_bad-Ensures :
          (r : List String × Missing)
          → Ensures P (λ _. is_empty r.0 ≡ true) (reject_bad libs names config client gaps pod r)
      unfolding reject_bad
      reject_bad-Ensures (bad, missing) =
          Ensures-if _ (is_empty bad) _ _ (λ e. Ensures-pure _ tt e) (λ e. Ensures-raise _ _)

      pub review_gap-Ensures :
          (images : List String)
          → gaps ≢ []
          → Ensures P
              (λ _.
                All NamesAuthorities gaps
                × All (AnyAttests gaps) (images_to_review libs names config client gaps pod images))
              (review_gap libs names config client gaps pod images)
      unfolding review_gap
      review_gap-Ensures images some_gap =
          Ensures-if _ (is_empty gaps) _ _ (λ e. absurd (some_gap (empty_lem gaps e)))
            (λ e. Ensures-bind _ _ _ _ (check_gaps-Ensures gaps) λ _ filled.
              Ensures-bind _ _ _ _
                (review_images-Ensures (images_to_review libs names config client gaps pod images)
                  [])
                λ r h.
                  Ensures-weaken _ _ _ (reject_bad-Ensures r) λ _ none_bad. (filled, h none_bad))
