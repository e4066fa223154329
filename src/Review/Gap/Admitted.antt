-- ===== src/Review/Gap/Admitted.antt =====
-- The verdict of `ReviewGAP`, over the worlds that its own calls lead to.
use kritis.Base.{String, ◌≡◌, ◌≢◌, ◌⊎◌, inl, inr, Bool, true, Option, List, [], All, All-In, In}
use kritis.Base.Result.{ok}
use kritis.Names.{Names}
use kritis.Resources.{GenericAttestationPolicy, AttestationAuthority, Workload}
use kritis.Metadata.{Client}
use kritis.Allowlist.{
  image_in_global_allowlist, split_globally_allowed_images, image_in_gap_allowlist,
  split_gap_allowed_images,
}
use kritis.Allowlist.Split.{AllowedBy, image_in_gap_allowlist_iff, split_allowed-cases}
use kritis.Attest.{Libraries}
use kritis.Review.{Config}
use kritis.Review.Gap.{generate_gap_allowlist, images_to_review, review_gap}
use kritis.Review.Gap.Soundness.{Kept}
use kritis.Review.Gap.Verdict.{NamesAuthorities, AnyAttests, review_gap-Ensures}

-- The worlds that follow `w` by the calls of a review: reads of attestations, reads of
-- authorities, and the reports to the strategy.
pub data Later {W K : Type 0} (config : Config W K) (client : Client W K) (w : W) : W → Type 0 where
  now : Later config client w w
  after_read :
      (v : W) (image : String) (auth : AttestationAuthority)
      → Later config client w v
      → Later config client w (client.attestations image auth v).1
  after_fetch :
      (v : W) (namespace name : String)
      → Later config client w v
      → Later config client w (config.auths namespace name v).1
  after_report :
      (v : W) (image : String) (pod : Option Workload) (attested : Bool)
      → Later config client w v
      → Later config client w (config.strategy.handle_attestation image pod attested v).1

module _ {R W K : Type 0} (libs : Libraries) (names : Names R) (config : Config W K)
    (client : Client W K) (gaps : List GenericAttestationPolicy) (pod : Option Workload) where
  Later-Kept : (w : W) → Kept libs names config client (Later config client w)
  Later-Kept w = record {
    read = λ image auth v l. Later.after_read v image auth l;
    fetch = λ namespace name v l. Later.after_fetch v namespace name l;
    report = λ image workload b v l. Later.after_report v image workload b l;
  }

  -- Why a review lets an image pass.
  abbrev pub Admitted : W → String → Type 0
  Admitted w image =
      (image_in_global_allowlist names image ≡ ok true)
      ⊎ AllowedBy image (generate_gap_allowlist gaps)
      ⊎ AnyAttests libs names config client (Later config client w) gaps image

  images_to_review-cases :
      (images : List String) (image : String)
      → In image images
      → (image_in_global_allowlist names image ≡ ok true)
        ⊎ AllowedBy image (generate_gap_allowlist gaps)
        ⊎ In image (images_to_review libs names config client gaps pod images)
  unfolding images_to_review split_gap_allowed_images split_globally_allowed_images
  images_to_review-cases images image i =
      elim (split_allowed-cases (image_in_global_allowlist names) images image i) [
        | inl e ↦ inl e
        | inr j ↦
            elim (split_allowed-cases (λ k. image_in_gap_allowlist k (generate_gap_allowlist gaps))
              _ image j) [
                | inl e ↦
                    inr (inl ((image_in_gap_allowlist_iff image (generate_gap_allowlist gaps)).0 e))
                | inr k ↦ inr (inr k)
              ]
      ]

  -- When there are policies and the review of the images returns no error, then every policy names
  -- an attestation authority, and every image is globally allowed, or is allowed by the
  -- policies' patterns, or has a policy each of whose authorities, as fetched during the review,
  -- attests the image, as its attestations are read during the review.
  pub review_gap-Admitted :
      (images : List String) (w : W)
      → gaps ≢ []
      → (review_gap libs names config client gaps pod images w).0 ≡ ok tt
      → All NamesAuthorities gaps × ((image : String) → In image images → Admitted w image)
  review_gap-Admitted images w some_gap h =
      let (filled, attested) =
        (review_gap-Ensures libs names config client (Later config client w) (Later-Kept w) gaps pod
            images some_gap).gives
          w tt Later.now h in
      (
        filled,
        λ image i. elim (images_to_review-cases images image i) [
          | inl e ↦ inl e
          | inr (inl a) ↦ inr (inl a)
          | inr (inr j) ↦ inr (inr (All-In _ image _ attested j))
        ],
      )
