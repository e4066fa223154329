-- ===== src/Review/Isp/Passed.antt =====
-- The verdict of `ReviewISP`, over the worlds that its own calls lead to.
use kritis.Base.{
  String, ◌≡◌, ◌⊎◌, inl, inr, Bool, true, Option, List, [], ◌∷◌, is_empty, All, All-In, In,
}
use kritis.Base.Result.{ok, Done}
use kritis.Names.{Names}
use kritis.Resources.{ImageSecurityPolicy, AttestationAuthority, Workload}
use kritis.Metadata.{Client}
use kritis.Allowlist.{image_in_global_allowlist, split_globally_allowed_images}
use kritis.Allowlist.Split.{split_allowed-cases}
use kritis.Attest.{Libraries}
use kritis.Policy.{Violation}
use kritis.Review.{Config}
use kritis.Base.{if◌then◌else◌}
use kritis.Base.Exec.{Exec, pure}
use kritis.Review.Isp.{review_isp, review_isps}
use kritis.Review.Isp.Soundness.{IsAuthority, Passes, PolicyPasses, IspKept, review_isps-Ensures}

-- The worlds that follow `w` by the calls of a review against image security policies.
pub data Later {W K : Type 0} (config : Config W K) (client : Client W K) (w : W) : W → Type 0 where
  now : Later config client w w
  after_read :
      (v : W) (image : String) (auth : AttestationAuthority)
      → Later config client w v
      → Later config client w (client.attestations image auth v).1
  after_fetch :
      (v : W) (namespace name : String)
      → Later config client w v
      → Later config client w (config.auths namespace name v).1
  after_report :
      (v : W) (image : String) (pod : Option Workload) (attested : Bool)
      → Later config client w v
      → Later config client w (config.strategy.handle_attestation image pod attested v).1
  after_validated :
      (v : W) (isp : ImageSecurityPolicy) (image : String)
      → Later config client w v
      → Later config client w (config.validate isp image client v).1
  after_note :
      (v : W) (auth : AttestationAuthority)
      → Later config client w v
      → Later config client w (client.attestation_note auth v).1
  after_create_note :
      (v : W) (auth : AttestationAuthority)
      → Later config client w v
      → Later config client w (client.create_attestation_note auth v).1
  after_secret :
      (v : W) (namespace name : String)
      → Later config client w v
      → Later config client w (config.secret namespace name v).1
  after_occurrence :
      (v : W) (note_name image : String) (k : K) (project : String)
      → Later config client w v
      → Later config client w (client.create_attestation_occurrence note_name image k project v).1
  after_violation :
      (v : W) (image : String) (pod : Option Workload) (violations : List Violation)
      → Later config client w v
      → Later config client w (config.strategy.handle_violation image pod violations v).1

module _ {R W K : Type 0} (libs : Libraries) (names : Names R) (config : Config W K)
    (client : Client W K) (pod : Option Workload) where
  Later-IspKept : (w : W) → IspKept libs names config client (Later config client w)
  Later-IspKept w = record {
    kept = record {
      read = λ image auth v l. Later.after_read v image auth l;
      fetch = λ namespace name v l. Later.after_fetch v namespace name l;
      report = λ image workload b v l. Later.after_report v image workload b l;
    };
    validated = λ isp image v l. Later.after_validated v isp image l;
    note = λ a v l. Later.after_note v a l;
    create_note = λ a v l. Later.after_create_note v a l;
    secret = λ namespace name v l. Later.after_secret v namespace name l;
    occurrence =
        λ note_name image k project v l. Later.after_occurrence v note_name image k project l;
    violation =
        λ image workload violations v l. Later.after_violation v image workload violations l;
  }

  -- The policy lets the image pass, with the authority that it names.
  abbrev pub PassedBy : W → String → ImageSecurityPolicy → Type 0
  PassedBy w image isp =
      (auth : Option AttestationAuthority) × IsAuthority libs names config client
        (Later config client w) isp auth
      × Passes libs names config client (Later config client w) isp auth image

  In-PassedBy :
      (w : W) (image : String) (images : List String) (isps : List ImageSecurityPolicy)
      → In image images
      → All (PolicyPasses libs names config client (Later config client w) images) isps
      → All (PassedBy w image) isps
  In-PassedBy w image images [] i h = tt
  In-PassedBy w image images (isp ∷ isps) i ((auth, f, passes), hs) =
      ((auth, f, All-In _ image images passes i), In-PassedBy w image images isps i hs)

  filled-PassedBy :
      (w : W) (image : String) (images : List String) (isps : List ImageSecurityPolicy)
      → In image images
      → (review_isps libs names config client pod images isps w).0 ≡ ok tt
      → All (PassedBy w image) isps
  filled-PassedBy w image images isps i h = In-PassedBy w image images isps i (
      (review_isps-Ensures libs names config client (Later config client w) (Later-IspKept w) pod
          images isps).gives
        w tt Later.now h)

  nonempty_lem :
      (w : W) (image : String) (images : List String) (isps : List ImageSecurityPolicy)
      → In image images
      → (if◌then◌else◌ {A = Exec W Done}
          (is_empty images)
          (pure tt)
          (if is_empty isps then pure tt else review_isps libs names config client pod images isps)
          w).0
        ≡ ok tt
      → All (PassedBy w image) isps
  nonempty_lem w image [] isps i h = absurd i
  nonempty_lem w image (x ∷ xs) [] i h = tt
  nonempty_lem w image (x ∷ xs) (isp ∷ isps) i h = filled-PassedBy w image (x ∷ xs) (isp ∷ isps) i h

  -- When the review of the images returns no error, then every image is globally allowed, or every
  -- policy lets it pass: with the authority that the policy names, fetched during the review, the
  -- image is attested as read during the review, for a webhook only, or its validation against the
  -- policy during the review finds no violation and has no error.
  pub review_isp-PassedBy :
      (images : List String) (isps : List ImageSecurityPolicy) (w : W)
      → (review_isp libs names config client pod images isps w).0 ≡ ok tt
      → (image : String) → In image images
      → (image_in_global_allowlist names image ≡ ok true) ⊎ All (PassedBy w image) isps
  unfolding review_isp split_globally_allowed_images
  review_isp-PassedBy images isps w h image i =
      elim (split_allowed-cases (image_in_global_allowlist names) images image i) [
        | inl e ↦ inl e
        | inr j ↦ inr (nonempty_lem w image _ isps j h)
      ]
