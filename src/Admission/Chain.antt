-- ===== src/Admission/Chain.antt =====
-- The webhook with the reviewer that `getReviewer` makes: from an allowing response to the signatures
-- and the vulnerabilities.
use kritis.Base.{ℕ, String, ◌≡◌, refl, subst, ◌⊎◌, inl, inr, true, Option, List, [], ◌∷◌, All, In}
use kritis.Base.Result.{ok}
use kritis.Base.Exec.{Exec}
use kritis.Names.{Names}
use kritis.Resources.{GenericAttestationPolicy, ImageSecurityPolicy, AttestationAuthority, Workload}
use kritis.Metadata.{Client}
use kritis.Allowlist.{image_in_global_allowlist}
use kritis.Attest.{Libraries}
use kritis.Review.Gap.Verdict.{NamesAuthorities}
use kritis.Review.Gap.Admitted.{Admitted, review_gap-Admitted}
use kritis.Review.Isp.Passed.{PassedBy, review_isp-PassedBy}
use kritis.Admission.{Kind, workload_images, check_breakglass}
use kritis.Admission.Review.{Response, Reviewer, AdmissionConfig, reviewed_pod, review_workload}
use kritis.Admission.Handler.{reviewer_config, get_reviewer}
use kritis.Admission.Closed.{Gave, GapsApprove, IspsApprove}
use kritis.Admission.Reviewed.{Owned, review_workload-Ensures}
use kritis.Admission.Webhook.{Reached, Reached-AdmissionKept}

module _ {R W K : Type 0} (libs : Libraries) (names : Names R) (severity_value : String → Option ℕ)
    (secret : String → String → Exec W K) (auths : String → String → Exec W AttestationAuthority)
    (config : AdmissionConfig W K) (w : W) (images : List String) (ns : String)
    (reviewed : Option Workload) where
  -- The generic attestation policies that were fetched are none, or each names an authority and,
  -- with a read-only client that the webhook fetched and in a world of the run, each image is admitted.
  abbrev pub GapsHold : Type 0
  GapsHold =
      (gaps : List GenericAttestationPolicy) × ((v : W) × Reached config w v
        × ((config.fetch_generic_attestation_policies ns v).0 ≡ ok gaps))
      × ((gaps ≡ [])
          ⊎ ((client : Client W K) × Gave config (Reached config w)
                config.fetch_metadata_read_only_client client
              × (v : W) × Reached config w v
              × All NamesAuthorities gaps
              × ((image : String)
                  → In image images
                  → Admitted libs names (reviewer_config libs names severity_value secret auths)
                      client gaps reviewed v image)))

  -- The image security policies that were fetched are none, or with a client that the webhook fetched
  -- and in a world of the run, each image is globally allowed or is passed by all of them.
  abbrev pub IspsHold : Type 0
  IspsHold =
      (isps : List ImageSecurityPolicy) × ((v : W) × Reached config w v
        × ((config.fetch_image_security_policies ns v).0 ≡ ok isps))
      × ((isps ≡ [])
          ⊎ ((client : Client W K) × Gave config (Reached config w) config.fetch_metadata_client
                client
              × (v : W) × Reached config w v
              × ((image : String)
                  → In image images
                  → (image_in_global_allowlist names image ≡ ok true)
                    ⊎ All
                        (PassedBy libs names
                          (reviewer_config libs names severity_value secret auths) client reviewed v
                          image)
                        isps)))

  module _ (real : config.reviewer ≡ get_reviewer libs names severity_value secret auths) where
    gaps_hold : GapsApprove config (Reached config w) images ns reviewed → GapsHold
    unfolding get_reviewer
    gaps_hold (gaps, f, inl e) = (gaps, f, inl e)
    gaps_hold ([], f, inr approved) = ([], f, inl refl)
    gaps_hold (gap ∷ gaps, f, inr (client, gave, v, r, h)) =
        let (filled, admitted) =
          review_gap-Admitted libs names (reviewer_config libs names severity_value secret auths)
            client (gap ∷ gaps) reviewed images v (λ e. cc e)
            (subst
              (λ (x : Reviewer W K). (x.review_gap images (gap ∷ gaps) reviewed client v).0 ≡ ok tt)
              real h) in
        (gap ∷ gaps, f, inr (client, gave, v, r, filled, admitted))

    isps_hold : IspsApprove config (Reached config w) images ns reviewed → IspsHold
    unfolding get_reviewer
    isps_hold (isps, f, inl e) = (isps, f, inl e)
    isps_hold (isps, f, inr (client, gave, v, r, h)) = (
      isps,
      f,
      inr (
        client,
        gave,
        v,
        r,
        review_isp-PassedBy libs names (reviewer_config libs names severity_value secret auths)
            client reviewed images isps v
            (subst (λ (x : Reviewer W K). (x.review_isp images isps reviewed client v).0 ≡ ok tt)
              real h),
      ),
    )

-- With the reviewer that `getReviewer` makes, when the response for an object allows, the object is
-- covered by all its owners, or has the breakglass annotation, or both hold: the generic
-- attestation policies of its namespace, as fetched in the run, are none or admit every image by an
-- allowlist or by attested authorities, with a read-only client that the webhook fetched, and its image
-- security policies are none or pass every image, with a client that it fetched.
pub review_workload_sound :
    {R W K : Type 0} (libs : Libraries) (names : Names R) (severity_value : String → Option ℕ)
    (secret : String → String → Exec W K) (auths : String → String → Exec W AttestationAuthority)
    (config : AdmissionConfig W K) (kind : Kind) (workload : Workload) (ar ar' : Response) (w : W)
    → config.reviewer ≡ get_reviewer libs names severity_value secret auths
    → (review_workload names config kind workload ar w).0 ≡ ok ar'
    → ar'.allowed ≡ true
    → Owned names config (Reached config w) (workload_images workload) workload.meta
      ⊎ (check_breakglass workload.meta ≡ true)
      ⊎ (GapsHold libs names severity_value secret auths config w
            (workload_images workload)
            workload.meta.namespace
            (reviewed_pod kind workload)
          × IspsHold libs names severity_value secret auths config w
              (workload_images workload)
              workload.meta.namespace
              (reviewed_pod kind workload))
review_workload_sound libs names severity_value secret auths config kind workload ar ar' w real h
      allowed =
    elim ((review_workload-Ensures names config (Reached config w) (Reached-AdmissionKept config w)
        kind workload ar).gives
      w ar' Reached.now h allowed) [
        | inl owned ↦ inl owned
        | inr (inl breakglass) ↦ inr (inl breakglass)
        | inr (inr (gaps, isps)) ↦ inr (
            inr (
              gaps_hold libs names severity_value secret auths config w (workload_images workload)
                  workload.meta.namespace (reviewed_pod kind workload) real gaps,
              isps_hold libs names severity_value secret auths config w (workload_images workload)
                  workload.meta.namespace (reviewed_pod kind workload) real isps,
            ))
      ]
