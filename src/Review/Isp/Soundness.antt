-- ===== src/Review/Isp/Soundness.antt =====
-- `ReviewISP` by the rules of `Ensures`: what each of its loops establishes when it returns no error.
use kritis.Base.{
  String, ◌≡◌, refl, ◌⊎◌, inl, inr, Bool, true, false, ◌&&◌, Option, none, some, List, [], ◌∷◌,
  is_empty, All, str_eq_iff,
}
use kritis.Base.Result.{Error, Result, ok, err, wrap, Done}
use kritis.Base.Ensures.{
  Ensures, Ensures-pure, Ensures-raise, Ensures-wrapping, Ensures-if, Ensures-weaken,
  Ensures-ignored, Ensures-call, Ensures-bind,
}
use kritis.Names.{Names}
use kritis.Resources.{ImageSecurityPolicy, AttestationAuthority, Workload}
use kritis.Metadata.{Client, Note, get_name}
use kritis.Attest.{Libraries}
use kritis.Policy.{Violation}
use kritis.Review.{Config}
use kritis.Review.Gap.Soundness.{Attests, Kept, is_attested_by-Ensures}
use kritis.Review.Isp.{
  default_project, unless_failed, or_create, get_or_create_attestation_note,
  get_attestation_authority_for_isp, handle_violations, add_attestation, validate,
  attest_if_webhook, is_attested, review_image, review_images, review_isps,
}

module _ {R W K : Type 0} (libs : Libraries) (names : Names R) (config : Config W K)
    (client : Client W K) (P : W → Type 0) where
  -- In some world with `P`, the validation finds nothing.
  abbrev pub IsClean : ImageSecurityPolicy → String → Type 0
  IsClean isp image = (v : W) × P v × ((config.validate isp image client v).0 ≡ ([], none))

  -- The authority that the policy names, as fetched in some world with `P`.
  abbrev pub IsAuthority : ImageSecurityPolicy → Option AttestationAuthority → Type 0
  IsAuthority isp none = isp.attestation_authority_name ≡ ""
  IsAuthority isp (some auth) =
      (v : W) × P v × ((config.auths isp.namespace isp.attestation_authority_name v).0 ≡ ok auth)

  -- Why a policy lets an image pass.
  abbrev pub Passes : ImageSecurityPolicy → Option AttestationAuthority → String → Type 0
  Passes isp none image = IsClean isp image
  Passes isp (some auth) image =
      ((config.is_webhook ≡ true) × Attests libs names config client P image auth)
      ⊎ IsClean isp image

  -- The policy lets each of the images pass, with the authority that it names.
  abbrev pub PolicyPasses : List String → ImageSecurityPolicy → Type 0
  PolicyPasses images isp =
      (auth : Option AttestationAuthority) × IsAuthority isp auth × All (Passes isp auth) images

  -- The calls that `ReviewISP` makes keep `P`.
  pub record IspKept : Type 0 where
    pub kept : Kept libs names config client P
    pub validated :
        (isp : ImageSecurityPolicy) (image : String) (w : W)
        → P w
        → P (config.validate isp image client w).1
    pub note : (a : AttestationAuthority) (w : W) → P w → P (client.attestation_note a w).1
    pub create_note :
        (a : AttestationAuthority) (w : W) → P w → P (client.create_attestation_note a w).1
    pub secret : (namespace name : String) (w : W) → P w → P (config.secret namespace name w).1
    pub occurrence :
        (note image : String) (k : K) (project : String) (w : W)
        → P w
        → P (client.create_attestation_occurrence note image k project w).1
    pub violation :
        (image : String) (pod : Option Workload) (violations : List Violation) (w : W)
        → P w
        → P (config.strategy.handle_violation image pod violations w).1

  unless_failed_lem :
      (r : List Violation × Option Error) (violations : List Violation)
      → unless_failed r ≡ ok violations
      → is_empty violations ≡ true
      → r ≡ ([], none)
  unless_failed_lem ([], none) violations h e = refl
  unless_failed_lem (x ∷ xs, none) [] h e = absurd (cc h)
  unless_failed_lem (x ∷ xs, none) (y ∷ ys) h e = absurd (cc e)
  unless_failed_lem (xs, some x) violations h e = absurd (cc h)

  abbrev AttestedBy : Option AttestationAuthority → String → Type 0
  AttestedBy none image = ⊥
  AttestedBy (some auth) image = Attests libs names config client P image auth

  skipped_lem :
      (isp : ImageSecurityPolicy) (auth : Option AttestationAuthority) (image : String) (b : Bool)
      → (b ≡ true → AttestedBy auth image)
      → (b && config.is_webhook) ≡ true
      → Passes isp auth image
  skipped_lem isp none image true h e = absurd (h refl)
  skipped_lem isp (some auth) image true h e = inl (e, h refl)
  skipped_lem isp auth image false h e = absurd (cc e)

  clean_lem :
      (isp : ImageSecurityPolicy) (auth : Option AttestationAuthority) (image : String)
      → IsClean isp image
      → Passes isp auth image
  clean_lem isp none image c = c
  clean_lem isp (some a) image c = inr c

  module _ (k : IspKept) where
    validate-Ensures :
        (isp : ImageSecurityPolicy) (image : String)
        → Ensures P
            (λ violations. is_empty violations ≡ true → IsClean isp image)
            (validate config client isp image)
    unfolding validate
    validate-Ensures isp image =
        Ensures-wrapping _ (wrap "error validating image security policy %v" [])
          (λ w. let (r, w') = config.validate isp image client w in (unless_failed r, w'))
          (record {
            keeps = k.validated isp image;
            gives = λ w violations p e none_found. (
              w,
              p,
              unless_failed_lem (config.validate isp image client w).0 violations e none_found,
            );
          })

    is_attested-Ensures :
        (image : String) (auth : Option AttestationAuthority)
        → Ensures P
            (λ b. b ≡ true → AttestedBy auth image)
            (is_attested libs names config client image auth)
    unfolding is_attested
    is_attested-Ensures image none = Ensures-pure _ false (λ e. absurd (cc e))
    is_attested-Ensures image (some auth) =
        is_attested_by-Ensures libs names config client P k.kept image auth

    get_attestation_authority_for_isp-Ensures :
        (isp : ImageSecurityPolicy)
        → Ensures P (IsAuthority isp) (get_attestation_authority_for_isp config client isp)
    unfolding get_attestation_authority_for_isp
    get_attestation_authority_for_isp-Ensures isp =
        Ensures-if _ _ _ _
          (λ e. Ensures-pure _ none ((str_eq_iff isp.attestation_authority_name "").0 e))
          (λ e.
            Ensures-bind (λ a. IsAuthority isp (some a)) _ _ _
              (Ensures-wrapping _ (wrap "error getting attestors: %v" [])
                (config.auths isp.namespace isp.attestation_authority_name)
                (record {
                  keeps = k.kept.fetch isp.namespace isp.attestation_authority_name;
                  gives = λ w a p e. (w, p, e);
                }))
              (λ a h. Ensures-pure _ (some a) h))

    -- Handling violations is always an error.
    handle_violations-Ensures :
        (Q : Done → Type 0) (image : String) (pod : Option Workload) (violations : List Violation)
        → Ensures P Q (handle_violations config client image pod violations)
    unfolding handle_violations
    handle_violations-Ensures Q image pod violations =
        Ensures-bind _ _ _ _
          (Ensures-ignored P (config.strategy.handle_violation image pod violations)
            (k.violation image pod violations))
          (λ r _. Ensures-raise _ _)

    or_create-Ensures :
        (auth : AttestationAuthority) (r : Result (Option Note))
        → Ensures P (λ n. Unit) (or_create client auth r)
    or_create-Ensures auth (ok n) = Ensures-pure _ n tt
    or_create-Ensures auth (err e) =
        Ensures-call (client.create_attestation_note auth) (k.create_note auth)

    get_or_create_attestation_note-Ensures :
        (auth : AttestationAuthority)
        → Ensures P (λ n. Unit) (get_or_create_attestation_note client auth)
    unfolding get_or_create_attestation_note
    get_or_create_attestation_note-Ensures auth =
        Ensures-bind _ _ _ _ (Ensures-ignored P (client.attestation_note auth) (k.note auth))
          (λ r _. or_create-Ensures auth r)

    add_attestation-Ensures :
        (image : String) (isp : ImageSecurityPolicy) (auth : AttestationAuthority)
        → Ensures P (λ u. Unit) (add_attestation config client image isp auth)
    unfolding add_attestation
    add_attestation-Ensures image isp auth =
        Ensures-bind _ _ _ _
          (Ensures-wrapping _ (wrap "error getting or creating note when adding attestation: %s" [])
            (get_or_create_attestation_note client auth)
            (get_or_create_attestation_note-Ensures auth))
          λ n _.
            Ensures-bind _ _ _ _
              (Ensures-wrapping _ (wrap "error getting secret when adding attestation: %s" [])
                (config.secret isp.namespace isp.private_key_secret_name)
                (Ensures-call _ (k.secret isp.namespace isp.private_key_secret_name)))
              λ s _.
                Ensures-wrapping _ (wrap "error creating occurrence when adding attestation: %s" [])
                  (client.create_attestation_occurrence (get_name n) image s default_project)
                  (Ensures-call _ (k.occurrence (get_name n) image s default_project))

    attest_if_webhook-Ensures :
        (image : String) (isp : ImageSecurityPolicy) (auth : Option AttestationAuthority)
        → Ensures P (λ u. Unit) (attest_if_webhook config client image isp auth)
    unfolding attest_if_webhook
    attest_if_webhook-Ensures image isp none = Ensures-pure _ tt tt
    attest_if_webhook-Ensures image isp (some auth) =
        Ensures-if _ config.is_webhook _ _
          (λ e.
            Ensures-bind _ _ _ _
              (Ensures-ignored P (add_attestation config client image isp auth)
                (add_attestation-Ensures image isp auth).keeps)
              (λ r _. Ensures-pure _ tt tt))
          (λ e. Ensures-pure _ tt tt)

    module _ (pod : Option Workload) where
      review_image-Ensures :
          (isp : ImageSecurityPolicy) (auth : Option AttestationAuthority) (image : String)
          → Ensures P
              (λ u. Passes isp auth image)
              (review_image libs names config client pod isp auth image)
      unfolding review_image
      review_image-Ensures isp auth image =
          Ensures-bind _ _ _ _ (is_attested-Ensures image auth) λ b h.
            Ensures-bind _ _ _ _
              (Ensures-ignored P (config.strategy.handle_attestation image pod b)
                (k.kept.report image pod b))
              λ _ _.
                Ensures-if _ (b && config.is_webhook) _ _
                  (λ e. Ensures-pure _ tt (skipped_lem isp auth image b h e))
                  (λ e. Ensures-bind _ _ _ _ (validate-Ensures isp image) λ violations clean.
                    Ensures-if _ (is_empty violations) _ _
                      (λ none_found.
                        Ensures-weaken _ _ _ (attest_if_webhook-Ensures image isp auth)
                          (λ u _. clean_lem isp auth image (clean none_found)))
                      (λ _. handle_violations-Ensures _ image pod violations))

      review_images-Ensures :
          (isp : ImageSecurityPolicy) (auth : Option AttestationAuthority) (images : List String)
          → Ensures P
              (λ u. All (Passes isp auth) images)
              (review_images libs names config client pod isp auth images)
      unfolding review_images
      review_images-Ensures isp auth [] = Ensures-pure _ tt tt
      review_images-Ensures isp auth (image ∷ images) =
          Ensures-bind _ _ _ _ (review_image-Ensures isp auth image)
            λ u h. Ensures-weaken _ _ _ (review_images-Ensures isp auth images) (λ u' hs. (h, hs))

      pub review_isps-Ensures :
          (images : List String) (isps : List ImageSecurityPolicy)
          → Ensures P
              (λ u. All (PolicyPasses images) isps)
              (review_isps libs names config client pod images isps)
      unfolding review_isps
      review_isps-Ensures images [] = Ensures-pure _ tt tt
      review_isps-Ensures images (isp ∷ isps) =
          Ensures-bind _ _ _ _ (get_attestation_authority_for_isp-Ensures isp) λ auth f.
            Ensures-bind _ _ _ _ (review_images-Ensures isp auth images) λ u h.
              Ensures-weaken _ _ _ (review_isps-Ensures images isps) (λ u' hs. ((auth, f, h), hs))
