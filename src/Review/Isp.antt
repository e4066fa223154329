-- ===== src/Review/Isp.antt =====
-- `ReviewISP`, with `GetOrCreateAttestationNote` of pkg/kritis/util/util.go
pub mod Soundness
pub mod Passed
use kritis.Base.{
  String, ◌+++◌, Bool, true, false, ◌&&◌, Option, none, some, List, [], ◌∷◌, if◌then◌else◌, any,
  is_empty, str_eq,
}
use kritis.Base.Result.{Error, Result, ok, err, errorf, wrap, Done}
use kritis.Base.Exec.{Exec, pure, raise, attempt, wrapping, ◌>>=◌, ◌>>◌}
use kritis.Names.{Names}
use kritis.Resources.{ImageSecurityPolicy, AttestationAuthority, Workload}
use kritis.Metadata.{Client, Note, get_name}
use kritis.Allowlist.{split_globally_allowed_images}
use kritis.Attest.{Libraries}
use kritis.Policy.{
  Violation, unqualified_image_violation, fix_unavailable_violation, severity_violation,
}
use kritis.Review.{Config}
use kritis.Review.Gap.{is_attested_by}

-- `grafeas.DefaultProject`
abbrev pub default_project : String
default_project = "kritis"

-- Violations and an error, read by `if err != nil`: an error hides the violations.
abbrev pub unless_failed : List Violation × Option Error → Result (List Violation)
unless_failed (violations, none) = ok violations
unless_failed (violations, some e) = err e

abbrev is_unqualified : Violation → Bool
is_unqualified v = elim v.v_type [
  | unqualified_image_violation ↦ true
  | fix_unavailable_violation ↦ false
  | severity_violation ↦ false
]

-- `errMsg` of `handleViolations`
abbrev pub violations_message : String → List Violation → String
violations_message image violations =
    if any is_unqualified violations
    then image
      +++ " is not a fully qualified image.\n\t\t\t  You can run 'kubectl plugin resolve-tags' to qualify all images with a digest.\n\t\t\t  Instructions for installing the plugin can be found at https://github.com/grafeas/kritis/blob/master/cmd/kritis/kubectl/plugins/resolve"
    else "found violations in " +++ image

-- The error that is returned, whatever the strategy returned.
abbrev pub after_strategy : String → Result Done → Error
after_strategy err_msg (ok _) = errorf err_msg []
after_strategy err_msg (err e) = wrap "%s. error handling violation %v" (err_msg ∷ []) e

module _ {W K : Type 0} (client : Client W K) where
  abbrev pub or_create : AttestationAuthority → Result (Option Note) → Exec W (Option Note)
  or_create a (ok n) = pure n
  or_create a (err e) = client.create_attestation_note a

  -- Any error of the read, not only a missing note, leads to the creation.
  unfoldable pub get_or_create_attestation_note : AttestationAuthority → Exec W (Option Note)
  get_or_create_attestation_note a = do r ← attempt (client.attestation_note a); or_create a r

module _ {W K : Type 0} (config : Config W K) (client : Client W K) where
  unfoldable pub get_attestation_authority_for_isp :
      ImageSecurityPolicy → Exec W (Option AttestationAuthority)
  get_attestation_authority_for_isp isp =
      let a_name = isp.attestation_authority_name in
      if str_eq a_name "" then pure none else do
        a ← wrapping (wrap "error getting attestors: %v" []) (config.auths isp.namespace a_name)
        pure (some a)

  unfoldable pub handle_violations : String → Option Workload → List Violation → Exec W Done
  handle_violations image pod violations = do
    r ← attempt (config.strategy.handle_violation image pod violations)
    raise (after_strategy (violations_message image violations) r)

  unfoldable pub add_attestation : String → ImageSecurityPolicy → AttestationAuthority → Exec W Done
  add_attestation image isp auth = do
    n ←
        wrapping (wrap "error getting or creating note when adding attestation: %s" [])
          (get_or_create_attestation_note client auth)
    s ←
        wrapping (wrap "error getting secret when adding attestation: %s" [])
          (config.secret isp.namespace isp.private_key_secret_name)
    wrapping (wrap "error creating occurrence when adding attestation: %s" [])
        (client.create_attestation_occurrence (get_name n) image s default_project)

  unfoldable pub validate : ImageSecurityPolicy → String → Exec W (List Violation)
  validate isp image =
      wrapping (wrap "error validating image security policy %v" [])
        (λ w. let (r, w') = config.validate isp image client w in (unless_failed r, w'))

  -- The attestation is added for the webhook only; an error of it is logged.
  unfoldable pub attest_if_webhook :
      String → ImageSecurityPolicy → Option AttestationAuthority → Exec W Done
  attest_if_webhook image isp none = pure tt
  attest_if_webhook image isp (some auth) =
      if config.is_webhook then attempt (add_attestation image isp auth) >> pure tt else pure tt

module _ {R W K : Type 0} (libs : Libraries) (names : Names R) (config : Config W K)
    (client : Client W K) where
  unfoldable pub is_attested : String → Option AttestationAuthority → Exec W Bool
  is_attested image none = pure false
  is_attested image (some auth) = is_attested_by libs names config client image auth

  module _ (pod : Option Workload) where
    -- One round of the inner loop. An error of `HandleAttestation` is logged.
    unfoldable pub review_image :
        ImageSecurityPolicy → Option AttestationAuthority → String → Exec W Done
    review_image isp auth image = do
      img_attested ← is_attested image auth
      attempt (config.strategy.handle_attestation image pod img_attested)
      if img_attested && config.is_webhook then pure tt else do
        violations ← validate config client isp image
        if is_empty violations
            then attest_if_webhook config client image isp auth
            else handle_violations config client image pod violations

    unfoldable pub review_images :
        ImageSecurityPolicy → Option AttestationAuthority → List String → Exec W Done
    review_images isp auth [] = pure tt
    review_images isp auth (image ∷ images) = do
      review_image isp auth image
      review_images isp auth images

    unfoldable pub review_isps : List String → List ImageSecurityPolicy → Exec W Done
    review_isps images [] = pure tt
    review_isps images (isp ∷ isps) = do
      auth ← get_attestation_authority_for_isp config client isp
      review_images isp auth images
      review_isps images isps

    unfoldable pub review_isp : List String → List ImageSecurityPolicy → Exec W Done
    review_isp images isps =
        let images' = (split_globally_allowed_images names images).0 in
        if is_empty images'
        then pure tt
        else if is_empty isps
        then pure tt
        else review_isps images' isps
