-- ===== src/Review/Gap.antt =====
-- `ReviewGAP`
pub mod Soundness
pub mod Verdict
pub mod Admitted
use kritis.Base.{
  String, Bool, true, false, not, Option, none, some, List, [], ◌∷◌, ◌++◌, if◌then◌else◌, is_empty,
}
use kritis.Base.Maps.{insert}
use kritis.Base.Result.{Error, Result, ok, err, errorf, wrap, rejected, Missing, Done}
use kritis.Base.Exec.{Exec, pure, raise, attempt, wrapping, ◌>>=◌, ◌>>◌}
use kritis.Names.{Names}
use kritis.Resources.{GenericAttestationPolicy, AttestationAuthority, Workload}
use kritis.Metadata.{Client}
use kritis.Allowlist.{split_globally_allowed_images, split_gap_allowed_images}
use kritis.Attest.{Libraries}
use kritis.Transport.{ValidatedAttestation, get_validated_attestations}
use kritis.Review.{Config}

unfoldable pub generate_gap_allowlist : List GenericAttestationPolicy → List String
generate_gap_allowlist [] = []
generate_gap_allowlist (gap ∷ gaps) =
    gap.admission_allowlist_patterns ++ generate_gap_allowlist gaps

-- `len(attestations) != 0`, where an error leaves the slice nil
abbrev pub has_attestation : Result (List ValidatedAttestation) → Bool
has_attestation (ok atts) = not (is_empty atts)
has_attestation (err e) = false

module _ {R W K : Type 0} (libs : Libraries) (names : Names R) (config : Config W K)
    (client : Client W K) where
  unfoldable pub is_attested_by : String → AttestationAuthority → Exec W Bool
  is_attested_by image auth = do
    attestations ← attempt (get_validated_attestations libs auth names client image)
    pure (has_attestation attestations)

  unfoldable pub find_unsatisfied_auth_names :
      String → List AttestationAuthority → Exec W (List String)
  find_unsatisfied_auth_names image [] = pure []
  find_unsatisfied_auth_names image (auth ∷ auths) = do
    attested ← is_attested_by image auth
    not_attested ← find_unsatisfied_auth_names image auths
    pure (if attested then not_attested else auth.name ∷ not_attested)

  -- The loop of `getAttestationAuthoritiesForGAP`.
  unfoldable pub fetch_authorities : String → List String → Exec W (List AttestationAuthority)
  fetch_authorities namespace [] = pure []
  fetch_authorities namespace (a_name ∷ a_names) = do
    a ← wrapping (wrap "Error getting attestors: %v" []) (config.auths namespace a_name)
    auths ← fetch_authorities namespace a_names
    pure (a ∷ auths)

  unfoldable pub get_attestation_authorities_for_gap :
      GenericAttestationPolicy → Exec W (List AttestationAuthority)
  get_attestation_authorities_for_gap gap =
      fetch_authorities gap.namespace gap.attestation_authority_names

  unfoldable pub review_image_with_gap :
      String → GenericAttestationPolicy → Exec W (Bool × List String)
  review_image_with_gap image gap = do
    auths ← get_attestation_authorities_for_gap gap
    not_attested ← find_unsatisfied_auth_names image auths
    pure (if is_empty not_attested then (true, []) else (false, not_attested))

  unfoldable pub check_gaps : List GenericAttestationPolicy → Exec W Done
  check_gaps [] = pure tt
  check_gaps (gap ∷ gaps) = do
    auths ← get_attestation_authorities_for_gap gap
    if is_empty auths
        then raise (
            errorf "Generic attestation policy %s did not specify any attestation authority."
              (gap.name ∷ []))
        else check_gaps gaps

  -- The inner loop of `ReviewGAP`, which ends at the first policy that attests the image:
  -- `imgAttestedByAnyGap`, and the entry of the image in `missingAttestations`.
  unfoldable pub try_gaps :
      String
      → List GenericAttestationPolicy
      → List (String × List String)
      → Exec W (Bool × List (String × List String))
  try_gaps image [] entry = pure (false, entry)
  try_gaps image (gap ∷ gaps) entry = do
    r ← review_image_with_gap image gap
    if r.0 then pure (true, entry) else try_gaps image gaps (insert gap.name r.1 entry)

  module _ (gaps : List GenericAttestationPolicy) (pod : Option Workload) where
    -- The outer loop: `badImages` and `missingAttestations`. An error of the strategy is logged.
    unfoldable pub review_images : List String → Missing → Exec W (List String × Missing)
    review_images [] missing = pure ([], missing)
    review_images (image ∷ images) missing = do
      r ← try_gaps image gaps []
      attempt (config.strategy.handle_attestation image pod r.0)
      rest ← review_images images (insert image r.1 missing)
      pure (if r.0 then rest.0 else image ∷ rest.0, rest.1)

    unfoldable pub reject_bad : List String × Missing → Exec W Done
    reject_bad (bad_images, missing) =
        if is_empty bad_images then pure tt else raise (rejected bad_images missing)

    -- What is left to review when both allowlists are applied.
    unfoldable pub images_to_review : List String → List String
    images_to_review images =
        (split_gap_allowed_images (split_globally_allowed_images names images).0
          (generate_gap_allowlist gaps)).0

    unfoldable pub review_gap : List String → Exec W Done
    review_gap images =
        if is_empty gaps
        then pure tt
        else do check_gaps gaps; r ← review_images (images_to_review images) []; reject_bad r
