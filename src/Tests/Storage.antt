-- ===== src/Tests/Storage.antt =====
-- The cache, the occurrences and the build signer at concrete inputs.
use kritis.Base.{String, ◌≡◌, refl, ◌↔◌, Bool, true, none, some, List, [], ◌∷◌, str_eq, All}
use kritis.Base.Maps.{lookup}
use kritis.Base.Result.{Result, ok, err, external}
use kritis.Base.Exec.{pure}
use kritis.Resources.{AttestationAuthority}
use kritis.Metadata.{Client}
use kritis.Policy.Isp.{fully_qualified_image, validate_image_security_policy}
use kritis.Resources.{BuildPolicy}
use kritis.Base.Result.{Done}
use kritis.BuildSigner.{BuildProvenance, validate_build_policy, validate_and_sign}
use kritis.BuildSigner.Matching.{Signed, Attested, validate_and_sign-Signed}
use kritis.Metadata.{pgp_signature_type}
use kritis.Occurrences.{
  Occurrence, Details, pgp_signed, other_kind, PackageIssue, is_fix_available,
  create_occurrence_from_attestation,
}
use kritis.Occurrences.Roundtrip.{GivesBack, create_occurrence_roundtrip, is_fix_available_iff}
use kritis.Cache.{Cache, new_cache, cached_vulnerabilities, cached_attestations}
use kritis.Cache.Failures.{IsNil, cached_reads-IsNil, validate_after_failure}
use kritis.Tests.{names, attestation, client, isp, severity_value, auths, secret, app_unlisted}

-- The backend cannot be reached.
abbrev failing : Client Bool String
failing = record {
  vulnerabilities = λ image w. (err (external "unavailable"), w);
  attestations = client.attestations;
  attestation_note = client.attestation_note;
  create_attestation_note = client.create_attestation_note;
  create_attestation_occurrence = client.create_attestation_occurrence;
  upload_attestation_occurrence = client.upload_attestation_occurrence;
  delete_attestation_occurrence = client.delete_attestation_occurrence;
}

abbrev through_cache : Client (Cache × Bool) String
through_cache = record {
  vulnerabilities = cached_vulnerabilities failing;
  attestations = cached_attestations failing;
  attestation_note = λ auth. pure none;
  create_attestation_note = λ auth. pure none;
  create_attestation_occurrence = λ note image key project. pure tt;
  upload_attestation_occurrence = λ note image att project t. pure tt;
  delete_attestation_occurrence = λ image auth. pure tt;
}

abbrev empty_cache : Cache
empty_cache = record { vuln = []; atts = [] }

nothing_cached : lookup "app@sha256:1" empty_cache.vuln ≡ none
unfolding lookup
nothing_cached = refl

app_qualified : fully_qualified_image names "app@sha256:1" ≡ true
unfolding fully_qualified_image
app_qualified = refl

validate_after_failure_example :
    ((validate_image_security_policy severity_value names isp "app@sha256:1" through_cache
        (empty_cache, true)).0
      ≡ ([], some (external "unavailable")))
    × ((validate_image_security_policy severity_value names isp "app@sha256:1" through_cache
          (validate_image_security_policy severity_value names isp "app@sha256:1" through_cache
            (empty_cache, true)).1).0
        ≡ ([], none))
validate_after_failure_example =
    validate_after_failure failing "app@sha256:1" empty_cache true (external "unavailable")
      nothing_cached refl (λ h. cc h) severity_value names through_cache (λ cw. refl) isp
      app_unlisted app_qualified

cached_reads-IsNil_example :
    IsNil new_cache
    × ((image : String) (c : Cache) (w : Bool)
        → IsNil c
        → IsNil (cached_vulnerabilities failing image (c, w)).1.0)
    × ((image : String) (auth : AttestationAuthority) (c : Cache) (w : Bool)
        → IsNil c
        → IsNil (cached_attestations failing image auth (c, w)).1.0)
cached_reads-IsNil_example = cached_reads-IsNil failing

abbrev stored : Occurrence
stored = record {
  name = "";
  resource_uri = "https://app@sha256:1";
  note_name = "projects/p/notes/qa";
  details = Details.attestation_details (some (pgp_signed "01" (9 ∷ [])));
}

stored_made :
    create_occurrence_from_attestation attestation "app@sha256:1" "projects/p/notes/qa"
      pgp_signature_type
    ≡ ok stored
unfolding create_occurrence_from_attestation
stored_made = refl

create_occurrence_roundtrip_example :
    GivesBack attestation "app@sha256:1" "projects/p/notes/qa" pgp_signature_type stored
create_occurrence_roundtrip_example =
    create_occurrence_roundtrip attestation "app@sha256:1" "projects/p/notes/qa" pgp_signature_type
      stored stored_made

abbrev issues : List PackageIssue
issues = record { fixed_location = some (some other_kind) } ∷ record { fixed_location = none } ∷ []

is_fix_available_iff_example :
    (is_fix_available issues ≡ ok true)
    ↔ All (λ (pi : PackageIssue). pi.fixed_location ≡ some (some other_kind)) issues
is_fix_available_iff_example = is_fix_available_iff issues

abbrev build_policy : BuildPolicy
build_policy = record {
  name = "bp";
  namespace = "default";
  attestation_authority_name = "qa";
  private_key_secret_name = "key";
  built_from = "repo";
}

abbrev provenance : BuildProvenance
provenance = record { build_id = "b1"; image_ref = "app@sha256:1"; built_from = "repo" }

abbrev policy_check : BuildPolicy → String → Result Done
policy_check = validate_build_policy (λ pattern s. ok (str_eq pattern s))

validate_and_sign-Signed_example :
    Signed policy_check secret auths client provenance
      (build_policy ∷ [])
      true
      (validate_and_sign policy_check secret auths client provenance (build_policy ∷ []) true).1
    × ((validate_and_sign policy_check secret auths client provenance (build_policy ∷ []) true).0
          ≡ ok tt
        → All
            (Attested policy_check secret auths client provenance (build_policy ∷ []) true)
            (build_policy ∷ []))
validate_and_sign-Signed_example =
    validate_and_sign-Signed policy_check secret auths client provenance (build_policy ∷ []) true
