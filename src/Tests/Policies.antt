-- ===== src/Tests/Policies.antt =====
-- The allowlists, the policies and the attestation library at concrete inputs.
use kritis.Base.{◌≡◌, refl, ◌↔◌, ◌⊎◌, true, none, List, [], ◌∷◌, All, In}
use kritis.Base.Result.{ok}
use kritis.Metadata.{Vulnerability}
use kritis.Allowlist.{image_name_pattern_match, image_in_gap_allowlist, split_gap_allowed_images}
use kritis.Allowlist.Patterns.{Matches, image_name_pattern_match_iff}
use kritis.Allowlist.Split.{AllowedBy, image_in_gap_allowlist_iff, split_gap_allowed_images_iff}
use kritis.Policy.Isp.{fully_qualified_image, validate_image_security_policy}
use kritis.Policy.Vsp.{validate_vulnz_signing_policy}
use kritis.Policy.Tolerance.{Tolerated, validate-clean_iff}
use kritis.Policy.Agreement.{SameRequirements, findings, validate_agree}
use kritis.Attest.{PublicKey, JwtHeader, pgp, jwt, unknown_signing_algorithm, ecdsa_p256_sha256}
use kritis.Attest.Keys.{new_key_id, new_public_key}
use kritis.Attest.Jwt.{check_fields, check_header, get_alg_name}
use kritis.Attest.Verifier.{Verifier, verify_attestation}
use kritis.Attest.Soundness.{IsVerified, verify_attestation_iff}
use kritis.Attest.Algorithms.{new_public_key-check_header}
use kritis.Tests.{
  names, libs, attestation, vulnerability, client, isp, vsp, severity_value, images, app_unlisted,
}

image_name_pattern_match_iff_example :
    (image_name_pattern_match "gcr.io/base/debian" "gcr.io/base/*" ≡ ok true)
    ↔ Matches "gcr.io/base/debian" "gcr.io/base/*"
image_name_pattern_match_iff_example =
    image_name_pattern_match_iff "gcr.io/base/debian" "gcr.io/base/*"

image_in_gap_allowlist_iff_example :
    (image_in_gap_allowlist "gcr.io/base/debian" ("app" ∷ "gcr.io/base/*" ∷ []) ≡ ok true)
    ↔ AllowedBy "gcr.io/base/debian" ("app" ∷ "gcr.io/base/*" ∷ [])
image_in_gap_allowlist_iff_example =
    image_in_gap_allowlist_iff "gcr.io/base/debian" ("app" ∷ "gcr.io/base/*" ∷ [])

split_gap_allowed_images_iff_example :
    (In "app@sha256:1" (split_gap_allowed_images images ("gcr.io/base/*" ∷ [])).0
      ↔ (In "app@sha256:1" images × (¬ AllowedBy "app@sha256:1" ("gcr.io/base/*" ∷ []))))
    × (In "app@sha256:1" (split_gap_allowed_images images ("gcr.io/base/*" ∷ [])).1
        ↔ (In "app@sha256:1" images × AllowedBy "app@sha256:1" ("gcr.io/base/*" ∷ [])))
split_gap_allowed_images_iff_example =
    split_gap_allowed_images_iff images ("gcr.io/base/*" ∷ []) "app@sha256:1"

validate-clean_iff_example :
    ((validate_image_security_policy severity_value names isp "app@sha256:1" client true).0
      ≡ ([], none))
    ↔ (In "app@sha256:1" isp.image_allowlist
        ⊎ ((fully_qualified_image names "app@sha256:1" ≡ true)
            × ((vulnz : List Vulnerability) × ((client.vulnerabilities "app@sha256:1" true).0
                  ≡ ok vulnz)
                × All (Tolerated severity_value isp) vulnz)))
validate-clean_iff_example = validate-clean_iff severity_value isp "app@sha256:1" names client true

same_requirements : SameRequirements isp vsp
same_requirements = record { with_fix = refl; without_fix = refl; cves = refl }

validate_agree_example :
    findings (validate_image_security_policy severity_value names isp "app@sha256:1" client true).0
    ≡ findings
        (validate_vulnz_signing_policy severity_value names vsp "app@sha256:1" (vulnerability ∷ []))
validate_agree_example =
    validate_agree severity_value isp vsp same_requirements "app@sha256:1" names client true
      (vulnerability ∷ []) app_unlisted refl

abbrev key : PublicKey
key = record {
  authenticator_type = pgp;
  signature_algorithm = unknown_signing_algorithm;
  key_data = 7 ∷ [];
  id = "01";
}

abbrev verifier : Verifier
verifier = record { image_name = "app"; image_digest = "sha256:1"; public_keys = ("01", key) ∷ [] }

verify_attestation_iff_example :
    (verify_attestation libs verifier attestation ≡ ok tt) ↔ IsVerified libs verifier attestation
verify_attestation_iff_example = verify_attestation_iff libs verifier attestation

abbrev jwt_key : PublicKey
jwt_key = record {
  authenticator_type = jwt;
  signature_algorithm = unknown_signing_algorithm;
  key_data = 7 ∷ [];
  id = "kid:1";
}

jwt_key_made : new_public_key libs jwt ecdsa_p256_sha256 (7 ∷ []) "kid:1" ≡ ok jwt_key
unfolding new_public_key new_key_id
jwt_key_made = refl

header_accepted : check_header libs [] jwt_key ≡ ok tt
unfolding check_header check_fields get_alg_name
header_accepted = refl

new_public_key-check_header_example :
    (header : JwtHeader) × (libs.unmarshal_header [] ≡ ok header)
    × (header.alg ≡ "Algorithm Not Supported")
new_public_key-check_header_example =
    new_public_key-check_header libs jwt ecdsa_p256_sha256 (7 ∷ []) "kid:1" jwt_key [] jwt_key_made
      header_accepted
