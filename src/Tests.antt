-- ===== src/Tests.antt =====
-- The inputs of the tests: one attestor with one key, and a client that stores one attestation.
mod Policies
mod Reviews
mod Storage
mod Backends
mod Signers
mod Clusters
use kritis.Base.{
  ℕ, String, ◌≡◌, ◌≢◌, refl, ◌↔◌, ◌⊎◌, inl, inr, Bool, true, false, Option, none, some, List, [],
  ◌∷◌, if◌then◌else◌, str_eq, is_empty, All, In, split_on, any, all, select, codes, push_front,
}
use kritis.Base.Maps.{lookup, insert}
use kritis.Base.Result.{Result, ok, err, external}
use kritis.Base.Exec.{Exec, pure}
use kritis.Names.{Names, Digest}
use kritis.Resources
use kritis.Resources.{
  GenericAttestationPolicy, ImageSecurityPolicy, VulnzSigningPolicy, AttestationAuthority, Workload,
  ObjectMeta,
}
use kritis.Metadata.{Bytes, Attestation, Vulnerability, Client}
use kritis.Allowlist.{image_name_pattern_match, image_in_gap_allowlist, split_gap_allowed_images}
use kritis.Allowlist.Patterns.{Matches, image_name_pattern_match_iff}
use kritis.Allowlist.Split.{AllowedBy, image_in_gap_allowlist_iff, split_gap_allowed_images_iff}
use kritis.Policy.Isp.{image_in_allowlist, fully_qualified_image, validate_image_security_policy}
use kritis.Policy.Vsp.{validate_vulnz_signing_policy}
use kritis.Policy.Tolerance.{Tolerated, validate-clean_iff}
use kritis.Policy.Agreement.{SameRequirements, findings, validate_agree}
use kritis.Attest.{
  Libraries, PublicKey, JwtHeader, pgp, jwt, unknown_signing_algorithm, ecdsa_p256_sha256, Packet,
}
use kritis.Allowlist.{image_in_global_allowlist}
use kritis.Transport.{get_validated_attestations}
use kritis.Transport.Attested.{IsAttested, get_validated_attestations-IsAttested}
use kritis.Review.{Config}
use kritis.Review.Gap.{review_gap}
use kritis.Review.Gap.Verdict.{NamesAuthorities}
use kritis.Review.Gap.Admitted.{Admitted, review_gap-Admitted}
use kritis.Review.Isp.{review_isp}
use kritis.Review.Isp.Passed.{PassedBy, review_isp-PassedBy}
use kritis.Admission.{Kind}
use kritis.Admission.Review.{AdmissionConfig}
use kritis.Admission.Handler.{
  Request, Reply, admit_response, get_reviewer, deserialize_request, review_handler,
}
use kritis.Admission.{check_breakglass, workload_images}
use kritis.Admission.Review.{Response, review_workload, reviewed_pod}
use kritis.Admission.Reviewed.{Owned}
use kritis.Admission.Webhook.{Reached}
use kritis.Admission.Chain.{GapsHold, IspsHold, review_workload_sound}
use kritis.Resources.{BuildPolicy}
use kritis.Base.Result.{Done}
use kritis.BuildSigner.{BuildProvenance, validate_build_policy, validate_and_sign}
use kritis.BuildSigner.Matching.{Signed, Attested, validate_and_sign-Signed}
use kritis.Metadata.{pgp_signature_type}
use kritis.Occurrences.{
  Occurrence, Details, pgp_signed, other_kind, PackageIssue, is_fix_available,
  create_occurrence_from_attestation,
}
use kritis.Occurrences.Roundtrip.{GivesBack, create_occurrence_roundtrip, is_fix_available_iff}
use kritis.Cache.{Cache, new_cache, cached_vulnerabilities, cached_attestations}
use kritis.Cache.Failures.{IsNil, cached_reads-IsNil, validate_after_failure}
use kritis.Admission.Webhook.{RequestAllowed, review_handler-RequestAllowed}
use kritis.Attest.Keys.{new_key_id, new_public_key}
use kritis.Attest.Jwt.{check_fields, check_header, get_alg_name}
use kritis.Attest.Verifier.{Verifier, verify_attestation}
use kritis.Attest.Soundness.{IsVerified, verify_attestation_iff}
use kritis.Attest.Algorithms.{new_public_key-check_header}

abbrev pub app_digest : Digest
app_digest = record { repository_name = "app"; digest_str = "sha256:1" }

-- Only one image has a digest.
abbrev pub names : Names String
names = record {
  parse_reference = λ s. ok s;
  deep_equal = str_eq;
  registry_str = λ r. r;
  new_digest_weak =
      λ s. if str_eq s "app@sha256:1" then ok app_digest else err (external "no digest");
  new_digest_strict =
      λ s. if str_eq s "app@sha256:1" then ok app_digest else err (external "no digest");
}

-- A message that is not empty has a good signature, and its body is its payload.
abbrev pub libs : Libraries
libs = record {
  read_armored_key_ring = λ key. ok (record { fingerprint = 1 ∷ []; material = key } ∷ []);
  armor_decode = λ block. ok (record { block_type = "PGP PUBLIC KEY BLOCK"; body = block });
  next_packet = λ body. ok (Packet.public_key (1 ∷ []));
  decrypt = λ key passphrase. ok key;
  read_message = λ body keyring.
      if is_empty body
      then err (external "EOF")
      else ok (record { unverified_body = ok body; signature_error = none; has_signature = true });
  unmarshal_atomic = λ payload.
      ok (record { docker_reference = "app"; docker_manifest_digest = "sha256:1"; sig_type = "" });
  unmarshal_header = λ header.
      ok (record { typ = "JWT"; alg = "Algorithm Not Supported"; kid = "kid:1"; crit = "" });
  std_decode = λ text. ok (7 ∷ []);
  raw_url_decode = λ text. ok text;
  url_parse = λ text. ok tt;
  url_parse_request_uri = λ text. ok tt;
}

abbrev pub attestation : Attestation
attestation = record { public_key_id = "01"; signature = 9 ∷ []; serialized_payload = [] }

abbrev pub vulnerability : Vulnerability
vulnerability = record { severity = "LOW"; has_fix_available = true; cve = "CVE-1" }

-- The world is not changed by any call.
abbrev pub client : Client Bool String
client = record {
  vulnerabilities = λ image. pure (vulnerability ∷ []);
  attestations = λ image auth. pure (attestation ∷ []);
  attestation_note = λ auth. pure none;
  create_attestation_note = λ auth. pure none;
  create_attestation_occurrence = λ note image key project. pure tt;
  upload_attestation_occurrence = λ note image att project t. pure tt;
  delete_attestation_occurrence = λ image auth. pure tt;
}

abbrev pub attestor_key : Resources.PublicKey
attestor_key = record {
  key_id = "01";
  key_type = "PGP";
  ascii_armored_pgp_public_key = "Bw==";
  pkix_public_key = record { public_key_pem = ""; signature_algorithm = "" };
}

abbrev pub attestor : AttestationAuthority
attestor = record {
  name = "qa";
  namespace = "default";
  note_reference = "projects/p/notes/qa";
  public_keys = attestor_key ∷ [];
}

abbrev pub gap : GenericAttestationPolicy
gap = record {
  name = "gap";
  namespace = "default";
  admission_allowlist_patterns = "gcr.io/base/*" ∷ [];
  attestation_authority_names = "qa" ∷ [];
}

abbrev pub isp : ImageSecurityPolicy
isp = record {
  name = "isp";
  namespace = "default";
  image_allowlist = [];
  package_vulnerability_requirements = record {
    maximum_severity = "MEDIUM";
    maximum_fix_unavailable_severity = "LOW";
    allowlist_cves = [];
  };
  attestation_authority_name = "qa";
  private_key_secret_name = "key";
}

abbrev pub vsp : VulnzSigningPolicy
vsp = record {
  name = "vsp";
  image_vulnerability_requirements = record {
    maximum_fixable_severity = "MEDIUM";
    maximum_unfixable_severity = "LOW";
    allowlist_cves = [];
  };
}

abbrev pub severity_value : String → Option ℕ
severity_value s = if str_eq s "LOW" then some 3 else if str_eq s "MEDIUM" then some 4 else none

abbrev pub auths : String → String → Exec Bool AttestationAuthority
auths namespace name =
    if str_eq name "qa" then pure attestor else (λ w. (err (external "not found"), w))

abbrev pub secret : String → String → Exec Bool String
secret namespace name = pure "key"

abbrev pub images : List String
images = "gcr.io/base/debian" ∷ "app@sha256:1" ∷ []

pub app_unlisted : image_in_allowlist isp "app@sha256:1" ≡ false
unfolding image_in_allowlist
app_unlisted = refl
