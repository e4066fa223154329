-- ===== src/Occurrences.antt =====
-- pkg/kritis/metadata/metadata.go: what the backends store, as vulnerabilities and attestations. A Go
-- string that holds a signature is its bytes.
pub mod Roundtrip
use kritis.Base.{ℕ, String, ◌+++◌, Bool, true, false, Option, none, some, List, [], ◌∷◌, map}
use kritis.Base.Result.{Result, ok, err, errorf, panicked, ◌>>=◌}
use kritis.Metadata.{
  Bytes, SignatureType, pgp_signature_type, generic_signature_type, unknown_signature_type,
  Vulnerability, Attestation,
}

-- `commonpb.Signature`
pub record Signature : Type 0 where
  pub signature : Bytes
  pub public_key_id : String

-- The signature of an `attestationpb.Attestation`.
pub data SignedAttestation : Type 0 where
  -- a key ID and a signature
  pgp_signed : String → Bytes → SignedAttestation
  -- signatures and their payload
  generic_signed : List Signature → Bytes → SignedAttestation
  -- not set
  unsigned : SignedAttestation

-- `Version.Kind`
pub data VersionKind : Type 0 where
  maximum other_kind : VersionKind

-- `vulnerability.PackageIssue`: the version of its fixed location; the location may be nil, and the
-- version of a location too.
pub record PackageIssue : Type 0 where
  pub fixed_location : Option (Option VersionKind)

-- `vulnerability.Details`
pub record VulnerabilityDetails : Type 0 where
  pub effective_severity : ℕ
  pub package_issue : List PackageIssue

-- `Discovered.AnalysisStatus`, as the code tells the values apart
pub data AnalysisStatus : Type 0 where
  finished_success finished_failed finished_unsupported other_status : AnalysisStatus

-- The details of an occurrence; those of an attestation may be nil.
pub data Details : Type 0 where
  attestation_details : Option SignedAttestation → Details
  vulnerability_details : VulnerabilityDetails → Details
  -- the status, which is the default where the discovery inside is nil
  discovered_details : AnalysisStatus → Details
  other_details : Details

-- `grafeas.Occurrence`
pub record Occurrence : Type 0 where
  pub name : String
  pub resource_uri : String
  pub note_name : String
  pub details : Details

-- One round of the loop, before the rest of it; a nil version of a location is dereferenced.
abbrev pub if_fixed : Option (Option VersionKind) → Result Bool → Result Bool
if_fixed none rest = ok false
if_fixed (some none) rest = err panicked
if_fixed (some (some maximum)) rest = ok false
if_fixed (some (some other_kind)) rest = rest

unfoldable pub is_fix_available : List PackageIssue → Result Bool
is_fix_available [] = ok true
is_fix_available (pi ∷ pis) = if_fixed pi.fixed_location (is_fix_available pis)

-- `GetVulnerabilityFromOccurrence`, with the generated map `Severity_name` as a parameter
unfoldable pub get_vulnerability_from_occurrence :
    (ℕ → String) → Occurrence → Result (Option Vulnerability)
get_vulnerability_from_occurrence severity_name occ = elim occ.details [
  | attestation_details a ↦ ok none
  | discovered_details s ↦ ok none
  | other_details ↦ ok none
  | vulnerability_details vuln_details ↦ is_fix_available vuln_details.package_issue >>= λ has_fix.
      ok (
        some (record {
          severity = severity_name vuln_details.effective_severity;
          has_fix_available = has_fix;
          cve = occ.note_name;
        }))
]

abbrev pub from_signature : Bytes → Signature → Attestation
from_signature payload sig = record {
  public_key_id = sig.public_key_id;
  signature = sig.signature;
  serialized_payload = payload;
}

-- The switch on the signature type.
abbrev pub attestations_of : SignedAttestation → Result (List Attestation)
attestations_of (pgp_signed key_id signature) =
    ok (record { public_key_id = key_id; signature = signature; serialized_payload = [] } ∷ [])
attestations_of (generic_signed signatures payload) = ok (map (from_signature payload) signatures)
attestations_of unsigned = err (errorf "Unknown signature type for attestation %v" [])

-- A nil attestation is dereferenced.
unfoldable pub get_attestations_from_occurrence : Occurrence → Result (List Attestation)
get_attestations_from_occurrence occ = elim occ.details [
  | attestation_details (some a) ↦ attestations_of a
  | attestation_details none ↦ err panicked
  | vulnerability_details v ↦ err panicked
  | discovered_details s ↦ err panicked
  | other_details ↦ err panicked
]

-- `constants.ResourceURLPrefix`
abbrev pub resource_url_prefix : String
resource_url_prefix = "https://"

abbrev pub signed_as : SignatureType → Attestation → Result SignedAttestation
signed_as pgp_signature_type att = ok (pgp_signed att.public_key_id att.signature)
signed_as generic_signature_type att = ok (
    generic_signed (record { signature = att.signature; public_key_id = att.public_key_id } ∷ [])
      att.serialized_payload)
signed_as unknown_signature_type att = err (errorf "unknown signature type %v" [])

unfoldable pub create_occurrence_from_attestation :
    Attestation → String → String → SignatureType → Result Occurrence
create_occurrence_from_attestation att container_image note_name s_type = do
  attestation ← signed_as s_type att
  ok (record {
    name = "";
    resource_uri = resource_url_prefix +++ container_image;
    note_name = note_name;
    details = attestation_details (some attestation);
  })
