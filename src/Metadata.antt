-- ===== src/Metadata.antt =====
-- pkg/kritis/metadata/metadata.go: what the reviewers ask of a metadata backend.
use kritis.Base.{ℕ, String, Bool, Option, none, some, List}
use kritis.Base.Exec.{Exec}
use kritis.Resources.{AttestationAuthority}

abbrev pub Bytes : Type 0
Bytes = List ℕ

-- `SignatureType`
pub data SignatureType : Type 0 where
  unknown_signature_type pgp_signature_type generic_signature_type : SignatureType

-- `Vulnerability`
pub record Vulnerability : Type 0 where
  pub severity : String
  pub has_fix_available : Bool
  pub cve : String

-- `attestlib.Attestation` (pkg/attestlib/attestation.go)
pub record Attestation : Type 0 where
  pub public_key_id : String
  pub signature : Bytes
  pub serialized_payload : Bytes

-- `grafeas.Note`, the fields that the code writes
pub record Note : Type 0 where
  pub name : String
  pub short_description : String
  pub long_description : String
  pub human_readable_name : String

-- `n.GetName()`, which a nil note answers too
abbrev pub get_name : Option Note → String
get_name none = ""
get_name (some n) = n.name

-- `ReadWriteClient`, over the world `W` that its calls act on and the signing secrets `K`; a
-- `ReadOnlyClient` is one of which only the reads are called. Pointers to notes may be nil. The
-- occurrences that uploads return are ignored by every caller. Closing and waiting for an analysis
-- are left out.
pub record Client (W K : Type 0) : Type 0 where
  pub vulnerabilities : String → Exec W (List Vulnerability)
  pub attestations : String → AttestationAuthority → Exec W (List Attestation)
  pub attestation_note : AttestationAuthority → Exec W (Option Note)
  pub create_attestation_note : AttestationAuthority → Exec W (Option Note)
  -- note name, image, secret, project
  pub create_attestation_occurrence : String → String → K → String → Exec W Unit
  -- note name, image, attestation, project, signature type
  pub upload_attestation_occurrence :
      String → String → Attestation → String → SignatureType → Exec W Unit
  pub delete_attestation_occurrence : String → AttestationAuthority → Exec W Unit
