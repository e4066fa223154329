-- ===== src/Occurrences/Roundtrip.antt =====
-- The attestations that the occurrences made of them give back, and when a fix is available.
use kritis.Base.{String, ◌≡◌, refl, ◌↔◌, Bool, true, Option, none, some, List, [], ◌∷◌, All, ◌+++◌}
use kritis.Base.{subst}
use kritis.Base.Result.{Result, ok, ok-injective}
use kritis.Metadata.{
  SignatureType, pgp_signature_type, generic_signature_type, unknown_signature_type, Attestation,
}
use kritis.Occurrences.{
  PackageIssue, VersionKind, maximum, other_kind, Occurrence, if_fixed, is_fix_available,
  get_attestations_from_occurrence, resource_url_prefix, create_occurrence_from_attestation,
}

-- What is kept of an attestation: the payload is part of a PGP signature.
abbrev pub kept_of : SignatureType → Attestation → Attestation
kept_of pgp_signature_type att = record {
  public_key_id = att.public_key_id;
  signature = att.signature;
  serialized_payload = [];
}
kept_of generic_signature_type att = att
kept_of unknown_signature_type att = att

-- The occurrence is for the image and the note, and holds what is kept of the attestation.
abbrev pub GivesBack : Attestation → String → String → SignatureType → Occurrence → Type 0
GivesBack att image note_name s_type occ =
    (get_attestations_from_occurrence occ ≡ ok (kept_of s_type att ∷ []))
    × (occ.resource_uri ≡ resource_url_prefix +++ image)
    × (occ.note_name ≡ note_name)

-- The occurrence that is made of an attestation is for the image and the note, and gives back that
-- one attestation, without the separate payload when it is stored as a PGP attestation.
pub create_occurrence_roundtrip :
    (att : Attestation) (image note_name : String) (s_type : SignatureType) (occ : Occurrence)
    → create_occurrence_from_attestation att image note_name s_type ≡ ok occ
    → GivesBack att image note_name s_type occ
unfolding create_occurrence_from_attestation get_attestations_from_occurrence
create_occurrence_roundtrip att image note_name pgp_signature_type occ h =
    subst (GivesBack att image note_name pgp_signature_type) (ok-injective h) (refl, refl, refl)
create_occurrence_roundtrip att image note_name generic_signature_type occ h =
    subst (GivesBack att image note_name generic_signature_type) (ok-injective h) (refl, refl, refl)
create_occurrence_roundtrip att image note_name unknown_signature_type occ h = cc

if_fixed_iff :
    (location : Option (Option VersionKind)) (rest : Result Bool) {P : Type 0}
    → (rest ≡ ok true) ↔ P
    → (if_fixed location rest ≡ ok true) ↔ ((location ≡ some (some other_kind)) × P)
if_fixed_iff none rest ih = (λ h. cc, λ h. cc (h.0))
if_fixed_iff (some none) rest ih = (λ h. cc, λ h. cc (h.0))
if_fixed_iff (some (some maximum)) rest ih = (λ h. cc, λ h. cc (h.0))
if_fixed_iff (some (some other_kind)) rest ih = (λ h. (refl, ih.0 h), λ h. ih.1 h.1)

-- A fix is available for all the issues exactly when each has a fixed version that is not the maximum.
pub is_fix_available_iff :
    (pis : List PackageIssue)
    → (is_fix_available pis ≡ ok true)
      ↔ All (λ (pi : PackageIssue). pi.fixed_location ≡ some (some other_kind)) pis
unfolding is_fix_available
is_fix_available_iff [] = (λ h. tt, λ h. refl)
is_fix_available_iff (pi ∷ pis) =
    if_fixed_iff pi.fixed_location (is_fix_available pis) (is_fix_available_iff pis)
