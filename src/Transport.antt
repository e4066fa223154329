-- ===== src/Transport.antt =====
-- pkg/kritis/review/validating_transport.go. Where the source prints a whole key into an error
-- message, the error here has the key's ID.
pub mod Attested
use kritis.Base.{
  String, Bool, true, false, not, ◌&&◌, Option, none, some, List, [], ◌∷◌, map, if◌then◌else◌,
  str_eq, is_empty,
}
use kritis.Base.Result
use kritis.Base.Result.{Error, Result, ok, err, errorf, wrap, map_err, require, caught, Done}
use kritis.Base.Exec.{Exec, lift, pure, raise, wrapping, ◌>>=◌, ◌>>◌}
use kritis.Names.{Names}
use kritis.Resources
use kritis.Resources.{AttestationAuthority, PkixPublicKey}
use kritis.Metadata.{Bytes, Attestation, Client}
use kritis.Attest.{PublicKey, pgp, pgp_unused, Libraries}
use kritis.Attest.Keys.{new_public_key}
use kritis.Attest.Verifier.{Verifier, new_verifier, verify_attestation}
use kritis.Secrets.{key_and_fingerprint}

-- `attestation.ValidatedAttestation` (pkg/kritis/attestation/validated_attestation.go)
pub record ValidatedAttestation : Type 0 where
  pub attestor_name : String
  pub image : String

-- `v1beta1.PgpKeyType`, `v1beta1.PkixKeyType`
abbrev pub pgp_key_type : String
pgp_key_type = "PGP"

abbrev pub pkix_key_type : String
pkix_key_type = "PKIX"

-- the comparison with `v1beta1.PkixPublicKey{}`
abbrev is_zero : PkixPublicKey → Bool
is_zero k = str_eq k.public_key_pem "" && str_eq k.signature_algorithm ""

unfoldable pub validate_public_key_type : Resources.PublicKey → Result Done
validate_public_key_type pub_key =
    if str_eq pub_key.key_type pgp_key_type
    then Result.◌>>◌
        (require (is_zero pub_key.pkix_public_key) (
          errorf "Invalid PGP key: %v. PkixPublicKey field should not be set"
            (pub_key.key_id ∷ [])))
        (require (not (str_eq pub_key.ascii_armored_pgp_public_key "")) (
          errorf "Invalid PGP key: %v. AsciiArmoredPgpPublicKey field should be set"
            (pub_key.key_id ∷ [])))
    else if str_eq pub_key.key_type pkix_key_type
    then Result.◌>>◌
        (require (str_eq pub_key.ascii_armored_pgp_public_key "") (
          errorf "Invalid PKIX key: %v. AsciiArmoredPgpPublicKey field should not be set"
            (pub_key.key_id ∷ [])))
        (require (not (is_zero pub_key.pkix_public_key))
          (errorf "Invalid PKIX key: %v. PkixPublicKey field should be set" (pub_key.key_id ∷ [])))
    else err (errorf "Unsupported key type %s for key %v" (pub_key.key_type ∷ pub_key.key_id ∷ []))

-- A key with the valid keys and the IDs of the invalid ones that follow it.
abbrev pub sort_key :
    String → Result PublicKey → List PublicKey × List String → List PublicKey × List String
sort_key key_id (ok key) (keys, invalid) = (key ∷ keys, invalid)
sort_key key_id (err e) (keys, invalid) = (keys, key_id ∷ invalid)

module _ (libs : Libraries) (attestor : AttestationAuthority) where
  -- The fingerprint is only compared with the key's ID for a warning.
  unfoldable pub validate_public_key_id : Resources.PublicKey → Result Done
  validate_public_key_id pub_key =
      if str_eq pub_key.key_type pgp_key_type
      then Result.◌>>◌
          (map_err (wrap "Error parsing PGP key for %q: %v" (attestor.name ∷ []))
            (key_and_fingerprint libs pub_key.ascii_armored_pgp_public_key))
          (ok tt)
      else if str_eq pub_key.key_type pkix_key_type
      then map_err
          (λ _.
            errorf "PKIX key with id %s was skipped. KeyId should be a valid RFC3986 URI"
              (pub_key.key_id ∷ []))
          (libs.url_parse pub_key.key_id)
      else err
          (errorf "Unsupported key type %s for key %v" (pub_key.key_type ∷ pub_key.key_id ∷ []))

  unfoldable pub validate_public_key : Resources.PublicKey → Result Done
  validate_public_key pub_key =
      Result.◌>>◌ (validate_public_key_type pub_key) (validate_public_key_id pub_key)

  -- One round of `parsePublicKeys` for a PGP key: an error makes the key invalid.
  unfoldable pub parse_public_key : Resources.PublicKey → Result PublicKey
  parse_public_key attestor_key = Result.◌>>◌ (validate_public_key attestor_key) (
      Result.◌>>=◌ (libs.std_decode attestor_key.ascii_armored_pgp_public_key)
        (λ decoded_key. new_public_key libs pgp pgp_unused decoded_key attestor_key.key_id))

  -- The valid keys and the IDs of the invalid ones. The only error is a panic.
  unfoldable pub parse_public_keys :
      List Resources.PublicKey → Result (List PublicKey × List String)
  parse_public_keys [] = ok ([], [])
  parse_public_keys (k ∷ ks) =
      let rest = parse_public_keys ks in
      if str_eq k.key_type "PGP"
      then Result.◌>>=◌ (caught (parse_public_key k))
          (λ r. Result.◌>>=◌ rest (λ parsed. ok (sort_key k.key_id r parsed)))
      else rest

  -- The loop over the attestations.
  unfoldable pub validated : String → Verifier → List Attestation → List ValidatedAttestation
  validated image verifier [] = []
  validated image verifier (att ∷ atts) =
      let rest = validated image verifier atts in
      elim (verify_attestation libs verifier att) [
        | ok _ ↦ record { attestor_name = attestor.name; image = image } ∷ rest
        | err e ↦ rest
      ]

  module _ {R W K : Type 0} (names : Names R) (client : Client W K) where
    unfoldable pub fetch_attestations : String → Exec W (List Attestation)
    fetch_attestations image =
        wrapping (wrap "error fetching attestations for image %s: %v" (image ∷ []))
          (client.attestations image attestor)

    -- the rest, once there are keys
    unfoldable pub validate_with :
        String → List PublicKey → List String → Exec W (List ValidatedAttestation)
    validate_with image [] invalid_keys = raise (
        errorf "Unable to find any valid keys for %q. Unparseable keys: %v"
          (attestor.name ∷ invalid_keys))
    validate_with image (key ∷ keys) invalid_keys = do
      verifier ←
          lift (map_err (wrap "error creating verifier" []) (new_verifier names image (key ∷ keys)))
      atts ←
          wrapping (wrap "error fetching attestations for image %s: %v" (image ∷ []))
            (fetch_attestations image)
      pure (validated image verifier atts)

    unfoldable pub get_validated_attestations : String → Exec W (List ValidatedAttestation)
    get_validated_attestations image = do
      parsed ← lift (parse_public_keys attestor.public_keys)
      validate_with image parsed.0 parsed.1
