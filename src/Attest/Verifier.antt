-- ===== src/Attest/Verifier.antt =====
-- pkg/attestlib/verifier.go and authenticated_attestation.go
use kritis.Base.{String, ◌≡◌, Option, none, some, List, [], ◌∷◌, str_eq}
use kritis.Base.Maps.{lookup, insert}
use kritis.Base.Result.{Result, ok, err, errorf, wrap, map_err, require, Done, ◌>>=◌, ◌>>◌}
use kritis.Names.{Names}
use kritis.Metadata.{Bytes, Attestation}
use kritis.Attest.{
  AuthenticatorType, unknown_authenticator_type, pgp, pkix, jwt, PublicKey, AtomicContainerSig,
  Libraries,
}
use kritis.Attest.Pgp.{verify_pgp}
use kritis.Attest.Jwt.{verify_jwt}

-- `verifier`
pub record Verifier : Type 0 where
  pub image_name : String
  pub image_digest : String
  -- an index of the public keys by their ID
  pub public_keys : List (String × PublicKey)

-- A key overwrites an earlier one with the same ID.
unfoldable pub index_from : List (String × PublicKey) → List PublicKey → List (String × PublicKey)
index_from key_map [] = key_map
index_from key_map (key ∷ keys) = index_from (insert key.id key key_map) keys

unfoldable pub index_public_keys_by_id : List PublicKey → List (String × PublicKey)
unfolding index_from
index_public_keys_by_id keys = index_from [] keys

unfoldable pub new_verifier : {R : Type 0} → Names R → String → List PublicKey → Result Verifier
new_verifier names image public_key_set = do
  digest ← map_err (wrap "invalid image name" []) (names.new_digest_strict image)
  ok (record {
    image_name = digest.repository_name;
    image_digest = digest.digest_str;
    public_keys = index_public_keys_by_id public_key_set;
  })

-- `authenticatedAttestation`
pub record AuthenticatedAttestation : Type 0 where
  pub image_name : String
  pub image_digest : String

-- `pkixVerifierImpl.verifyPkix`
abbrev pub verify_pkix : Bytes → Bytes → Bytes → Result Done
verify_pkix signature payload public_key = err (errorf "verify pkix not implemented" [])

module _ (libs : Libraries) where
  unfoldable pub convert_authenticated_attestation : Bytes → Result AuthenticatedAttestation
  convert_authenticated_attestation payload = do
    atomic_sig ←
        map_err (wrap "error parsing attestation payload" []) (libs.unmarshal_atomic payload)
    ok (record {
      image_name = atomic_sig.docker_reference;
      image_digest = atomic_sig.docker_manifest_digest;
    })

  unfoldable pub check_authenticated_attestation : Bytes → String → String → Result Done
  check_authenticated_attestation payload image_name image_digest = do
    auth_att ← convert_authenticated_attestation payload
    require (str_eq auth_att.image_name image_name)
        (errorf "incorrect image name in Attestation payload" [])
    require (str_eq auth_att.image_digest image_digest)
        (errorf "incorrect image digest in Attestation payload" [])

  -- The switch on the authenticator type: the payload that the signature covers.
  abbrev pub signed_payload : AuthenticatorType → PublicKey → Attestation → Result Bytes
  signed_payload pkix key att =
      verify_pkix att.signature att.serialized_payload key.key_data >> ok att.serialized_payload
  signed_payload pgp key att = verify_pgp libs att.signature key.key_data
  signed_payload jwt key att = verify_jwt libs att.signature key
  signed_payload unknown_authenticator_type key att =
      err (errorf "signature uses an unsupported key mode" [])

  abbrev verify_with : Verifier → Attestation → Option PublicKey → Result Done
  verify_with v att none = err (errorf "no public key with ID %q found" (att.public_key_id ∷ []))
  verify_with v att (some key) = do
    payload ← signed_payload key.authenticator_type key att
    check_authenticated_attestation payload v.image_name v.image_digest

  unfoldable pub verify_attestation : Verifier → Attestation → Result Done
  verify_attestation v att = verify_with v att (lookup att.public_key_id v.public_keys)

  -- The payload names the image of the verifier.
  pub record NamesImage (v : Verifier) (payload : Bytes) : Type 0 where
    pub atomic_sig : AtomicContainerSig
    pub parsed : libs.unmarshal_atomic payload ≡ ok atomic_sig
    pub name_matches : atomic_sig.docker_reference ≡ v.image_name
    pub digest_matches : atomic_sig.docker_manifest_digest ≡ v.image_digest
