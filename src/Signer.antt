-- ===== src/Signer.antt =====
-- pkg/kritis/signer/signer.go and cloud_kms.go: the vulnerability signer, over a metadata client and a
-- signer of attestlib.
pub mod Uploaded
pub mod Main
pub mod Checked
use kritis.Base.{
  String, ◌+++◌, Bool, true, false, Option, List, [], ◌∷◌, is_empty, not, if◌then◌else◌,
}
use kritis.Base.Result.{Result, ok, err, errorf, wrap, Done}
use kritis.Base.Exec.{Exec, ◌>>=◌, ◌>>◌, pure, raise, lift, wrapping}
use kritis.Resources.{AttestationAuthority}
use kritis.Names.{Names}
use kritis.Metadata.{Bytes, Attestation, Client, get_name, generic_signature_type}
use kritis.Review.Isp.{get_or_create_attestation_note}
use kritis.Payload.{ContainerSig, atomic_container_payload}

-- `config` of a signer, with `CreateAttestation` of its signer of attestlib
pub record SignerConfig (W : Type 0) : Type 0 where
  pub c_signer : Bytes → Exec W Attestation
  pub authority : AttestationAuthority
  pub project : String
  pub overwrite : Bool

unfoldable pub new_signer :
    {W : Type 0} → (Bytes → Exec W Attestation) → String → String → Bool → SignerConfig W
new_signer c_signer note_name project overwrite = record {
  c_signer = c_signer;
  authority = record {
    name = "signing-aa";
    namespace = "";
    note_reference = note_name;
    public_keys = [];
  };
  project = project;
  overwrite = overwrite;
}

module _ {R W K : Type 0} (names : Names R) (marshal : ContainerSig → Result Bytes)
    (client : Client W K) (config : SignerConfig W) where
  unfoldable pub create_attestation : String → Exec W Attestation
  create_attestation image = do
    payload ← lift (atomic_container_payload names marshal image)
    config.c_signer payload

  unfoldable pub upload_attestation : String → Attestation → Exec W Done
  upload_attestation image att = do
    note ← get_or_create_attestation_note client config.authority
    client.upload_attestation_occurrence (get_name note) image att config.project
        generic_signature_type

  unfoldable pub is_attestation_already_exist : String → Exec W Bool
  is_attestation_already_exist image = do
    atts ← client.attestations image config.authority
    pure (not (is_empty atts))

  -- From the creation of the attestation on.
  abbrev pub create_and_upload : String → Exec W Done
  create_and_upload image = do
    att ← wrapping (wrap "creatiing attestation failed: %v" []) (create_attestation image)
    wrapping (wrap "uploading attestation failed: %v" []) (upload_attestation image att)

  -- From the check of existing attestations on.
  abbrev pub sign_unless : String → Bool → Bool → Exec W Done
  sign_unless image true false = pure tt
  sign_unless image true true = do
    wrapping (wrap "deleting existing attestation failed: %v" [])
        (client.delete_attestation_occurrence image config.authority)
    create_and_upload image
  sign_unless image false overwrite = create_and_upload image

  unfoldable pub sign_image : String → Exec W Done
  sign_image image = do
    existed ←
        wrapping (wrap "checking existing attestation status failed: %v" [])
          (is_attestation_already_exist image)
    sign_unless image existed config.overwrite

-- `DigestAlgorithm`: the three constants, and any other text
pub data DigestAlgorithm : Type 0 where
  sha256 sha384 sha512 : DigestAlgorithm
  other_algorithm : String → DigestAlgorithm

-- `kmspb.Digest`
pub data KmsDigest : Type 0 where
  digest_sha256 digest_sha384 digest_sha512 : Bytes → KmsDigest

-- `AsymmetricSignRequest`
pub record AsymmetricSignRequest : Type 0 where
  pub name : String
  pub digest : KmsDigest

-- `kmsSigner`
pub record KmsSigner : Type 0 where
  pub key_name : String
  pub digest_alg : DigestAlgorithm

-- The hashes of Go, and the call of Cloud KMS.
pub record Kms (W : Type 0) : Type 0 where
  pub sum256 : Bytes → Bytes
  pub sum384 : Bytes → Bytes
  pub sum512 : Bytes → Bytes
  pub asymmetric_sign : AsymmetricSignRequest → Exec W Bytes

module _ {W : Type 0} (kms : Kms W) where
  -- The two switches on the algorithm.
  unfoldable pub kms_digest : DigestAlgorithm → Bytes → Result KmsDigest
  kms_digest sha256 payload = ok (digest_sha256 (kms.sum256 payload))
  kms_digest sha384 payload = ok (digest_sha384 (kms.sum384 payload))
  kms_digest sha512 payload = ok (digest_sha512 (kms.sum512 payload))
  kms_digest (other_algorithm name) payload =
      err (errorf "Unsupported digest algorithm %v" (name ∷ []))

  unfoldable pub kms_create_attestation : KmsSigner → Bytes → Exec W Attestation
  kms_create_attestation s payload = do
    digest ← lift (kms_digest s.digest_alg payload)
    signature ← kms.asymmetric_sign (record { name = s.key_name; digest = digest })
    pure (record {
      public_key_id = "//cloudkms.googleapis.com/v1/" +++ s.key_name;
      signature = signature;
      serialized_payload = payload;
    })
