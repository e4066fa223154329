-- ===== src/Tests/Signers.antt =====
-- The signers, the payloads and the vulnerability signer at concrete inputs.
use kritis.Base.{
  ℕ, String, ◌≡◌, refl, subst, ◌↔◌, Bool, true, false, ◌&&◌, some, [], ◌∷◌, nat_eq, nat_eq_iff,
  if◌then◌else◌, length, str_eq, str_eq_iff, Bool-cases, inl, inr,
}
use kritis.Base.Result.{Result, ok, err, external, ok-injective, require}
use kritis.Base.Exec.{pure}
use kritis.Metadata.{Bytes, Attestation, Client}
use kritis.Attest.{Libraries, rsa_pss_4096_sha512, AtomicContainerSig}
use kritis.Attest.Verifier.{
  Verifier, new_verifier, check_authenticated_attestation, index_public_keys_by_id, index_from,
}
use kritis.Attest.Signing.{
  Crypto, rsa_public, rsa_private, PkixSigner, verify_detached, hash_payload, create_attestation,
}
use kritis.Attest.Signing.Detached.{Works, create_attestation-VerifiedBy}
use kritis.Payload.{ContainerSig, new_critical, new_atomic_container_sig, atomic_container_payload}
use kritis.Payload.Checked.{Decodes, atomic_container_payload-check_iff}
use kritis.Review.Isp.{get_or_create_attestation_note}
use kritis.Signer
use kritis.Signer.{SignerConfig, sign_image}
use kritis.Signer.Uploaded.{Outcome, sign_image-Outcome}
use kritis.Base.Run
use kritis.Policy
use kritis.Policy.Vsp
use kritis.Policy.Isp
use kritis.Base.Split
use kritis.Base.Maps
use kritis.Backend.{check_note_name}
use kritis.Signer.Main.{SignerFlags, SignerCalls, mode_of, check_image, sign_checked, main}
use kritis.Signer.Checked.{Performed, main-Performed}
use kritis.Base.Split.{begins}
use kritis.BuildSigner.Events.{
  BuiltImage, BuildEvent, contains, source_suffix, provenance_of, provenance_from,
  extract_build_provenance_from_event,
}
use kritis.BuildSigner.Provenance.{Extracted, extract-provenance_from_event}
use kritis.Tests.{vsp, severity_value, names, app_digest, attestation, attestor, client, libs}

abbrev bytes_eq : Bytes → Bytes → Bool
bytes_eq [] [] = true
bytes_eq (a ∷ rest) (b ∷ bs) = nat_eq a b && bytes_eq rest bs
bytes_eq _ _ = false

bytes_eq_refl : (a : Bytes) → bytes_eq a a ≡ true
bytes_eq_refl [] = refl
bytes_eq_refl (a ∷ rest) = rw ((nat_eq_iff a a).1 refl, bytes_eq_refl rest) refl

abbrev two_numbers : Bytes → Result (ℕ × ℕ)
two_numbers (a ∷ b ∷ []) = ok (a, b)
two_numbers _ = err (external "asn1")

-- A signature is the signed hash; in ECDSA, its length and a random number.
abbrev crypto : Crypto ℕ ℕ
crypto = record {
  sum256 = λ payload. 2 ∷ payload;
  sum384 = λ payload. 3 ∷ payload;
  sum512 = λ payload. 5 ∷ payload;
  pem_decode = λ text. (some text, []);
  parse_pkix_public_key = λ der. ok (rsa_public der);
  parse_pkcs8_private_key = λ der. ok (rsa_private der der);
  marshal_pkix_public_key = λ key. ok [];
  raw_url_encode = λ text. "id";
  sign_pkcs1v15 = λ key h hashed. pure hashed;
  sign_pss = λ key h hashed. pure hashed;
  ecdsa_sign = λ key hashed w. (ok (length hashed, w), w);
  verify_pkcs1v15 = λ key h hashed sig. require (bytes_eq hashed sig) (external "rsa");
  verify_pss = λ key h hashed sig. require (bytes_eq hashed sig) (external "rsa");
  ecdsa_verify = λ key hashed z. nat_eq (length hashed) z.0;
  asn1_marshal = λ z. ok (z.0 ∷ z.1 ∷ []);
  asn1_unmarshal = two_numbers;
}

same_bytes :
    (hashed sig : Bytes)
    → ok hashed ≡ ok sig
    → require (bytes_eq hashed sig) (external "rsa") ≡ ok tt
same_bytes hashed sig e =
    subst (λ s. require (bytes_eq hashed s) (external "rsa") ≡ ok tt) (ok-injective e)
      (rw (bytes_eq_refl hashed) refl)

crypto-Works : Works crypto (λ a b. a ≡ b)
crypto-Works = record {
  pkcs1v15_works = λ public private h hashed sig w p e. same_bytes hashed sig e;
  pss_works = λ public private h hashed sig w p e. same_bytes hashed sig e;
  ecdsa_works = λ public private hashed z w p e.
      subst (λ (y : ℕ × ℕ). nat_eq (length hashed) y.0 ≡ true) (ok-injective e)
        ((nat_eq_iff (length hashed) (length hashed)).1 refl);
  asn1_works = λ z b e. subst (λ t. two_numbers t ≡ ok z) (ok-injective e) refl;
}

abbrev signer : PkixSigner
signer = record {
  private_key = rsa_private (1 ∷ []) (1 ∷ []);
  public_key_id = "ni:///sha-256;id";
  signature_algorithm = rsa_pss_4096_sha512;
}

abbrev signed : Attestation
signed = record {
  public_key_id = "ni:///sha-256;id";
  signature = 5 ∷ 8 ∷ [];
  serialized_payload = 8 ∷ [];
}

signer_signs : (create_attestation crypto signer (8 ∷ []) 0).0 ≡ ok signed
unfolding create_attestation hash_payload
signer_signs = refl

create_attestation-VerifiedBy_example :
    (signed.serialized_payload ≡ 8 ∷ [])
    × (verify_detached crypto signed.signature
          (1 ∷ [])
          rsa_pss_4096_sha512
          signed.serialized_payload
        ≡ ok tt)
create_attestation-VerifiedBy_example =
    create_attestation-VerifiedBy crypto (λ a b. a ≡ b) crypto-Works signer (8 ∷ [])
      (rsa_public (1 ∷ [])) refl (1 ∷ []) (1 ∷ []) 0 signed refl refl signer_signs

abbrev critical_type : String
critical_type = "atomic container signature"

abbrev is_app : String → String → String → Bool
is_app name digest sig_type =
    str_eq name "app" && (str_eq digest "sha256:1" && str_eq sig_type critical_type)

-- Only one image can be encoded.
abbrev marshal : ContainerSig → Result Bytes
marshal acs =
    if is_app acs.critical.identity.docker_ref acs.critical.image.digest acs.critical.critical_type
    then ok (1 ∷ [])
    else err (external "json")

abbrev app_sig : AtomicContainerSig
app_sig = record {
  docker_reference = "app";
  docker_manifest_digest = "sha256:1";
  sig_type = critical_type;
}

abbrev json : Libraries
json = record {
  read_armored_key_ring = libs.read_armored_key_ring;
  armor_decode = libs.armor_decode;
  next_packet = libs.next_packet;
  decrypt = libs.decrypt;
  read_message = libs.read_message;
  unmarshal_atomic = λ payload. ok app_sig;
  unmarshal_header = libs.unmarshal_header;
  std_decode = libs.std_decode;
  raw_url_decode = libs.raw_url_decode;
  url_parse = libs.url_parse;
  url_parse_request_uri = libs.url_parse_request_uri;
}

app_decoded :
    (name digest sig_type : String) (b : Bytes)
    → (if is_app name digest sig_type then ok (1 ∷ []) else err (external "json")) ≡ ok b
    → ok app_sig
      ≡ ok
          (record { docker_reference = name; docker_manifest_digest = digest; sig_type = sig_type })
app_decoded name digest sig_type b h = elim (Bool-cases (str_eq name "app")) [
  | inr e ↦ absurd (cc (rw e at h))
  | inl e ↦ elim (Bool-cases (str_eq digest "sha256:1")) [
    | inr k ↦ absurd (cc (rw (e, k) at h))
    | inl k ↦ elim (Bool-cases (str_eq sig_type critical_type)) [
      | inr q ↦ absurd (cc (rw (e, k, q) at h))
      | inl q ↦
          rw
            (
              (str_eq_iff name "app").0 e,
              (str_eq_iff digest "sha256:1").0 k,
              (str_eq_iff sig_type critical_type).0 q,
            )
            refl
    ]
  ]
]

json-Decodes : Decodes json marshal
json-Decodes acs b h =
    app_decoded acs.critical.identity.docker_ref acs.critical.image.digest
      acs.critical.critical_type b h

abbrev verifier : Verifier
verifier = record { image_name = "app"; image_digest = "sha256:1"; public_keys = [] }

app_payload : atomic_container_payload names marshal "app@sha256:1" ≡ ok (1 ∷ [])
unfolding atomic_container_payload new_atomic_container_sig new_critical
app_payload = refl

app_verifier : new_verifier names "app@sha256:1" [] ≡ ok verifier
unfolding new_verifier index_public_keys_by_id index_from
app_verifier = refl

atomic_container_payload-check_iff_example :
    (check_authenticated_attestation json (1 ∷ []) verifier.image_name verifier.image_digest
      ≡ ok tt)
    ↔ ((app_digest.repository_name ≡ app_digest.repository_name)
        × (app_digest.digest_str ≡ app_digest.digest_str))
atomic_container_payload-check_iff_example =
    atomic_container_payload-check_iff names json marshal json-Decodes "app@sha256:1" "app@sha256:1"
      [] app_digest app_digest (1 ∷ []) verifier refl refl app_payload app_verifier

-- The world says whether the image is attested.
abbrev store : Client Bool String
store = record {
  vulnerabilities = client.vulnerabilities;
  attestations = λ image auth w. (ok (if w then attestation ∷ [] else []), w);
  attestation_note = client.attestation_note;
  create_attestation_note = client.create_attestation_note;
  create_attestation_occurrence = client.create_attestation_occurrence;
  upload_attestation_occurrence = λ note image att project t w. (ok tt, true);
  delete_attestation_occurrence = λ image auth w. (ok tt, false);
}

abbrev overwriting : SignerConfig Bool
overwriting = record {
  c_signer = λ payload. pure attestation;
  authority = attestor;
  project = "p";
  overwrite = true;
}

app_signed : sign_image names marshal store overwriting "app@sha256:1" true ≡ (ok tt, true)
unfolding sign_image Signer.is_attestation_already_exist Signer.create_attestation
    Signer.upload_attestation get_or_create_attestation_note atomic_container_payload
    new_atomic_container_sig new_critical
app_signed = refl

sign_image-Outcome_example : Outcome names marshal store overwriting "app@sha256:1" true true
sign_image-Outcome_example =
    sign_image-Outcome names marshal store overwriting "app@sha256:1" true true app_signed

abbrev flags : SignerFlags
flags = record {
  mode = "check-and-sign";
  image = "app@sha256:1";
  vulnz_timeout = "5m";
  policy_path = "policy.yaml";
  attestation_project = "p";
  overwrite = true;
  note_name = "projects/p/notes/n";
  pgp_pri_key_path = "key.pgp";
  pgp_passphrase = "";
  kms_key_name = "";
  kms_digest_alg = "";
}

abbrev calls : SignerCalls Bool String
calls = record {
  new_client = pure store;
  wait_for_vulnz_analysis = λ image timeout. Run.call (pure tt);
  open_policy = λ path. pure (1 ∷ []);
  decode_policy = λ file. ok vsp;
  parse_duration = λ text. ok 300;
  read_file = λ path. pure (2 ∷ []);
  new_cloud_kms_signer = λ name alg. pure (λ payload. pure attestation);
  new_pgp_signer = λ key passphrase. ok (λ payload. pure attestation);
}

main_runs : main names severity_value marshal calls flags true ≡ some (ok tt, true)
unfolding main mode_of check_image sign_checked check_note_name Split.split
    Vsp.validate_vulnz_signing_policy Vsp.check_vulnerability Vsp.severity_within_threshold
    Vsp.make_cve_allowlist_map Vsp.make_map Policy.collect Isp.fully_qualified_image Maps.lookup
    sign_image Signer.new_signer Signer.is_attestation_already_exist Signer.create_attestation
    Signer.upload_attestation get_or_create_attestation_note atomic_container_payload
    new_atomic_container_sig new_critical
main_runs = refl

main-Performed_example :
    (mode : Bool × Bool) × (mode_of "check-and-sign" ≡ ok mode)
    × Performed names severity_value marshal calls flags mode true
main-Performed_example = main-Performed names severity_value marshal calls flags true true main_runs

-- An event of a build: the two entries of its image, by name and by tag.
abbrev app_entry : BuiltImage
app_entry = record { name = "gcr.io/p/app"; digest = "sha256:ab" }

abbrev built : BuildEvent
built = record {
  id = "7";
  status = "SUCCESS";
  source = record {
    repo_name = "app";
    project_id = "p";
    branch_name = "main";
    tag_name = "";
    commit_sha = "c0ffee";
  };
  images = record { name = "gcr.io/p/app:latest"; digest = "sha256:ab" } ∷ app_entry ∷ [];
}

abbrev decode_event : Bytes → Result BuildEvent
decode_event [] = err (external "unexpected end of JSON input")
decode_event (x ∷ msg) = ok built

taken_from_built :
    extract_build_provenance_from_event decode_event (1 ∷ [])
    ≡ ok (some (provenance_of built app_entry ∷ []))
unfolding extract_build_provenance_from_event provenance_from contains
taken_from_built = refl

named_by_commit :
    (provenance_of built app_entry).built_from
    ≡ "https://source.developers.google.com/p/p/r/app@c0ffee"
unfolding source_suffix
named_by_commit = refl

extract-provenance_from_event_example :
    (event : BuildEvent) × (decode_event (1 ∷ []) ≡ ok event)
    × (event.status ≡ "SUCCESS")
    × Extracted event event.images (provenance_of built app_entry ∷ [])
extract-provenance_from_event_example =
    extract-provenance_from_event decode_event (1 ∷ []) (provenance_of built app_entry ∷ [])
      taken_from_built
