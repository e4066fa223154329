-- ===== src/Tests/Reviews.antt =====
-- The transport, the reviews and the webhook at concrete inputs.
use kritis.Base.{
  ℕ, String, ◌≡◌, ◌≢◌, refl, ◌↔◌, ◌⊎◌, inl, inr, Bool, true, false, Option, none, some, List, [],
  ◌∷◌, if◌then◌else◌, str_eq, is_empty, All, In, split_on, any, all, select, codes, push_front,
}
use kritis.Base.Maps.{lookup, insert}
use kritis.Base.Result.{Result, ok}
use kritis.Base.Exec.{pure}
use kritis.Resources.{Workload}
use kritis.Metadata.{Bytes}
use kritis.Allowlist.{image_name_pattern_match, image_in_gap_allowlist, split_gap_allowed_images}
use kritis.Policy.Isp.{image_in_allowlist, fully_qualified_image, validate_image_security_policy}
use kritis.Attest.{
  Libraries, PublicKey, JwtHeader, pgp, jwt, unknown_signing_algorithm, ecdsa_p256_sha256, Packet,
}
use kritis.Allowlist.{image_in_global_allowlist}
use kritis.Transport.{get_validated_attestations}
use kritis.Transport.Attested.{IsAttested, get_validated_attestations-IsAttested}
use kritis.Review.{Config}
use kritis.Review.Gap.{review_gap}
use kritis.Review.Gap.Verdict.{NamesAuthorities}
use kritis.Review.Gap.Admitted.{Admitted, review_gap-Admitted}
use kritis.Review.Isp.{review_isp}
use kritis.Review.Isp.Passed.{PassedBy, review_isp-PassedBy}
use kritis.Admission.{Kind}
use kritis.Admission.Review.{AdmissionConfig}
use kritis.Admission.Handler.{
  Request, Reply, admit_response, get_reviewer, deserialize_request, review_handler,
}
use kritis.Admission.{check_breakglass, workload_images}
use kritis.Admission.Review.{Response, review_workload, reviewed_pod}
use kritis.Admission.Reviewed.{Owned}
use kritis.Admission.Webhook.{Reached}
use kritis.Admission.Chain.{GapsHold, IspsHold, review_workload_sound}
use kritis.Admission.Webhook.{RequestAllowed, review_handler-RequestAllowed}
use kritis.Attest.Keys.{new_key_id, new_public_key}
use kritis.Attest.Verifier.{Verifier, verify_attestation}
use kritis.Tests.{names, libs, client, attestor, gap, isp, severity_value, auths, secret, images}

transport_runs :
    (get_validated_attestations libs attestor names client "app@sha256:1" true).0
    ≡ ok (record { attestor_name = "qa"; image = "app@sha256:1" } ∷ [])
unfolding kritis.Secrets.parse_key kritis.Secrets.parse_public_key kritis.Transport.parse_public_key
    kritis.Secrets.new_pgp_key kritis.Secrets.fingerprint kritis.Secrets.key_and_fingerprint
    kritis.Transport.validate_public_key_type kritis.Transport.validate_public_key_id
    kritis.Transport.validate_public_key kritis.Transport.parse_public_keys
    kritis.Transport.validated kritis.Transport.fetch_attestations kritis.Transport.validate_with
    kritis.Transport.get_validated_attestations kritis.Base.Maps.lookup kritis.Base.Maps.insert
    kritis.Attest.Pgp.finish kritis.Attest.Pgp.verify_pgp kritis.Attest.Verifier.index_from
    kritis.Attest.Verifier.index_public_keys_by_id kritis.Attest.Verifier.new_verifier
    kritis.Attest.Verifier.convert_authenticated_attestation
    kritis.Attest.Verifier.check_authenticated_attestation kritis.Attest.Verifier.verify_attestation
    kritis.Attest.Keys.sprintf_hex kritis.Attest.Keys.extract_pgp_key_id
    kritis.Attest.Keys.new_key_id kritis.Attest.Keys.new_public_key
transport_runs = refl

get_validated_attestations-IsAttested_example :
    IsAttested libs names client attestor "app@sha256:1" true
get_validated_attestations-IsAttested_example =
    get_validated_attestations-IsAttested libs names client attestor "app@sha256:1" true
      (record { attestor_name = "qa"; image = "app@sha256:1" }) [] transport_runs

abbrev config : Config Bool String
config = record {
  validate = validate_image_security_policy severity_value names;
  secret = secret;
  auths = auths;
  strategy = record {
    handle_violation = λ image pod violations. pure tt;
    handle_attestation = λ image pod attested. pure tt;
  };
  is_webhook = true;
}

gap_runs : (review_gap libs names config client (gap ∷ []) none images true).0 ≡ ok tt
unfolding kritis.Secrets.parse_key kritis.Secrets.parse_public_key kritis.Transport.parse_public_key
    kritis.Secrets.new_pgp_key kritis.Secrets.fingerprint kritis.Secrets.key_and_fingerprint
    kritis.Transport.validate_public_key_type kritis.Transport.validate_public_key_id
    kritis.Transport.validate_public_key kritis.Transport.parse_public_keys
    kritis.Transport.validated kritis.Transport.fetch_attestations kritis.Transport.validate_with
    kritis.Transport.get_validated_attestations kritis.Allowlist.image_name_pattern_match
    kritis.Allowlist.image_in_allowlist_by kritis.Allowlist.image_in_gap_allowlist
    kritis.Allowlist.split_allowed kritis.Allowlist.split_gap_allowed_images
    kritis.Allowlist.image_ref_match kritis.Allowlist.image_in_global_allowlist
    kritis.Allowlist.split_globally_allowed_images kritis.Base.Maps.lookup kritis.Base.Maps.insert
    kritis.Review.Gap.generate_gap_allowlist kritis.Review.Gap.is_attested_by
    kritis.Review.Gap.find_unsatisfied_auth_names kritis.Review.Gap.fetch_authorities
    kritis.Review.Gap.get_attestation_authorities_for_gap kritis.Review.Gap.review_image_with_gap
    kritis.Review.Gap.check_gaps kritis.Review.Gap.try_gaps kritis.Review.Gap.review_images
    kritis.Review.Gap.reject_bad kritis.Review.Gap.images_to_review kritis.Review.Gap.review_gap
    kritis.Attest.Pgp.finish kritis.Attest.Pgp.verify_pgp kritis.Attest.Verifier.index_from
    kritis.Attest.Verifier.index_public_keys_by_id kritis.Attest.Verifier.new_verifier
    kritis.Attest.Verifier.convert_authenticated_attestation
    kritis.Attest.Verifier.check_authenticated_attestation kritis.Attest.Verifier.verify_attestation
    kritis.Attest.Keys.sprintf_hex kritis.Attest.Keys.extract_pgp_key_id
    kritis.Attest.Keys.new_key_id kritis.Attest.Keys.new_public_key
gap_runs = refl

review_gap-Admitted_example :
    All NamesAuthorities (gap ∷ [])
    × ((image : String)
        → In image images
        → Admitted libs names config client (gap ∷ []) none true image)
review_gap-Admitted_example =
    review_gap-Admitted libs names config client (gap ∷ []) none images true (λ h. cc h) gap_runs

isp_runs :
    (review_isp libs names config client none ("app@sha256:1" ∷ []) (isp ∷ []) true).0 ≡ ok tt
unfolding kritis.Secrets.parse_key kritis.Secrets.parse_public_key kritis.Transport.parse_public_key
    kritis.Secrets.new_pgp_key kritis.Secrets.fingerprint kritis.Secrets.key_and_fingerprint
    kritis.Transport.validate_public_key_type kritis.Transport.validate_public_key_id
    kritis.Transport.validate_public_key kritis.Transport.parse_public_keys
    kritis.Transport.validated kritis.Transport.fetch_attestations kritis.Transport.validate_with
    kritis.Transport.get_validated_attestations kritis.Allowlist.image_name_pattern_match
    kritis.Allowlist.image_in_allowlist_by kritis.Allowlist.image_in_gap_allowlist
    kritis.Allowlist.split_allowed kritis.Allowlist.split_gap_allowed_images
    kritis.Allowlist.image_ref_match kritis.Allowlist.image_in_global_allowlist
    kritis.Allowlist.split_globally_allowed_images kritis.Policy.Isp.severity_within_threshold
    kritis.Policy.Isp.check_vulnerability kritis.Policy.Isp.fully_qualified_image
    kritis.Policy.Isp.image_in_allowlist kritis.Policy.Isp.cve_in_allowlist
    kritis.Policy.Isp.validate_image_security_policy kritis.Base.Maps.lookup kritis.Base.Maps.insert
    kritis.Review.Isp.review_images kritis.Review.Isp.get_or_create_attestation_note
    kritis.Review.Isp.get_attestation_authority_for_isp kritis.Review.Isp.handle_violations
    kritis.Review.Isp.add_attestation kritis.Review.Isp.validate kritis.Review.Isp.attest_if_webhook
    kritis.Review.Isp.is_attested kritis.Review.Isp.review_image kritis.Review.Isp.review_isps
    kritis.Review.Isp.review_isp kritis.Attest.Pgp.finish kritis.Attest.Pgp.verify_pgp
    kritis.Attest.Verifier.index_from kritis.Attest.Verifier.index_public_keys_by_id
    kritis.Attest.Verifier.new_verifier kritis.Attest.Verifier.convert_authenticated_attestation
    kritis.Attest.Verifier.check_authenticated_attestation kritis.Attest.Verifier.verify_attestation
    kritis.Attest.Keys.sprintf_hex kritis.Attest.Keys.extract_pgp_key_id
    kritis.Attest.Keys.new_key_id kritis.Attest.Keys.new_public_key kritis.Review.Gap.is_attested_by
isp_runs = refl

review_isp-PassedBy_example :
    (image_in_global_allowlist names "app@sha256:1" ≡ ok true)
    ⊎ All (PassedBy libs names config client none true "app@sha256:1") (isp ∷ [])
review_isp-PassedBy_example =
    review_isp-PassedBy libs names config client none ("app@sha256:1" ∷ []) (isp ∷ []) true isp_runs
      "app@sha256:1" (inl refl)

abbrev app : Workload
app = record {
  meta = record {
    name = "app";
    namespace = "default";
    annotations = none;
    labels = none;
    owner_references = none;
  };
  spec = record { init_containers = []; containers = record { image = "app@sha256:1" } ∷ [] };
}

abbrev admission : AdmissionConfig Bool String
admission = record {
  fetch_metadata_client = pure client;
  fetch_metadata_read_only_client = pure client;
  close = λ c w. w;
  fetch_generic_attestation_policies = λ ns. pure (gap ∷ []);
  fetch_image_security_policies = λ ns. pure (isp ∷ []);
  get_workload = λ kind ns name. pure app;
  reviewer = get_reviewer libs names severity_value secret auths;
}

abbrev unmarshal : Kind → Bytes → Result Workload
unmarshal kind object = ok app

abbrev request : Request
request = record { uid = "1"; kind = "Pod"; object = [] }

webhook_runs :
    (review_handler names admission unmarshal (ok (some request, none)) true).0
    ≡ ok (Reply.reviewed (admit_response request))
unfolding kritis.Secrets.parse_key kritis.Secrets.parse_public_key kritis.Transport.parse_public_key
    kritis.Secrets.new_pgp_key kritis.Secrets.fingerprint kritis.Secrets.key_and_fingerprint
    kritis.Policy.collect kritis.Admission.workload_images kritis.Admission.check_breakglass
    kritis.Admission.kind_of kritis.Admission.images_are_valid
    kritis.Admission.retrieve_owners_images kritis.Admission.check_each
    kritis.Admission.check_owners kritis.Transport.validate_public_key_type
    kritis.Transport.validate_public_key_id kritis.Transport.validate_public_key
    kritis.Transport.parse_public_keys kritis.Transport.validated
    kritis.Transport.fetch_attestations kritis.Transport.validate_with
    kritis.Transport.get_validated_attestations kritis.Allowlist.image_name_pattern_match
    kritis.Allowlist.image_in_allowlist_by kritis.Allowlist.image_in_gap_allowlist
    kritis.Allowlist.split_allowed kritis.Allowlist.split_gap_allowed_images
    kritis.Allowlist.image_ref_match kritis.Allowlist.image_in_global_allowlist
    kritis.Allowlist.split_globally_allowed_images kritis.Policy.Isp.severity_within_threshold
    kritis.Policy.Isp.check_vulnerability kritis.Policy.Isp.fully_qualified_image
    kritis.Policy.Isp.image_in_allowlist kritis.Policy.Isp.cve_in_allowlist
    kritis.Policy.Isp.validate_image_security_policy kritis.Base.Maps.lookup kritis.Base.Maps.insert
    kritis.Review.Gap.generate_gap_allowlist kritis.Review.Gap.is_attested_by
    kritis.Review.Gap.find_unsatisfied_auth_names kritis.Review.Gap.fetch_authorities
    kritis.Review.Gap.get_attestation_authorities_for_gap kritis.Review.Gap.review_image_with_gap
    kritis.Review.Gap.check_gaps kritis.Review.Gap.try_gaps kritis.Review.Gap.review_images
    kritis.Review.Isp.review_images kritis.Admission.Review.review_images
    kritis.Review.Gap.reject_bad kritis.Review.Gap.images_to_review kritis.Review.Gap.review_gap
    kritis.Review.Isp.get_or_create_attestation_note
    kritis.Review.Isp.get_attestation_authority_for_isp kritis.Review.Isp.handle_violations
    kritis.Review.Isp.add_attestation kritis.Review.Isp.validate kritis.Review.Isp.attest_if_webhook
    kritis.Review.Isp.is_attested kritis.Review.Isp.review_image kritis.Review.Isp.review_isps
    kritis.Admission.Review.review_isps kritis.Review.Isp.review_isp kritis.Attest.Pgp.finish
    kritis.Attest.Pgp.verify_pgp kritis.Attest.Verifier.index_from
    kritis.Attest.Verifier.index_public_keys_by_id kritis.Attest.Verifier.new_verifier
    kritis.Attest.Verifier.convert_authenticated_attestation
    kritis.Attest.Verifier.check_authenticated_attestation kritis.Attest.Verifier.verify_attestation
    kritis.Attest.Keys.sprintf_hex kritis.Attest.Keys.extract_pgp_key_id
    kritis.Attest.Keys.new_key_id kritis.Attest.Keys.new_public_key
    kritis.Admission.Handler.logging_strategy kritis.Admission.Handler.reviewer_config
    kritis.Admission.Handler.get_reviewer kritis.Admission.Handler.deserialize_request
    kritis.Admission.Handler.dispatch kritis.Admission.Handler.answer
    kritis.Admission.Handler.review_handler kritis.Admission.Review.create_denied_response
    kritis.Admission.Review.review_with kritis.Admission.Review.review_generic_attestation_policy
    kritis.Admission.Review.review_image_security_policy kritis.Admission.Review.review_workload
webhook_runs = refl

review_handler-RequestAllowed_example :
    (r : Request) × ((deserialize_request (ok (some request, none))).1 ≡ ok r)
    × RequestAllowed names admission unmarshal true r
review_handler-RequestAllowed_example =
    review_handler-RequestAllowed names admission unmarshal (ok (some request, none)) true
      (Reply.reviewed (admit_response request)) webhook_runs refl

abbrev fresh : Response
fresh = admit_response request

pod_allowed : (review_workload names admission Kind.pod app fresh true).0 ≡ ok fresh
unfolding kritis.Secrets.parse_key kritis.Secrets.parse_public_key kritis.Transport.parse_public_key
    kritis.Secrets.new_pgp_key kritis.Secrets.fingerprint kritis.Secrets.key_and_fingerprint
    kritis.Policy.collect kritis.Admission.workload_images kritis.Admission.check_breakglass
    kritis.Admission.kind_of kritis.Admission.images_are_valid
    kritis.Admission.retrieve_owners_images kritis.Admission.check_each
    kritis.Admission.check_owners kritis.Transport.validate_public_key_type
    kritis.Transport.validate_public_key_id kritis.Transport.validate_public_key
    kritis.Transport.parse_public_keys kritis.Transport.validated
    kritis.Transport.fetch_attestations kritis.Transport.validate_with
    kritis.Transport.get_validated_attestations kritis.Allowlist.image_name_pattern_match
    kritis.Allowlist.image_in_allowlist_by kritis.Allowlist.image_in_gap_allowlist
    kritis.Allowlist.split_allowed kritis.Allowlist.split_gap_allowed_images
    kritis.Allowlist.image_ref_match kritis.Allowlist.image_in_global_allowlist
    kritis.Allowlist.split_globally_allowed_images kritis.Policy.Isp.severity_within_threshold
    kritis.Policy.Isp.check_vulnerability kritis.Policy.Isp.fully_qualified_image
    kritis.Policy.Isp.image_in_allowlist kritis.Policy.Isp.cve_in_allowlist
    kritis.Policy.Isp.validate_image_security_policy kritis.Base.Maps.lookup kritis.Base.Maps.insert
    kritis.Review.Gap.generate_gap_allowlist kritis.Review.Gap.is_attested_by
    kritis.Review.Gap.find_unsatisfied_auth_names kritis.Review.Gap.fetch_authorities
    kritis.Review.Gap.get_attestation_authorities_for_gap kritis.Review.Gap.review_image_with_gap
    kritis.Review.Gap.check_gaps kritis.Review.Gap.try_gaps kritis.Review.Gap.review_images
    kritis.Review.Isp.review_images kritis.Admission.Review.review_images
    kritis.Review.Gap.reject_bad kritis.Review.Gap.images_to_review kritis.Review.Gap.review_gap
    kritis.Review.Isp.get_or_create_attestation_note
    kritis.Review.Isp.get_attestation_authority_for_isp kritis.Review.Isp.handle_violations
    kritis.Review.Isp.add_attestation kritis.Review.Isp.validate kritis.Review.Isp.attest_if_webhook
    kritis.Review.Isp.is_attested kritis.Review.Isp.review_image kritis.Review.Isp.review_isps
    kritis.Admission.Review.review_isps kritis.Review.Isp.review_isp kritis.Attest.Pgp.finish
    kritis.Attest.Pgp.verify_pgp kritis.Attest.Verifier.index_from
    kritis.Attest.Verifier.index_public_keys_by_id kritis.Attest.Verifier.new_verifier
    kritis.Attest.Verifier.convert_authenticated_attestation
    kritis.Attest.Verifier.check_authenticated_attestation kritis.Attest.Verifier.verify_attestation
    kritis.Attest.Keys.sprintf_hex kritis.Attest.Keys.extract_pgp_key_id
    kritis.Attest.Keys.new_key_id kritis.Attest.Keys.new_public_key
    kritis.Admission.Handler.logging_strategy kritis.Admission.Handler.reviewer_config
    kritis.Admission.Handler.get_reviewer kritis.Admission.Handler.deserialize_request
    kritis.Admission.Handler.dispatch kritis.Admission.Handler.answer
    kritis.Admission.Handler.review_handler kritis.Admission.Review.create_denied_response
    kritis.Admission.Review.review_with kritis.Admission.Review.review_generic_attestation_policy
    kritis.Admission.Review.review_image_security_policy kritis.Admission.Review.review_workload
pod_allowed = refl

review_workload_sound_example :
    Owned names admission (Reached admission true) (workload_images app) app.meta
    ⊎ (check_breakglass app.meta ≡ true)
    ⊎ (GapsHold libs names severity_value secret auths admission true
          (workload_images app)
          app.meta.namespace
          (reviewed_pod Kind.pod app)
        × IspsHold libs names severity_value secret auths admission true
            (workload_images app)
            app.meta.namespace
            (reviewed_pod Kind.pod app))
review_workload_sound_example =
    review_workload_sound libs names severity_value secret auths admission Kind.pod app fresh fresh
      true refl pod_allowed refl
