-- ===== src/Payload/Checked.antt =====
-- The payload of an image and the check that a verifier makes of it.
use kritis.Base.{String, ◌≡◌, refl, subst, ◌↔◌, Bool, true, false, List, str_eq, str_eq_iff}
use kritis.Base.Result.{Error, Result, ok, require, ok-injective, ◌>>◌}
use kritis.Names.{Names, Digest}
use kritis.Metadata.{Bytes}
use kritis.Attest.{Libraries, PublicKey, AtomicContainerSig}
use kritis.Attest.Verifier.{
  Verifier, new_verifier, convert_authenticated_attestation, check_authenticated_attestation,
}
use kritis.Payload.{ContainerSig, new_critical, new_atomic_container_sig, atomic_container_payload}

-- What the decoder reads of an encoded signature.
abbrev pub decoded : ContainerSig → AtomicContainerSig
decoded acs = record {
  docker_reference = acs.critical.identity.docker_ref;
  docker_manifest_digest = acs.critical.image.digest;
  sig_type = acs.critical.critical_type;
}

-- JSON: an encoded signature is decoded.
abbrev pub Decodes : Libraries → (ContainerSig → Result Bytes) → Type 0
Decodes libs marshal =
    (acs : ContainerSig) (b : Bytes)
    → marshal acs ≡ ok b
    → libs.unmarshal_atomic b ≡ ok (decoded acs)

require_iff : (b : Bool) (e : Error) → (require b e ≡ ok tt) ↔ (b ≡ true)
require_iff true e = (λ h. refl, λ h. refl)
require_iff false e = (λ h. absurd (cc h), λ h. absurd (cc h))

both_required :
    (b c : Bool) (e f : Error) → ((require b e >> require c f) ≡ ok tt) ↔ ((b ≡ true) × (c ≡ true))
both_required true c e f = (λ h. (refl, (require_iff c f).0 h), λ h. (require_iff c f).1 h.1)
both_required false c e f = (λ h. absurd (cc h), λ h. absurd (cc h.0))

required_names :
    (a b c d : String) (e f : Error)
    → ((require (str_eq a b) e >> require (str_eq c d) f) ≡ ok tt) ↔ ((a ≡ b) × (c ≡ d))
required_names a b c d e f = (
  λ h.
      let tests = (both_required (str_eq a b) (str_eq c d) e f).0 h in
      ((str_eq_iff a b).0 tests.0, (str_eq_iff c d).0 tests.1),
  λ (p, q).
      (both_required (str_eq a b) (str_eq c d) e f).1 ((str_eq_iff a b).1 p, (str_eq_iff c d).1 q),
)

module _ {R : Type 0} (names : Names R) (libs : Libraries) (marshal : ContainerSig → Result Bytes)
    (decodes : Decodes libs marshal) where
  checked_iff :
      (acs : ContainerSig) (payload : Bytes) (name digest : String)
      → marshal acs ≡ ok payload
      → (check_authenticated_attestation libs payload name digest ≡ ok tt)
        ↔ ((acs.critical.identity.docker_ref ≡ name) × (acs.critical.image.digest ≡ digest))
  unfolding check_authenticated_attestation convert_authenticated_attestation
  checked_iff acs payload name digest m =
      rw (decodes acs payload m)
        (required_names acs.critical.identity.docker_ref name acs.critical.image.digest digest _ _)

  -- The payload of one image passes the check of the verifier for another exactly when the two have the
  -- same repository and the same digest.
  pub atomic_container_payload-check_iff :
      (image verified : String) (keys : List PublicKey) (d d' : Digest) (payload : Bytes)
      (v : Verifier)
      → names.new_digest_strict image ≡ ok d
      → names.new_digest_strict verified ≡ ok d'
      → atomic_container_payload names marshal image ≡ ok payload
      → new_verifier names verified keys ≡ ok v
      → (check_authenticated_attestation libs payload v.image_name v.image_digest ≡ ok tt)
        ↔ ((d.repository_name ≡ d'.repository_name) × (d.digest_str ≡ d'.digest_str))
  unfolding atomic_container_payload new_atomic_container_sig new_critical new_verifier
  atomic_container_payload-check_iff image verified keys d d' payload v e e' m n =
      subst
        (λ (u : Verifier).
          (check_authenticated_attestation libs payload u.image_name u.image_digest ≡ ok tt)
          ↔ ((d.repository_name ≡ d'.repository_name) × (d.digest_str ≡ d'.digest_str)))
        (ok-injective (rw e' at n))
        (checked_iff _ payload d'.repository_name d'.digest_str (rw e at m))
