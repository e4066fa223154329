-- ===== src/Attest/Soundness.antt =====
-- What an accepted attestation proves.
use kritis.Base.{
  String, ◌≡◌, refl, sym, ap, ◌∙◌, ◌↔◌, ◌⊎◌, inl, inr, some, List, [], ◌∷◌, Bool-cases,
  Option-cases, str_eq, str_eq_iff, In,
}
use kritis.Base.Maps.{lookup, insert, lookup-insert, lookup-nil}
use kritis.Base.Result.{ok, Result-cases}
use kritis.Metadata.{Bytes, Attestation}
use kritis.Attest.{
  AuthenticatorType, unknown_authenticator_type, pgp, pkix, jwt, PublicKey, Libraries,
}
use kritis.Attest.Pgp.{IsSigned, verify_pgp-IsSigned, IsSigned-verify_pgp}
use kritis.Attest.Jwt.{verify_jwt-err}
use kritis.Attest.Verifier.{
  Verifier, index_from, index_public_keys_by_id, convert_authenticated_attestation,
  check_authenticated_attestation, signed_payload, verify_attestation, NamesImage,
}

-- A signature over the payload by a listed PGP key, and the image of the verifier in the payload.
pub record IsVerified (libs : Libraries) (v : Verifier) (att : Attestation) : Type 0 where
  pub key : PublicKey
  pub payload : Bytes
  pub listed : lookup att.public_key_id v.public_keys ≡ some key
  pub is_pgp : key.authenticator_type ≡ pgp
  pub signed : IsSigned libs att.signature key.key_data payload
  pub names_image : NamesImage libs v payload

module _ (libs : Libraries) (v : Verifier) where
  check-NamesImage :
      (payload : Bytes)
      → check_authenticated_attestation libs payload v.image_name v.image_digest ≡ ok tt
      → NamesImage libs v payload
  unfolding check_authenticated_attestation convert_authenticated_attestation
  check-NamesImage payload h = elim (Result-cases (libs.unmarshal_atomic payload)) [
    | inr (e, q) ↦ absurd (cc (rw q at h))
    | inl (s, q) ↦ elim (Bool-cases (str_eq s.docker_reference v.image_name)) [
      | inr n ↦ absurd (cc (rw (q, n) at h))
      | inl n ↦ elim (Bool-cases (str_eq s.docker_manifest_digest v.image_digest)) [
        | inr d ↦ absurd (cc (rw (q, n, d) at h))
        | inl d ↦ record {
          atomic_sig = s;
          parsed = q;
          name_matches = (str_eq_iff _ _).0 n;
          digest_matches = (str_eq_iff _ _).0 d;
        }
      ]
    ]
  ]

  NamesImage-check :
      (payload : Bytes)
      → NamesImage libs v payload
      → check_authenticated_attestation libs payload v.image_name v.image_digest ≡ ok tt
  unfolding check_authenticated_attestation convert_authenticated_attestation
  NamesImage-check payload n =
      rw (n.parsed, (str_eq_iff _ _).1 n.name_matches, (str_eq_iff _ _).1 n.digest_matches)

  payload-is_pgp :
      (t : AuthenticatorType) (key : PublicKey) (att : Attestation) (payload : Bytes)
      → signed_payload libs t key att ≡ ok payload
      → (t ≡ pgp) × IsSigned libs att.signature key.key_data payload
  payload-is_pgp unknown_authenticator_type key att payload h = cc
  payload-is_pgp pgp key att payload h = (refl, verify_pgp-IsSigned libs _ _ payload h)
  payload-is_pgp pkix key att payload h = cc
  payload-is_pgp jwt key att payload h = absurd (verify_jwt-err libs att.signature key payload h)

  verify-IsVerified :
      (att : Attestation) → verify_attestation libs v att ≡ ok tt → IsVerified libs v att
  unfolding verify_attestation
  verify-IsVerified att h = elim (Option-cases (lookup att.public_key_id v.public_keys)) [
    | inl l ↦ absurd (cc (rw l at h))
    | inr (key, l) ↦ elim (Result-cases (signed_payload libs key.authenticator_type key att)) [
      | inr (e, q) ↦ absurd (cc (rw (l, q) at h))
      | inl (payload, q) ↦
          let (is_pgp, signed) = payload-is_pgp key.authenticator_type key att payload q in
          record {
            key = key;
            payload = payload;
            listed = l;
            is_pgp = is_pgp;
            signed = signed;
            names_image = check-NamesImage payload (rw (l, q) at h);
          }
    ]
  ]

  -- An attestation is accepted exactly when its key ID names a listed PGP key, the signature that
  -- it carries verifies with that key over a payload, and the payload names the image of the
  -- verifier by name and by digest. So no PKIX or JWT key verifies anything.
  pub verify_attestation_iff :
      (att : Attestation) → (verify_attestation libs v att ≡ ok tt) ↔ IsVerified libs v att
  unfolding verify_attestation
  verify_attestation_iff att = (
    verify-IsVerified att,
    λ s. rw (s.listed) (
        simp (s.is_pgp, IsSigned-verify_pgp libs _ _ _ s.signed)
          (NamesImage-check s.payload s.names_image)),
  )

index_from-lookup :
    (key_map : List (String × PublicKey)) (keys : List PublicKey) (id : String) (key : PublicKey)
    → lookup id (index_from key_map keys) ≡ some key
    → (In key keys × (key.id ≡ id)) ⊎ (lookup id key_map ≡ some key)
unfolding index_from
index_from-lookup m [] id key h = inr h
index_from-lookup m (k ∷ keys) id key h = elim (index_from-lookup (insert k.id k m) keys id key h) [
  | inl (i, e) ↦ inl (inr i, e)
  | inr l ↦ elim (Bool-cases (str_eq k.id id)) [
    | inl e ↦
        let same : k ≡ key = cc (rw (lookup-insert, e) at l) in
        inl (inl same, ap (λ x. x.id) (sym same) ∙ (str_eq_iff _ _).0 e)
    | inr ne ↦ inr (rw (lookup-insert, ne) at l)
  ]
]

-- The index holds only keys of the set, each under its own ID.
pub index-lookup :
    (keys : List PublicKey) (id : String) (key : PublicKey)
    → lookup id (index_public_keys_by_id keys) ≡ some key
    → In key keys × (key.id ≡ id)
unfolding index_public_keys_by_id
index-lookup keys id key h = elim (index_from-lookup [] keys id key h) [
  | inl found ↦ found
  | inr l ↦ absurd (cc (l, lookup-nil {A = PublicKey} id))
]
