-- ===== src/Attest/Algorithms.antt =====
-- The signature algorithm of a key that `NewPublicKey` makes, as `checkHeader` reads it.
use kritis.Base.{String, ◌≡◌, sym, ap, ◌∙◌, inl, inr, arith, str_eq_iff}
use kritis.Base.Result.{ok, Result-cases}
use kritis.Metadata.{Bytes}
use kritis.Attest.{
  AuthenticatorType, SignatureAlgorithm, pgp, pgp_unused, PublicKey, JwtHeader, Libraries,
}
use kritis.Attest.Keys.{new_key, extract_pgp_key_id, new_key_id, new_public_key}
use kritis.Attest.Jwt.{get_alg_name, check_fields, check_header}

check_fields-eq-ok :
    (header : JwtHeader) (key : PublicKey)
    → check_fields header key ≡ ok tt
    → (header.crit ≡ "")
      × (header.typ ≡ "JWT")
      × (header.alg ≡ get_alg_name key.signature_algorithm)
      × (header.kid ≡ key.id)
unfolding check_fields
check_fields-eq-ok header key h = ground (
  arith,
  str_eq_iff header.crit "",
  str_eq_iff header.typ "JWT",
  str_eq_iff header.alg (get_alg_name key.signature_algorithm),
  str_eq_iff header.kid key.id,
)

module _ (libs : Libraries) where
  pub new_public_key-eq-ok :
      (t : AuthenticatorType) (alg : SignatureAlgorithm) (key_data : Bytes) (key_id : String)
      {key : PublicKey}
      → new_public_key libs t alg key_data key_id ≡ ok key
      → (id : String) × (new_key_id libs t alg key_data key_id ≡ ok id)
        × (new_key libs t key_data id ≡ key)
  unfolding new_public_key
  new_public_key-eq-ok t alg key_data key_id h =
      elim (Result-cases (new_key_id libs t alg key_data key_id)) [
        | inl (id, q) ↦ (id, q, cc (rw q at h))
        | inr (e, q) ↦ absurd (cc (rw q at h))
      ]

  pub new_key_id-pgp :
      (key_data : Bytes) (key_id id : String)
      → new_key_id libs pgp pgp_unused key_data key_id ≡ ok id
      → extract_pgp_key_id libs key_data ≡ ok id
  unfolding new_key_id
  new_key_id-pgp key_data key_id id h = elim (Result-cases (extract_pgp_key_id libs key_data)) [
    | inl (x, q) ↦ q ∙ rw (q, new_key_id) at h
    | inr (e, q) ↦ absurd (cc (rw (q, new_key_id) at h))
  ]

  check_header-eq-ok :
      (header_in : Bytes) (key : PublicKey)
      → check_header libs header_in key ≡ ok tt
      → (header : JwtHeader) × (libs.unmarshal_header header_in ≡ ok header)
        × (check_fields header key ≡ ok tt)
  unfolding check_header
  check_header-eq-ok header_in key h = elim (Result-cases (libs.unmarshal_header header_in)) [
    | inr (e, q) ↦ absurd (cc (rw q at h))
    | inl (header, q) ↦ (header, q, rw q at h)
  ]

  -- Whatever signature algorithm a key is made with, the key accepts no token header but one whose
  -- "alg" field reads "Algorithm Not Supported".
  pub new_public_key-check_header :
      (t : AuthenticatorType) (alg : SignatureAlgorithm) (key_data : Bytes) (key_id : String)
      (key : PublicKey) (header_in : Bytes)
      → new_public_key libs t alg key_data key_id ≡ ok key
      → check_header libs header_in key ≡ ok tt
      → (header : JwtHeader) × (libs.unmarshal_header header_in ≡ ok header)
        × (header.alg ≡ "Algorithm Not Supported")
  unfolding get_alg_name
  new_public_key-check_header t alg key_data key_id key header_in made accepted =
      let (id, q, e) = new_public_key-eq-ok t alg key_data key_id made in
      let (header, p, f) = check_header-eq-ok header_in key accepted in
      let (_, _, a, _) = check_fields-eq-ok header key f in
      (header, p, a ∙ ap (λ k. get_alg_name k.signature_algorithm) (sym e))
