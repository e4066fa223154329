-- ===== src/Attest/Jwt.antt =====
-- pkg/attestlib/jwt.go
use kritis.Base.{String, ◌≢◌, inl, inr, List, [], ◌∷◌, str_eq, split_on}
use kritis.Base.Result.{
  Result, ok, err, errorf, wrap, map_err, require, Done, Result-cases, ◌>>=◌, ◌>>◌,
}
use kritis.Metadata.{Bytes}
use kritis.Attest.{
  SignatureAlgorithm, unknown_signing_algorithm, rsa_pss_2048_sha256, rsa_pss_3072_sha256,
  rsa_pss_4096_sha256, rsa_pss_4096_sha512, rsa_sign_pkcs1_2048_sha256, rsa_sign_pkcs1_3072_sha256,
  rsa_sign_pkcs1_4096_sha256, rsa_sign_pkcs1_4096_sha512, ecdsa_p256_sha256, ecdsa_p384_sha384,
  ecdsa_p521_sha512, pgp_unused, PublicKey, JwtHeader, Libraries,
}

unfoldable pub get_alg_name : SignatureAlgorithm → String
get_alg_name rsa_pss_2048_sha256 = "PS256"
get_alg_name rsa_pss_3072_sha256 = "PS256"
get_alg_name rsa_pss_4096_sha256 = "PS256"
get_alg_name rsa_pss_4096_sha512 = "PS512"
get_alg_name rsa_sign_pkcs1_2048_sha256 = "RS256"
get_alg_name rsa_sign_pkcs1_3072_sha256 = "RS256"
get_alg_name rsa_sign_pkcs1_4096_sha256 = "RS256"
get_alg_name rsa_sign_pkcs1_4096_sha512 = "RS512"
get_alg_name ecdsa_p256_sha256 = "ES256"
get_alg_name ecdsa_p384_sha384 = "ES384"
get_alg_name ecdsa_p521_sha512 = "ES512"
get_alg_name unknown_signing_algorithm = "Algorithm Not Supported"
get_alg_name pgp_unused = "Algorithm Not Supported"

-- the fields of the header, once it is decoded
unfoldable pub check_fields : JwtHeader → PublicKey → Result Done
check_fields header public_key = do
  require (str_eq header.crit "") (errorf "crit field not supported" [])
  require (str_eq header.typ "JWT") (errorf "typ field invalid" [])
  require (str_eq header.alg (get_alg_name public_key.signature_algorithm))
      (errorf "alg field does not match the algorithm of the public key" [])
  require (str_eq header.kid public_key.id) (errorf "kid field does not match the public key ID" [])

module _ (libs : Libraries) where
  unfoldable pub check_header : Bytes → PublicKey → Result Done
  check_header header_in public_key = do
    header ← map_err (wrap "error unmarshaling json" []) (libs.unmarshal_header header_in)
    check_fields header public_key

  abbrev verify_parts : List Bytes → PublicKey → Result Bytes
  verify_parts (header_part ∷ payload_part ∷ signature_part ∷ []) public_key = do
    header ← map_err (wrap "cannot decode header" []) (libs.raw_url_decode header_part)
    map_err (wrap "invalid header" []) (check_header header public_key)
    -- the result of `verifyDetached` is dropped
    err (errorf "unimplemented" [])
  verify_parts _ public_key = err (errorf "invalid JWT" [])

  unfoldable pub verify_jwt : Bytes → PublicKey → Result Bytes
  verify_jwt signature public_key = verify_parts (split_on b'.' signature) public_key

  verify_parts-err :
      (parts : List Bytes) (key : PublicKey) (payload : Bytes) → verify_parts parts key ≢ ok payload
  verify_parts-err (a ∷ b ∷ c ∷ []) key payload h = elim (Result-cases (libs.raw_url_decode a)) [
    | inr (e, q) ↦ cc (rw q at h)
    | inl (header, q) ↦ elim (Result-cases (check_header header key)) [
      | inr (e, r) ↦ cc (rw (q, r) at h)
      | inl (_, r) ↦ cc (rw (q, r) at h)
    ]
  ]
  verify_parts-err [] key payload h = cc
  verify_parts-err (a ∷ []) key payload h = cc
  verify_parts-err (a ∷ b ∷ []) key payload h = cc
  verify_parts-err (a ∷ b ∷ c ∷ d ∷ ds) key payload h = cc

  pub verify_jwt-err :
      (signature : Bytes) (key : PublicKey) (payload : Bytes)
      → verify_jwt signature key ≢ ok payload
  unfolding verify_jwt
  verify_jwt-err signature key payload = verify_parts-err (split_on b'.' signature) key payload
