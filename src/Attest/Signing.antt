-- ===== src/Attest/Signing.antt =====
-- The signers of pkg/attestlib (signer.go, pkix.go, pkix_key.go, rsa_sign.go, ec_sign.go, pgp.go) and
-- `verifyDetached` (verify_detached.go), over the crypto packages of Go, which are parameters.
pub mod Detached
pub mod PgpSigner
use kritis.Base.{
  ℕ, String, ◌+++◌, Bool, true, false, Option, none, some, List, [], ◌∷◌, is_empty, str_eq,
  if◌then◌else◌,
}
use kritis.Base.Result
use kritis.Base.Result.{Result, ok, err, errorf, wrap, panicked, map_err, require, Done}
use kritis.Base.Exec.{Exec, ◌>>=◌, ◌>>◌, pure, raise, lift, wrapping}
use kritis.Metadata.{Bytes, Attestation}
use kritis.Attest.{
  SignatureAlgorithm, unknown_signing_algorithm, rsa_pss_2048_sha256, rsa_pss_3072_sha256,
  rsa_pss_4096_sha256, rsa_pss_4096_sha512, rsa_sign_pkcs1_2048_sha256, rsa_sign_pkcs1_3072_sha256,
  rsa_sign_pkcs1_4096_sha256, rsa_sign_pkcs1_4096_sha512, ecdsa_p256_sha256, ecdsa_p384_sha384,
  ecdsa_p521_sha512, pgp_unused,
}

-- `crypto.Hash`, the values that the code uses
pub data CryptoHash : Type 0 where
  sha256 sha384 sha512 : CryptoHash

-- A public key, as the type switches of the code tell keys apart; the bytes are its material.
pub data PkixPublic : Type 0 where
  rsa_public ecdsa_public : Bytes → PkixPublic
  other_public : PkixPublic

-- A private key, with the material of its public key and its own.
pub data PkixPrivate : Type 0 where
  rsa_private ecdsa_private : Bytes → Bytes → PkixPrivate
  other_private : PkixPrivate

-- What the code calls of the packages crypto, encoding and x509, with `Z` for `*big.Int`. Signing
-- reads random bytes, which stand in the world.
pub record Crypto (W Z : Type 0) : Type 0 where
  pub sum256 : Bytes → Bytes
  pub sum384 : Bytes → Bytes
  pub sum512 : Bytes → Bytes
  -- `pem.Decode`: the bytes of the block, if there is one, and the rest
  pub pem_decode : Bytes → Option Bytes × Bytes
  pub parse_pkix_public_key : Bytes → Result PkixPublic
  pub parse_pkcs8_private_key : Bytes → Result PkixPrivate
  pub marshal_pkix_public_key : PkixPublic → Result Bytes
  pub raw_url_encode : Bytes → String
  pub sign_pkcs1v15 : Bytes → CryptoHash → Bytes → Exec W Bytes
  pub sign_pss : Bytes → CryptoHash → Bytes → Exec W Bytes
  pub ecdsa_sign : Bytes → Bytes → Exec W (Z × Z)
  pub verify_pkcs1v15 : Bytes → CryptoHash → Bytes → Bytes → Result Done
  pub verify_pss : Bytes → CryptoHash → Bytes → Bytes → Result Done
  pub ecdsa_verify : Bytes → Bytes → Z × Z → Bool
  pub asn1_marshal : Z × Z → Result Bytes
  pub asn1_unmarshal : Bytes → Result (Z × Z)

-- The cases of the switches on the signature algorithm.
pub data Scheme : Type 0 where
  pkcs1v15 pss ecdsa no_scheme : Scheme

abbrev pub scheme_of : SignatureAlgorithm → Scheme
scheme_of rsa_sign_pkcs1_2048_sha256 = pkcs1v15
scheme_of rsa_sign_pkcs1_3072_sha256 = pkcs1v15
scheme_of rsa_sign_pkcs1_4096_sha256 = pkcs1v15
scheme_of rsa_sign_pkcs1_4096_sha512 = pkcs1v15
scheme_of rsa_pss_2048_sha256 = pss
scheme_of rsa_pss_3072_sha256 = pss
scheme_of rsa_pss_4096_sha256 = pss
scheme_of rsa_pss_4096_sha512 = pss
scheme_of ecdsa_p256_sha256 = ecdsa
scheme_of ecdsa_p384_sha384 = ecdsa
scheme_of ecdsa_p521_sha512 = ecdsa
scheme_of unknown_signing_algorithm = no_scheme
scheme_of pgp_unused = no_scheme

module _ {W Z : Type 0} (crypto : Crypto W Z) where
  unfoldable pub hash_payload : Bytes → SignatureAlgorithm → Result (CryptoHash × Bytes)
  hash_payload payload rsa_sign_pkcs1_2048_sha256 = ok (sha256, crypto.sum256 payload)
  hash_payload payload rsa_sign_pkcs1_3072_sha256 = ok (sha256, crypto.sum256 payload)
  hash_payload payload rsa_sign_pkcs1_4096_sha256 = ok (sha256, crypto.sum256 payload)
  hash_payload payload rsa_pss_2048_sha256 = ok (sha256, crypto.sum256 payload)
  hash_payload payload rsa_pss_3072_sha256 = ok (sha256, crypto.sum256 payload)
  hash_payload payload rsa_pss_4096_sha256 = ok (sha256, crypto.sum256 payload)
  hash_payload payload ecdsa_p256_sha256 = ok (sha256, crypto.sum256 payload)
  hash_payload payload ecdsa_p384_sha384 = ok (sha384, crypto.sum384 payload)
  hash_payload payload rsa_sign_pkcs1_4096_sha512 = ok (sha512, crypto.sum512 payload)
  hash_payload payload rsa_pss_4096_sha512 = ok (sha512, crypto.sum512 payload)
  hash_payload payload ecdsa_p521_sha512 = ok (sha512, crypto.sum512 payload)
  hash_payload payload unknown_signing_algorithm = err (errorf "invalid signature algorithm" [])
  hash_payload payload pgp_unused = err (errorf "invalid signature algorithm" [])

  -- `pub.(*rsa.PublicKey)`, with the error of the failed assertion
  abbrev pub as_rsa_public : String → PkixPublic → Result Bytes
  as_rsa_public message (rsa_public key) = ok key
  as_rsa_public message (ecdsa_public key) = err (errorf message [])
  as_rsa_public message other_public = err (errorf message [])

  abbrev pub as_ecdsa_public : PkixPublic → Result Bytes
  as_ecdsa_public (rsa_public key) = err (errorf "expected ecdsa key" [])
  as_ecdsa_public (ecdsa_public key) = ok key
  as_ecdsa_public other_public = err (errorf "expected ecdsa key" [])

  abbrev pub verify_ecdsa : Bytes → Bytes → SignatureAlgorithm → Bytes → Result Done
  verify_ecdsa signature ec_key signing_alg payload =
      Result.◌>>=◌ (crypto.asn1_unmarshal signature) (λ sig_struct.
        Result.◌>>=◌ (hash_payload payload signing_alg) (λ hashed.
          require (crypto.ecdsa_verify ec_key hashed.1 sig_struct)
            (errorf "failed to verify ecdsa signature" [])))

  -- The switch on the algorithm, with the parsed key.
  abbrev pub verify_scheme : Scheme → Bytes → PkixPublic → SignatureAlgorithm → Bytes → Result Done
  verify_scheme pkcs1v15 signature key signing_alg payload =
      Result.◌>>=◌ (as_rsa_public "expected rsa key" key) (λ rsa_key.
        Result.◌>>=◌ (hash_payload payload signing_alg)
          (λ hashed. crypto.verify_pkcs1v15 rsa_key hashed.0 hashed.1 signature))
  verify_scheme pss signature key signing_alg payload =
      Result.◌>>=◌ (as_rsa_public "expected ecdsa key" key) (λ rsa_key.
        Result.◌>>=◌ (hash_payload payload signing_alg)
          (λ hashed. crypto.verify_pss rsa_key hashed.0 hashed.1 signature))
  verify_scheme ecdsa signature key signing_alg payload =
      Result.◌>>=◌ (as_ecdsa_public key)
        (λ ec_key. verify_ecdsa signature ec_key signing_alg payload)
  verify_scheme no_scheme signature key signing_alg payload =
      err (errorf "signature algorithm not supported" [])

  abbrev pub parse_public_pem : Option Bytes × Bytes → Result PkixPublic
  parse_public_pem (none, rest) = err (errorf "failed to decode PEM" [])
  parse_public_pem (some der, rest) =
      if is_empty rest
      then crypto.parse_pkix_public_key der
      else err (errorf "more than one public key given" [])

  unfoldable pub verify_detached : Bytes → Bytes → SignatureAlgorithm → Bytes → Result Done
  verify_detached signature public_key signing_alg payload =
      Result.◌>>=◌ (parse_public_pem (crypto.pem_decode public_key))
        (λ key. verify_scheme (scheme_of signing_alg) signature key signing_alg payload)

  abbrev pub hashed_for : Bytes → SignatureAlgorithm → Exec W (CryptoHash × Bytes)
  hashed_for payload alg = wrapping (wrap "hash payload error" []) (lift (hash_payload payload alg))

  -- `rsaSign`, by the case of its switch
  abbrev pub rsa_sign : Scheme → Bytes → Bytes → SignatureAlgorithm → Exec W Bytes
  rsa_sign pkcs1v15 private_key payload alg = do
    (hash, hashed_payload) ← hashed_for payload alg
    crypto.sign_pkcs1v15 private_key hash hashed_payload
  rsa_sign pss private_key payload alg = do
    (hash, hashed_payload) ← hashed_for payload alg
    crypto.sign_pss private_key hash hashed_payload
  rsa_sign ecdsa private_key payload alg =
      raise (errorf "expected rsa signature algorithm, got %v" [])
  rsa_sign no_scheme private_key payload alg =
      raise (errorf "expected rsa signature algorithm, got %v" [])

  -- `ecSign`
  abbrev pub ec_sign : Scheme → Bytes → Bytes → SignatureAlgorithm → Exec W Bytes
  ec_sign ecdsa private_key payload alg = do
    (hash, hashed_payload) ← hashed_for payload alg
    sig_struct ←
        wrapping (wrap "error creating ecdsa signature" [])
          (crypto.ecdsa_sign private_key hashed_payload)
    lift (crypto.asn1_marshal sig_struct)
  ec_sign pkcs1v15 private_key payload alg =
      raise (errorf "expected ecdsa signature algorithm, got %v" [])
  ec_sign pss private_key payload alg =
      raise (errorf "expected ecdsa signature algorithm, got %v" [])
  ec_sign no_scheme private_key payload alg =
      raise (errorf "expected ecdsa signature algorithm, got %v" [])

  -- `parsePkixPrivateKeyPem`: without a block, the nil block is dereferenced.
  abbrev pub parse_private_pem : Option Bytes × Bytes → Result PkixPrivate
  parse_private_pem (der, rest) =
      if is_empty rest
      then (elim der [ none ↦ err panicked | some bytes ↦ crypto.parse_pkcs8_private_key bytes ])
      else err (errorf "expected one public key" [])

  unfoldable pub parse_pkix_private_key_pem : Bytes → Result PkixPrivate
  parse_pkix_private_key_pem private_key = parse_private_pem (crypto.pem_decode private_key)

  abbrev pub key_id_of : String → PkixPublic → Result String
  key_id_of message key =
      Result.◌>>=◌ (map_err (wrap message []) (crypto.marshal_pkix_public_key key))
        (λ material. ok ("ni:///sha-256;" +++ crypto.raw_url_encode (crypto.sum256 material)))

  unfoldable pub generate_pkix_public_key_id : PkixPrivate → Result String
  generate_pkix_public_key_id (rsa_private public private) =
      key_id_of "marshal rsa public key error" (rsa_public public)
  generate_pkix_public_key_id (ecdsa_private public private) =
      key_id_of "marshal ecdsa public key error" (ecdsa_public public)
  generate_pkix_public_key_id other_private = err (errorf "unexpected key type" [])

-- `pkixSigner`
pub record PkixSigner : Type 0 where
  pub private_key : PkixPrivate
  pub public_key_id : String
  pub signature_algorithm : SignatureAlgorithm

-- `jwtSigner`
pub record JwtSigner : Type 0 where
  pub private_key : Bytes
  pub public_key_id : String
  pub signature_algorithm : SignatureAlgorithm

-- `NewJwtSigner` and its `CreateAttestation`
abbrev pub new_jwt_signer : Bytes → String → SignatureAlgorithm → Result JwtSigner
new_jwt_signer private_key public_key_id alg =
    ok (record {
      private_key = private_key;
      public_key_id = public_key_id;
      signature_algorithm = alg;
    })

abbrev pub jwt_create_attestation : JwtSigner → Bytes → Result Attestation
jwt_create_attestation s payload = err (errorf "jwt attestations not implemented" [])

module _ {W Z : Type 0} (crypto : Crypto W Z) where
  unfoldable pub new_pkix_signer : Bytes → SignatureAlgorithm → String → Result PkixSigner
  new_pkix_signer private_key alg public_key_id =
      Result.◌>>=◌
        (map_err (wrap "error parsing private key" [])
          (parse_pkix_private_key_pem crypto private_key))
        (λ key.
          Result.◌>>=◌
            (if str_eq public_key_id ""
              then map_err (wrap "error generating public key id" [])
                  (generate_pkix_public_key_id crypto key)
              else ok public_key_id)
            (λ id.
              ok (record { private_key = key; public_key_id = id; signature_algorithm = alg })))

  abbrev pub as_rsa_private : PkixPrivate → Exec W Bytes
  as_rsa_private (rsa_private public private) = pure private
  as_rsa_private (ecdsa_private public private) = raise (errorf "expected rsa key" [])
  as_rsa_private other_private = raise (errorf "expected rsa key" [])

  abbrev pub as_ecdsa_private : PkixPrivate → Exec W Bytes
  as_ecdsa_private (rsa_private public private) = raise (errorf "expected ecdsa key" [])
  as_ecdsa_private (ecdsa_private public private) = pure private
  as_ecdsa_private other_private = raise (errorf "expected ecdsa key" [])

  abbrev pub sign_rsa_scheme : PkixSigner → Bytes → Exec W Bytes
  sign_rsa_scheme s payload = do
    rsa_key ← as_rsa_private s.private_key
    wrapping (wrap "error creating rsa signature" [])
        (rsa_sign crypto (scheme_of s.signature_algorithm) rsa_key payload s.signature_algorithm)

  -- The switch on the algorithm of a signer.
  abbrev pub sign_scheme : Scheme → PkixSigner → Bytes → Exec W Bytes
  sign_scheme pkcs1v15 s payload = sign_rsa_scheme s payload
  sign_scheme pss s payload = sign_rsa_scheme s payload
  sign_scheme ecdsa s payload = do
    ec_key ← as_ecdsa_private s.private_key
    wrapping (wrap "error creating ecdsa signature" [])
        (ec_sign crypto (scheme_of s.signature_algorithm) ec_key payload s.signature_algorithm)
  sign_scheme no_scheme s payload = raise (errorf "unknown signature algorithm: %v" [])

  unfoldable pub create_attestation : PkixSigner → Bytes → Exec W Attestation
  create_attestation s payload = do
    signature ← sign_scheme (scheme_of s.signature_algorithm) s payload
    pure (record {
      public_key_id = s.public_key_id;
      signature = signature;
      serialized_payload = payload;
    })
