-- ===== src/Attest.antt =====
-- pkg/attestlib: the keys, the attestations and what the code uses of other libraries.
pub mod Pgp
pub mod Keys
pub mod Jwt
pub mod Verifier
pub mod Soundness
pub mod Algorithms
pub mod Signing
use kritis.Base.{ℕ, String, Bool, Option, List}
use kritis.Base.Result.{Error, Result, Done}
use kritis.Metadata.{Bytes}

-- `AuthenticatorType`
pub data AuthenticatorType : Type 0 where
  unknown_authenticator_type pgp pkix jwt : AuthenticatorType

-- `SignatureAlgorithm`
pub data SignatureAlgorithm : Type 0 where
  unknown_signing_algorithm : SignatureAlgorithm
  rsa_pss_2048_sha256 rsa_pss_3072_sha256 rsa_pss_4096_sha256 : SignatureAlgorithm
  rsa_pss_4096_sha512 : SignatureAlgorithm
  rsa_sign_pkcs1_2048_sha256 rsa_sign_pkcs1_3072_sha256 : SignatureAlgorithm
  rsa_sign_pkcs1_4096_sha256 rsa_sign_pkcs1_4096_sha512 : SignatureAlgorithm
  ecdsa_p256_sha256 ecdsa_p384_sha384 ecdsa_p521_sha512 : SignatureAlgorithm
  pgp_unused : SignatureAlgorithm

-- `PublicKey` of pkg/attestlib
pub record PublicKey : Type 0 where
  pub authenticator_type : AuthenticatorType
  pub signature_algorithm : SignatureAlgorithm
  pub key_data : Bytes
  pub id : String

-- A key of an `openpgp.EntityList`: the fingerprint of its primary key, and the rest of it.
pub record Entity : Type 0 where
  pub fingerprint : Bytes
  pub material : Bytes

-- `armor.Block`
pub record Block : Type 0 where
  pub block_type : String
  pub body : Bytes

-- `packet.Packet`, as the type switches of the code tell packets apart
pub data Packet : Type 0 where
  -- a public key, with its fingerprint
  public_key : Bytes → Packet
  -- a private key
  private_key : Bytes → Packet
  other_packet : Packet

-- `openpgp.MessageDetails`, read to its end: what reading the body gave, and the fields that it set
pub record MessageDetails : Type 0 where
  pub unverified_body : Result Bytes
  pub signature_error : Option Error
  pub has_signature : Bool

-- `atomicContainerSig`, without the optional map that no check reads
pub record AtomicContainerSig : Type 0 where
  pub docker_reference : String
  pub docker_manifest_digest : String
  pub sig_type : String

-- `headerTemplate` of `checkHeader`
pub record JwtHeader : Type 0 where
  pub typ : String
  pub alg : String
  pub kid : String
  pub crit : String

-- What the code calls of golang.org/x/crypto/openpgp, and of the decoders of JSON, base64 and URLs.
pub record Libraries : Type 0 where
  -- `openpgp.ReadArmoredKeyRing`
  pub read_armored_key_ring : Bytes → Result (List Entity)
  -- `armor.Decode`
  pub armor_decode : Bytes → Result Block
  -- `packet.NewReader(body).Next()`
  pub next_packet : Bytes → Result Packet
  -- `(*packet.PrivateKey).Decrypt`: the key after the call
  pub decrypt : Bytes → Bytes → Result Bytes
  -- `openpgp.ReadMessage(body, keyring, nil, nil)`
  pub read_message : Bytes → List Entity → Result MessageDetails
  -- `json.Unmarshal` into `atomicContainerSig` and into `headerTemplate`
  pub unmarshal_atomic : Bytes → Result AtomicContainerSig
  pub unmarshal_header : Bytes → Result JwtHeader
  -- `base64.StdEncoding.DecodeString` and `base64.RawURLEncoding.DecodeString`
  pub std_decode : String → Result Bytes
  pub raw_url_decode : Bytes → Result Bytes
  -- `url.Parse` and `url.ParseRequestURI`
  pub url_parse : String → Result Done
  pub url_parse_request_uri : String → Result Done
