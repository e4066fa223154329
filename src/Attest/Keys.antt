-- ===== src/Attest/Keys.antt =====
-- pkg/attestlib/public_key.go: `NewPublicKey`.
use kritis.Base.{
  ℕ, ◌/◌, ◌%◌, String, Bool, true, false, List, [], ◌∷◌, if◌then◌else◌, nat_eq, any, codes, length,
  ◌+++◌,
}
use kritis.Base.Result.{Result, ok, err, errorf, errorf_count, wrap, map_err, ◌>>=◌, ◌>>◌}
use kritis.Metadata.{Bytes}
use kritis.Attest.{
  AuthenticatorType, unknown_authenticator_type, pgp, pkix, jwt, SignatureAlgorithm,
  unknown_signing_algorithm, pgp_unused, PublicKey, Entity, Libraries,
}

hex_digits : List String
hex_digits =
    "0" ∷ "1" ∷ "2" ∷ "3" ∷ "4" ∷ "5" ∷ "6" ∷ "7" ∷ "8" ∷ "9" ∷ "A" ∷ "B" ∷ "C" ∷ "D" ∷ "E" ∷ "F"
    ∷ []

digit_at : List String → ℕ → String
digit_at [] i = ""
digit_at (d ∷ ds) ℕ.zero = d
digit_at (d ∷ ds) (ℕ.suc i) = digit_at ds i

-- `fmt.Sprintf("%X", fingerprint)`
unfoldable pub sprintf_hex : Bytes → String
unfolding hex_digits digit_at
sprintf_hex [] = ""
sprintf_hex (b ∷ bs) =
    digit_at hex_digits (b / 16) +++ (digit_at hex_digits (b % 16) +++ sprintf_hex bs)

-- the single key of a key ring
abbrev pub only_fingerprint : List Entity → Result String
only_fingerprint (entity ∷ []) = ok (sprintf_hex entity.fingerprint)
only_fingerprint keyring = err (errorf_count "expected 1 public key, got %d" (length keyring))

is_pgp_unused : SignatureAlgorithm → Bool
is_pgp_unused pgp_unused = true
is_pgp_unused _ = false

is_unset : SignatureAlgorithm → Bool
is_unset unknown_signing_algorithm = true
is_unset pgp_unused = true
is_unset _ = false

module _ (libs : Libraries) where
  unfoldable pub extract_pgp_key_id : Bytes → Result String
  extract_pgp_key_id key_data = do
    keyring ←
        map_err (wrap "error reading armored public key: %v" [])
          (libs.read_armored_key_ring key_data)
    only_fingerprint keyring

  unfoldable pub extract_pkix_key_id : Bytes → String → Result String
  extract_pkix_key_id key_data key_id =
      if any (λ c. nat_eq c b':') (codes key_id)
      then map_err
          (λ _.
            errorf
              "keyID %q not formatted as StringOrURI: must either not contain \":\" or be valid URI"
              (key_id ∷ []))
          (libs.url_parse_request_uri key_id)
        >> ok key_id
      else ok key_id

  -- the composite literal at the end, which leaves out the signature algorithm
  abbrev pub new_key : AuthenticatorType → Bytes → String → PublicKey
  new_key authenticator_type key_data new_key_id = record {
    authenticator_type = authenticator_type;
    signature_algorithm = unknown_signing_algorithm;
    key_data = key_data;
    id = new_key_id;
  }

  pkix_id : SignatureAlgorithm → Bytes → String → Result String
  unfolding extract_pkix_key_id is_unset
  pkix_id signature_algorithm key_data key_id = do
    id ← extract_pkix_key_id key_data key_id
    if is_unset signature_algorithm
        then err (errorf "expected signature algorithm with JWT/PKIX key type" [])
        else ok id

  unfoldable pub new_key_id :
      AuthenticatorType → SignatureAlgorithm → Bytes → String → Result String
  unfolding pkix_id is_pgp_unused extract_pgp_key_id
  new_key_id pgp signature_algorithm key_data key_id = do
    id ← extract_pgp_key_id key_data
    if is_pgp_unused signature_algorithm
        then ok id
        else err (errorf "expected undefined signature algorithm with PGP key type" [])
  new_key_id pkix signature_algorithm key_data key_id = pkix_id signature_algorithm key_data key_id
  new_key_id jwt signature_algorithm key_data key_id = pkix_id signature_algorithm key_data key_id
  new_key_id unknown_authenticator_type signature_algorithm key_data key_id =
      err (errorf "invalid AuthenticatorType" [])

  unfoldable pub new_public_key :
      AuthenticatorType → SignatureAlgorithm → Bytes → String → Result PublicKey
  unfolding new_key_id
  new_public_key authenticator_type signature_algorithm key_data key_id = do
    id ← new_key_id authenticator_type signature_algorithm key_data key_id
    ok (new_key authenticator_type key_data id)
