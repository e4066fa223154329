-- ===== src/Secrets/Fetch.antt =====
-- pkg/kritis/secrets/secrets.go, and the attestation of an image with a fetched secret:
-- `CreateAttestation` of pkg/kritis/util/util.go.
use kritis.Base.{ℕ, String, Option, none, some, List, [], ◌∷◌}
use kritis.Base.Maps.{lookup}
use kritis.Base.Result
use kritis.Base.Result.{Result, ok, err, errorf, panicked, Done}
use kritis.Base.Exec.{Exec, ◌>>=◌, ◌>>◌, pure, lift}
use kritis.Names.{Names}
use kritis.Metadata.{Bytes, Attestation}
use kritis.Attest.{Libraries}
use kritis.Attest.Signing.PgpSigner.{OpenPgp, new_pgp_signer, pgp_create_attestation}
use kritis.Payload.{ContainerSig, atomic_container_payload}
use kritis.Secrets.{PgpKey, new_pgp_key, fingerprint}

-- The keys of a secret's data
abbrev pub private_key : String
private_key = "private"

abbrev pub public_key : String
public_key = "public"

abbrev pub passphrase : String
passphrase = "passphrase"

-- `v1.Secret`
pub record Secret : Type 0 where
  pub name : String
  pub entries : List (String × Bytes)

-- `PGPSigningSecret`
pub record PgpSigningSecret : Type 0 where
  pub pgp_key : PgpKey
  pub secret_name : String

abbrev pub found_key : String → String → Option Bytes → Result Bytes
found_key name key none = err (errorf "invalid secret %s. could not find key %s" (name ∷ key ∷ []))
found_key name key (some value) = ok value

-- A missing phrase is empty.
abbrev pub or_empty : Option Bytes → Bytes
or_empty none = []
or_empty (some phrase) = phrase

module _ {W : Type 0} (get_clientset : Exec W Done)
    (get_secret_of : String → String → Exec W Secret) where
  unfoldable pub get_secret : String → String → Exec W Secret
  get_secret namespace name = get_clientset >> get_secret_of namespace name

  unfoldable pub fetch : Libraries → String → String → Exec W PgpSigningSecret
  fetch libs namespace name = do
    secret ← get_secret namespace name
    pub_key ← lift (found_key name public_key (lookup public_key secret.entries))
    priv ← lift (found_key name private_key (lookup private_key secret.entries))
    pgp_key ← lift (new_pgp_key libs priv (or_empty (lookup passphrase secret.entries)) pub_key)
    pure (record { pgp_key = pgp_key; secret_name = secret.name })

-- What the code calls to write a private key: `packet.NewUserId`, which may be nil, the signature of
-- the user ID, `s2k.HashToHashId` of SHA256, the armored writer, and
-- `SerializePrivate` into the writer, which is then closed.
pub record KeyWriter : Type 0 where
  pub new_user_id : Option String
  pub sign_user_id : String → Bytes → Option Bytes → Result Done
  pub hash_to_hash_id : Option ℕ
  pub armor_encode : String → Result Done
  -- the primary key, the private key, the user ID and the preferred hash
  pub serialize_private : Bytes → Option Bytes → String → ℕ → Result Bytes

-- `openpgp.Entity`, as it is made here
pub record KeyEntity : Type 0 where
  pub primary_key : Bytes
  pub entity_private : Option Bytes
  pub user_id : String
  pub preferred_hash : ℕ

module _ (writer : KeyWriter) where
  abbrev pub hash_id : Option ℕ → Result ℕ
  hash_id none = err (errorf "tried to convert unknown hash %d" [])
  hash_id (some id) = ok id

  -- The key ID of the primary key is read, which panics on a nil key.
  abbrev pub entity_for : Option String → Option Bytes → Option Bytes → Result KeyEntity
  entity_for none pub_key priv_key = err (errorf "got nil UserId" [])
  entity_for (some uid) none priv_key = err panicked
  entity_for (some uid) (some pub_key) priv_key =
      Result.◌>>=◌ (writer.sign_user_id uid pub_key priv_key) (λ signed.
        Result.◌>>=◌ (hash_id writer.hash_to_hash_id) (λ id. ok (record {
          primary_key = pub_key;
          entity_private = priv_key;
          user_id = uid;
          preferred_hash = id;
        })))

  unfoldable pub create_entity_from_keys : Option Bytes → Option Bytes → Result KeyEntity
  create_entity_from_keys pub_key priv_key = entity_for writer.new_user_id pub_key priv_key

  unfoldable pub extract_private_key_bytes : PgpSigningSecret → Result Bytes
  extract_private_key_bytes secret =
      Result.◌>>=◌ (writer.armor_encode "PGP PRIVATE KEY BLOCK") (λ armor_writer.
        Result.◌>>=◌ (create_entity_from_keys secret.pgp_key.fingerprint_of secret.pgp_key.private)
          (λ e. writer.serialize_private e.primary_key e.entity_private e.user_id e.preferred_hash))

  -- `CreateAttestation` of util.go
  unfoldable pub create_attestation :
      {R W : Type 0}
      → Names R
      → Libraries
      → OpenPgp W
      → (ContainerSig → Result Bytes)
      → String
      → PgpSigningSecret
      → Exec W Attestation
  create_attestation names libs openpgp marshal image pgp_signing_key = do
    key ← lift (extract_private_key_bytes pgp_signing_key)
    signer ← lift (new_pgp_signer libs openpgp key "")
    payload ← lift (atomic_container_payload names marshal image)
    pgp_create_attestation libs openpgp signer payload

-- `GetAttestationKeyFingerprint`
unfoldable pub get_attestation_key_fingerprint : Libraries → PgpSigningSecret → Result String
get_attestation_key_fingerprint libs pgp_signing_key = fingerprint libs pgp_signing_key.pgp_key
