-- ===== src/Attest/Signing/PgpSigner.antt =====
-- pkg/attestlib/pgp.go: `NewPgpSigner` and its `CreateAttestation`.
use kritis.Base.{
  String, Bool, true, false, Option, none, some, List, [], ◌∷◌, length, str_eq, if◌then◌else◌,
}
use kritis.Base.Result.{Result, ok, err, errorf, errorf_count, wrap, panicked, map_err, Done, ◌>>=◌}
use kritis.Base.Exec
use kritis.Base.Exec.{Exec, pure, wrapping}
use kritis.Metadata.{Bytes, Attestation}
use kritis.Attest.{Entity, Libraries}
use kritis.Attest.Keys.{sprintf_hex}

-- `pgpSigner`
pub record PgpSigner : Type 0 where
  pub private_key : Entity
  pub public_key_id : String

-- What the signer calls of golang.org/x/crypto/openpgp. The armored buffer that is being written stands
-- in the world.
pub record OpenPgp (W : Type 0) : Type 0 where
  -- whether `PrivateKey` is encrypted, and `none` where it is nil
  pub encrypted : Entity → Option Bool
  -- `PrivateKey.Decrypt`: the key after the call
  pub decrypt_private : Entity → String → Result Entity
  -- `armor.Encode` to a new buffer, with a block type
  pub armor_encode : String → Exec W Done
  -- `openpgp.Sign`, the write of the payload, and the two closes
  pub sign : Entity → Exec W Done
  pub write : Bytes → Exec W Done
  pub close_signature : W → W
  pub close_armor : W → W
  -- the bytes of the buffer
  pub buffer : W → Bytes

-- `openpgp.SignatureType`
abbrev pub signature_type : String
signature_type = "PGP SIGNATURE"

module _ {W : Type 0} (libs : Libraries) (openpgp : OpenPgp W) where
  abbrev pub only_key : List Entity → Result Entity
  only_key (key ∷ []) = ok key
  only_key keyring = err (errorf_count "expected 1 key in keyring, got %d" (length keyring))

  -- The branch on `key.PrivateKey.Encrypted`, which dereferences the private key.
  abbrev pub decrypted : Entity → String → Option Bool → Result Entity
  decrypted key passphrase none = err panicked
  decrypted key passphrase (some false) = ok key
  decrypted key passphrase (some true) =
      if str_eq passphrase ""
      then err (errorf "missing passphrase for encrypted private key" [])
      else map_err (wrap "could not decrypt private key" [])
          (openpgp.decrypt_private key passphrase)

  unfoldable pub new_pgp_signer : Bytes → String → Result PgpSigner
  new_pgp_signer private_key passphrase = do
    keyring ←
        map_err (wrap "error reading armored private key" [])
          (libs.read_armored_key_ring private_key)
    locked ← only_key keyring
    key ← decrypted locked passphrase (openpgp.encrypted locked)
    ok (record { private_key = key; public_key_id = sprintf_hex locked.fingerprint })

  -- The buffer, when both writers are closed.
  abbrev pub closed_buffer : PgpSigner → Exec W Attestation
  closed_buffer s w =
      let w' = openpgp.close_armor (openpgp.close_signature w) in
      (
        ok (record {
          public_key_id = s.public_key_id;
          signature = openpgp.buffer w';
          serialized_payload = [];
        }),
        w',
      )

  unfoldable pub pgp_create_attestation : PgpSigner → Bytes → Exec W Attestation
  pgp_create_attestation s payload =
      Exec.◌>>=◌
        (wrapping (wrap "error creating armor buffer" []) (openpgp.armor_encode signature_type))
        (λ armor_writer.
          Exec.◌>>=◌ (wrapping (wrap "error signing payload" []) (openpgp.sign s.private_key))
            (λ signature_writer.
              Exec.◌>>=◌
                (wrapping (wrap "error writing payload to armor writer" []) (openpgp.write payload))
                (λ written. closed_buffer s)))
