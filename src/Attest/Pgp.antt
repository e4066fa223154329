-- ===== src/Attest/Pgp.antt =====
-- pkg/attestlib/pgp.go: `verifyPgp`.
use kritis.Base.{◌≡◌, Bool, true, false, Option, none, some, List, [], arith, inl, inr}
use kritis.Base.Result.{
  Error, Result, ok, err, errorf, wrap, map_err, Done, Result-cases, ◌>>=◌, ◌>>◌,
}
use kritis.Metadata.{Bytes}
use kritis.Attest.{Libraries, Entity, Block, MessageDetails}

-- The signature of the message, which is known only when the body has been read.
abbrev check_signature : Option Error → Bool → Result Done
check_signature (some e) signed = err (wrap "failed to validate: signature error" [] e)
check_signature none false = err (errorf "failed to validate: signature missing" [])
check_signature none true = ok tt

-- the message, once it is opened
unfoldable pub finish : MessageDetails → Result Bytes
finish details = do
  payload ← map_err (wrap "error reading message contents" []) details.unverified_body
  check_signature details.signature_error details.has_signature
  ok payload

unfoldable pub verify_pgp : Libraries → Bytes → Bytes → Result Bytes
verify_pgp libs signature public_key = do
  keyring ←
      map_err (wrap "error reading armored key ring" []) (libs.read_armored_key_ring public_key)
  block ← map_err (wrap "error decoding armored signature" []) (libs.armor_decode signature)
  details ← map_err (wrap "error reading armor signature" []) (libs.read_message block.body keyring)
  finish details

-- What an accepted signature means: the message was read with the key ring of the given key, its
-- signature is there, and the library found no fault in it.
pub record IsSigned (libs : Libraries) (signature key payload : Bytes) : Type 0 where
  pub keyring : List Entity
  pub block : Block
  pub details : MessageDetails
  pub ring_read : libs.read_armored_key_ring key ≡ ok keyring
  pub block_read : libs.armor_decode signature ≡ ok block
  pub message_read : libs.read_message block.body keyring ≡ ok details
  pub body_read : details.unverified_body ≡ ok payload
  pub no_error : details.signature_error ≡ none
  pub present : details.has_signature ≡ true

module _ (details : MessageDetails) {payload : Bytes} where
  finish-eq-ok :
      finish details ≡ ok payload
      → (details.unverified_body ≡ ok payload)
        × (details.signature_error ≡ none)
        × (details.has_signature ≡ true)
  unfolding finish
  finish-eq-ok h = ground arith

module _ (libs : Libraries) (signature key payload : Bytes) where
  pub verify_pgp-IsSigned :
      verify_pgp libs signature key ≡ ok payload → IsSigned libs signature key payload
  unfolding verify_pgp
  verify_pgp-IsSigned h = elim (Result-cases (libs.read_armored_key_ring key)) [
    | inr (e, k) ↦ absurd (cc (rw k at h))
    | inl (keyring, k) ↦ elim (Result-cases (libs.armor_decode signature)) [
      | inr (e, b) ↦ absurd (cc (rw (k, b) at h))
      | inl (block, b) ↦ elim (Result-cases (libs.read_message block.body keyring)) [
        | inr (e, d) ↦ absurd (cc (rw (k, b, d) at h))
        | inl (details, d) ↦
            let (p, n, s) = finish-eq-ok details (rw (k, b, d) at h) in
            record {
              keyring = keyring;
              block = block;
              details = details;
              ring_read = k;
              block_read = b;
              message_read = d;
              body_read = p;
              no_error = n;
              present = s;
            }
      ]
    ]
  ]

  pub IsSigned-verify_pgp :
      IsSigned libs signature key payload → verify_pgp libs signature key ≡ ok payload
  unfolding verify_pgp finish
  IsSigned-verify_pgp s =
      rw (s.ring_read, s.block_read, s.message_read, s.body_read, s.no_error, s.present)
