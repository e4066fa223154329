-- ===== src/Attest/Signing/Detached.antt =====
-- The signatures of PKIX signers and `verifyDetached` (pkg/attestlib/pkix.go, rsa_sign.go, ec_sign.go,
-- verify_detached.go).
use kritis.Base.{◌≡◌, refl, true, some, [], subst, sym}
use kritis.Base.Result.{ok, wrap}
use kritis.Base.Exec.{Exec, ◌>>=◌, wrapping, lift}
use kritis.Base.Ensures.{
  Ensures, Ensures-pure, Ensures-raise, Ensures-lift, Ensures-wrapping, Ensures-bind,
}
use kritis.Metadata.{Bytes, Attestation}
use kritis.Attest.{SignatureAlgorithm}
use kritis.Attest.Signing.{
  CryptoHash, PkixPublic, rsa_public, ecdsa_public, other_public, PkixPrivate, rsa_private,
  ecdsa_private, other_private, Crypto, Scheme, pkcs1v15, pss, ecdsa, no_scheme, scheme_of,
  hash_payload, verify_ecdsa, verify_scheme, verify_detached, hashed_for, rsa_sign, ec_sign,
  PkixSigner, as_rsa_private, as_ecdsa_private, sign_scheme, create_attestation,
}

module _ {W Z : Type 0} (crypto : Crypto W Z) where
  -- The crypto packages do what they document, for the pairs of a public and a private key: what one
  -- signs, the other verifies, and an encoded pair of integers is decoded.
  pub record Works (pairs : Bytes → Bytes → Type 0) : Type 0 where
    pub pkcs1v15_works :
        (public private : Bytes) (h : CryptoHash) (hashed sig : Bytes) (w : W)
        → pairs public private
        → (crypto.sign_pkcs1v15 private h hashed w).0 ≡ ok sig
        → crypto.verify_pkcs1v15 public h hashed sig ≡ ok tt
    pub pss_works :
        (public private : Bytes) (h : CryptoHash) (hashed sig : Bytes) (w : W)
        → pairs public private
        → (crypto.sign_pss private h hashed w).0 ≡ ok sig
        → crypto.verify_pss public h hashed sig ≡ ok tt
    pub ecdsa_works :
        (public private hashed : Bytes) (z : Z × Z) (w : W)
        → pairs public private
        → (crypto.ecdsa_sign private hashed w).0 ≡ ok z
        → crypto.ecdsa_verify public hashed z ≡ true
    pub asn1_works :
        (z : Z × Z) (b : Bytes) → crypto.asn1_marshal z ≡ ok b → crypto.asn1_unmarshal b ≡ ok z

  module _ (pairs : Bytes → Bytes → Type 0) (works : Works pairs) where
    -- The keys are of the same kind, and pair.
    abbrev pub Fits : PkixPublic → PkixPrivate → Type 0
    Fits (rsa_public key) (rsa_private public private) = pairs key private
    Fits (ecdsa_public key) (ecdsa_private public private) = pairs key private
    Fits _ _ = ⊥

    -- No property of the world is kept but the trivial one.
    abbrev Nothing : W → Type 0
    Nothing w = Unit

    module _ (payload : Bytes) (alg : SignatureAlgorithm) where
      abbrev Hashed : CryptoHash × Bytes → Type 0
      Hashed hashed = hash_payload crypto payload alg ≡ ok hashed

      hashed_for-Hashed : Ensures Nothing Hashed (hashed_for crypto payload alg)
      hashed_for-Hashed =
          Ensures-wrapping Hashed (wrap "hash payload error" [])
            (lift (hash_payload crypto payload alg))
            (Ensures-lift Hashed (hash_payload crypto payload alg) (λ a e. e))

      abbrev Accepted : Scheme → PkixPublic → Bytes → Type 0
      Accepted scheme key sig = verify_scheme crypto scheme sig key alg payload ≡ ok tt

      rsa_sign-Accepted :
          (scheme : Scheme) (key private : Bytes)
          → pairs key private
          → Ensures Nothing
              (Accepted scheme (rsa_public key))
              (rsa_sign crypto scheme private payload alg)
      rsa_sign-Accepted pkcs1v15 key private p =
          Ensures-bind Hashed (Accepted pkcs1v15 (rsa_public key)) (hashed_for crypto payload alg) _
            hashed_for-Hashed
            (λ hashed h. record {
              keeps = λ w n. tt;
              gives =
                  λ w sig n e. rw h (works.pkcs1v15_works key private hashed.0 hashed.1 sig w p e);
            })
      rsa_sign-Accepted pss key private p =
          Ensures-bind Hashed (Accepted pss (rsa_public key)) (hashed_for crypto payload alg) _
            hashed_for-Hashed
            (λ hashed h. record {
              keeps = λ w n. tt;
              gives = λ w sig n e. rw h (works.pss_works key private hashed.0 hashed.1 sig w p e);
            })
      rsa_sign-Accepted ecdsa key private p = Ensures-raise (Accepted ecdsa (rsa_public key)) _
      rsa_sign-Accepted no_scheme key private p =
          Ensures-raise (Accepted no_scheme (rsa_public key)) _

      ec_marshalled :
          (key : Bytes) (hashed : CryptoHash × Bytes) (z : Z × Z)
          → Hashed hashed
          → crypto.ecdsa_verify key hashed.1 z ≡ true
          → (sig : Bytes) → crypto.asn1_marshal z ≡ ok sig
          → verify_ecdsa crypto sig key alg payload ≡ ok tt
      ec_marshalled key hashed z h v sig e = rw (works.asn1_works z sig e, h, v) refl

      ec_sign-Accepted :
          (scheme : Scheme) (key private : Bytes)
          → pairs key private
          → Ensures Nothing
              (Accepted ecdsa (ecdsa_public key))
              (ec_sign crypto scheme private payload alg)
      ec_sign-Accepted ecdsa key private p =
          Ensures-bind Hashed (Accepted ecdsa (ecdsa_public key)) (hashed_for crypto payload alg) _
            hashed_for-Hashed
            (λ hashed h.
              Ensures-bind (λ z. crypto.ecdsa_verify key hashed.1 z ≡ true)
                (Accepted ecdsa (ecdsa_public key)) _ _
                (Ensures-wrapping (λ z. crypto.ecdsa_verify key hashed.1 z ≡ true)
                  (wrap "error creating ecdsa signature" []) (crypto.ecdsa_sign private hashed.1)
                  (record {
                    keeps = λ w n. tt;
                    gives = λ w z n e. works.ecdsa_works key private hashed.1 z w p e;
                  }))
                (λ z v.
                  Ensures-lift (Accepted ecdsa (ecdsa_public key)) (crypto.asn1_marshal z)
                    (λ sig e. ec_marshalled key hashed z h v sig e)))
      ec_sign-Accepted pkcs1v15 key private p = Ensures-raise (Accepted ecdsa (ecdsa_public key)) _
      ec_sign-Accepted pss key private p = Ensures-raise (Accepted ecdsa (ecdsa_public key)) _
      ec_sign-Accepted no_scheme key private p = Ensures-raise (Accepted ecdsa (ecdsa_public key)) _

      abbrev rsa_rest : Bytes → Exec W Bytes
      rsa_rest private =
          wrapping (wrap "error creating rsa signature" [])
            (rsa_sign crypto (scheme_of alg) private payload alg)

      abbrev ec_rest : Bytes → Exec W Bytes
      ec_rest private =
          wrapping (wrap "error creating ecdsa signature" [])
            (ec_sign crypto (scheme_of alg) private payload alg)

      rsa_part :
          (key : PkixPublic) (private : PkixPrivate)
          → Fits key private
          → Ensures Nothing
              (Accepted (scheme_of alg) key)
              (as_rsa_private crypto private >>= rsa_rest)
      rsa_part (rsa_public key) (rsa_private public private) p =
          Ensures-wrapping (Accepted (scheme_of alg) (rsa_public key))
            (wrap "error creating rsa signature" [])
            (rsa_sign crypto (scheme_of alg) private payload alg)
            (rsa_sign-Accepted (scheme_of alg) key private p)
      rsa_part (ecdsa_public key) (ecdsa_private public private) p =
          Ensures-raise (Accepted (scheme_of alg) (ecdsa_public key)) _
      rsa_part (rsa_public key) (ecdsa_private public private) p = absurd p
      rsa_part (rsa_public key) other_private p = absurd p
      rsa_part (ecdsa_public key) (rsa_private public private) p = absurd p
      rsa_part (ecdsa_public key) other_private p = absurd p
      rsa_part other_public private p = absurd p

      ec_part :
          (key : PkixPublic) (private : PkixPrivate)
          → Fits key private
          → Ensures Nothing (Accepted ecdsa key) (as_ecdsa_private crypto private >>= ec_rest)
      ec_part (ecdsa_public key) (ecdsa_private public private) p =
          Ensures-wrapping (Accepted ecdsa (ecdsa_public key))
            (wrap "error creating ecdsa signature" [])
            (ec_sign crypto (scheme_of alg) private payload alg)
            (ec_sign-Accepted (scheme_of alg) key private p)
      ec_part (rsa_public key) (rsa_private public private) p =
          Ensures-raise (Accepted ecdsa (rsa_public key)) _
      ec_part (rsa_public key) (ecdsa_private public private) p = absurd p
      ec_part (rsa_public key) other_private p = absurd p
      ec_part (ecdsa_public key) (rsa_private public private) p = absurd p
      ec_part (ecdsa_public key) other_private p = absurd p
      ec_part other_public private p = absurd p

    module _ (s : PkixSigner) (payload : Bytes) (key : PkixPublic)
        (fits : Fits key s.private_key) where
      abbrev Verified : Bytes → Type 0
      Verified sig =
          verify_scheme crypto (scheme_of s.signature_algorithm) sig key s.signature_algorithm
            payload
          ≡ ok tt

      sign_scheme-Verified :
          (scheme : Scheme)
          → scheme_of s.signature_algorithm ≡ scheme
          → Ensures Nothing Verified (sign_scheme crypto scheme s payload)
      sign_scheme-Verified pkcs1v15 e =
          rsa_part payload s.signature_algorithm key s.private_key fits
      sign_scheme-Verified pss e = rsa_part payload s.signature_algorithm key s.private_key fits
      sign_scheme-Verified ecdsa e =
          subst
            (λ scheme.
              Ensures Nothing
                (λ sig. verify_scheme crypto scheme sig key s.signature_algorithm payload ≡ ok tt)
                (sign_scheme crypto ecdsa s payload))
            (sym e) (ec_part payload s.signature_algorithm key s.private_key fits)
      sign_scheme-Verified no_scheme e = Ensures-raise Verified _

      abbrev VerifiedBy : Bytes → Attestation → Type 0
      VerifiedBy pem att =
          verify_detached crypto att.signature pem s.signature_algorithm att.serialized_payload
          ≡ ok tt

      -- What the signer signs, `verifyDetached` accepts with a public key that pairs with the signer's
      -- key, where the crypto packages work.
      pub create_attestation-VerifiedBy :
          (pem der : Bytes) (w : W) (att : Attestation)
          → crypto.pem_decode pem ≡ (some der, [])
          → crypto.parse_pkix_public_key der ≡ ok key
          → (create_attestation crypto s payload w).0 ≡ ok att
          → (att.serialized_payload ≡ payload) × VerifiedBy pem att
      unfolding create_attestation verify_detached
      create_attestation-VerifiedBy pem der w att d k e =
          (Ensures-bind {P = Nothing} Verified
              (λ (a : Attestation). (a.serialized_payload ≡ payload) × VerifiedBy pem a)
              (sign_scheme crypto (scheme_of s.signature_algorithm) s payload) _
              (sign_scheme-Verified (scheme_of s.signature_algorithm) refl)
              (λ sig v.
                Ensures-pure
                  (λ (a : Attestation). (a.serialized_payload ≡ payload) × VerifiedBy pem a) _
                  (refl, rw (d, k) v))).gives
            w att tt e
