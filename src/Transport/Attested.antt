-- ===== src/Transport/Attested.antt =====
-- What a validated attestation proves: the chain from the attestor's configured key to the image.
use kritis.Base.{
  String, ◌≡◌, refl, sym, ap, ◌∙◌, subst, ◌⊎◌, inl, inr, some, List, [], ◌∷◌, Bool-cases, str_eq,
  str_eq_iff, In,
}
use kritis.Base.Maps.{lookup}
use kritis.Base.Result.{Result, ok, err, caught, Result-cases, ok-injective, caught-eq-ok}
use kritis.Names.{Names, Digest}
use kritis.Resources
use kritis.Resources.{AttestationAuthority}
use kritis.Metadata.{Bytes, Attestation, Client}
use kritis.Attest.{PublicKey, pgp, pgp_unused, Libraries, Entity, AtomicContainerSig}
use kritis.Attest.Pgp.{IsSigned}
use kritis.Attest.Keys.{sprintf_hex, only_fingerprint, extract_pgp_key_id}
use kritis.Attest.Algorithms.{new_public_key-eq-ok, new_key_id-pgp}
use kritis.Attest.Verifier.{Verifier, new_verifier, verify_attestation, index_public_keys_by_id}
use kritis.Attest.Soundness.{verify_attestation_iff, index-lookup}
use kritis.Transport.{
  ValidatedAttestation, sort_key, validate_public_key, parse_public_key, parse_public_keys,
  validated, fetch_attestations, validate_with, get_validated_attestations,
}

sorted-In :
    (key_id : String) (r : Result PublicKey) (keys' : List PublicKey) (invalid' : List String)
    (key : PublicKey) {keys : List PublicKey} {invalid : List String}
    → In key keys
    → ok (sort_key key_id r (keys', invalid')) ≡ ok (keys, invalid)
    → (r ≡ ok key) ⊎ In key keys'
sorted-In key_id (ok k) keys' invalid' key i h =
    elim (subst (In key) (ap (λ p. p.0) (sym (ok-injective h))) i) [
      | inl same ↦ inl (ap ok same)
      | inr j ↦ inr j
    ]
sorted-In key_id (err e) keys' invalid' key i h =
    inr (subst (In key) (ap (λ p. p.0) (sym (ok-injective h))) i)

module _ (libs : Libraries) where
  -- A PGP key of an attestor, decoded: its key data holds one key, and its ID is that key's
  -- fingerprint, whatever ID the attestor gives.
  pub record IsConfigured (attestor : AttestationAuthority) (key : PublicKey) : Type 0 where
    pub source : Resources.PublicKey
    pub listed : In source attestor.public_keys
    pub key_type : source.key_type ≡ "PGP"
    pub decoded : libs.std_decode source.ascii_armored_pgp_public_key ≡ ok key.key_data
    pub entity : Entity
    pub ring : libs.read_armored_key_ring key.key_data ≡ ok (entity ∷ [])
    pub id : key.id ≡ sprintf_hex entity.fingerprint

  only_fingerprint-eq-ok :
      (keyring : List Entity) (id : String)
      → only_fingerprint keyring ≡ ok id
      → (entity : Entity) × (keyring ≡ entity ∷ []) × (id ≡ sprintf_hex entity.fingerprint)
  only_fingerprint-eq-ok [] id h = cc
  only_fingerprint-eq-ok (e ∷ []) id h = (e, refl, cc)
  only_fingerprint-eq-ok (e ∷ f ∷ es) id h = cc

  extract-eq-ok :
      (key_data : Bytes) (id : String)
      → extract_pgp_key_id libs key_data ≡ ok id
      → (entity : Entity) × (libs.read_armored_key_ring key_data ≡ ok (entity ∷ []))
        × (id ≡ sprintf_hex entity.fingerprint)
  unfolding extract_pgp_key_id
  extract-eq-ok key_data id h = elim (Result-cases (libs.read_armored_key_ring key_data)) [
    | inr (e, q) ↦ absurd (cc (rw q at h))
    | inl (ring, q) ↦
        let (entity, single, same) = only_fingerprint-eq-ok ring id (rw q at h) in
        (entity, q ∙ ap ok single, same)
  ]

  module _ (attestor : AttestationAuthority) where
    parse_public_key-IsConfigured :
        (source : Resources.PublicKey) (key : PublicKey)
        → In source attestor.public_keys
        → source.key_type ≡ "PGP"
        → parse_public_key libs attestor source ≡ ok key
        → IsConfigured attestor key
    unfolding parse_public_key
    parse_public_key-IsConfigured source key i t h =
        elim (Result-cases (validate_public_key libs attestor source)) [
          | inr (e, q) ↦ absurd (cc (rw q at h))
          | inl (_, q) ↦ elim (Result-cases (libs.std_decode source.ascii_armored_pgp_public_key)) [
            | inr (e, d) ↦ absurd (cc (rw (q, d) at h))
            | inl (key_data, d) ↦
                let (id, made, same) =
                  new_public_key-eq-ok libs pgp pgp_unused key_data source.key_id
                    (rw (q, d) at h) in
                let (entity, ring, print) =
                  extract-eq-ok key_data id (new_key_id-pgp libs key_data source.key_id id made) in
                subst (IsConfigured attestor) same (record {
                  source = source;
                  listed = i;
                  key_type = t;
                  decoded = d;
                  entity = entity;
                  ring = ring;
                  id = print;
                })
          ]
        ]

    parse_public_keys-In :
        (ks : List Resources.PublicKey) (keys : List PublicKey) (invalid : List String)
        (key : PublicKey)
        → parse_public_keys libs attestor ks ≡ ok (keys, invalid)
        → In key keys
        → (source : Resources.PublicKey) × In source ks
          × (source.key_type ≡ "PGP")
          × (parse_public_key libs attestor source ≡ ok key)
    unfolding parse_public_keys
    parse_public_keys-In [] keys invalid key h i =
        absurd (subst (In key) (ap (λ p. p.0) (sym (ok-injective h))) i)
    parse_public_keys-In (k ∷ ks) keys invalid key h i =
        elim (Bool-cases (str_eq k.key_type "PGP")) [
          | inr other ↦
              let (s, j, t, p) = parse_public_keys-In ks keys invalid key (rw other at h) i in
              (s, inr j, t, p)
          | inl is_pgp ↦ elim (Result-cases (caught (parse_public_key libs attestor k))) [
            | inr (e, c) ↦ absurd (cc (rw (is_pgp, c) at h))
            | inl (r, c) ↦ elim (Result-cases (parse_public_keys libs attestor ks)) [
              | inr (e, q) ↦ absurd (cc (rw (is_pgp, c, q) at h))
              | inl ((keys', invalid'), q) ↦
                  elim (sorted-In k.key_id r keys' invalid' key i (rw (is_pgp, c, q) at h)) [
                    | inl made ↦ (
                      k,
                      inl refl,
                      (str_eq_iff k.key_type "PGP").0 is_pgp,
                      sym (caught-eq-ok _ c) ∙ made,
                    )
                    | inr j ↦
                        let (s, j', t, p) = parse_public_keys-In ks keys' invalid' key q j in
                        (s, inr j', t, p)
                  ]
            ]
          ]
        ]

    validated-In :
        (image : String) (v : Verifier) (atts : List Attestation) (first : ValidatedAttestation)
        (rest : List ValidatedAttestation)
        → validated libs attestor image v atts ≡ first ∷ rest
        → (att : Attestation) × In att atts × (verify_attestation libs v att ≡ ok tt)
    unfolding validated
    validated-In image v [] first rest h = absurd (cc h)
    validated-In image v (att ∷ atts) first rest h =
        elim (Result-cases (verify_attestation libs v att)) [
          | inl (u, q) ↦ (att, inl refl, q)
          | inr (e, q) ↦
              let (a, i, s) = validated-In image v atts first rest (rw (q, validated) at h) in
              (a, inr i, s)
        ]

-- The image is attested by the attestor in the world `w`: the backend stores an attestation for the
-- two, whose key ID is the fingerprint of a PGP key that is configured for the attestor, whose
-- signature verifies with that key over a payload, and the payload names the image's repository
-- and digest.
pub record IsAttested {R W K : Type 0} (libs : Libraries) (names : Names R) (client : Client W K)
    (attestor : AttestationAuthority) (image : String) (w : W) : Type 0 where
  pub digest : Digest
  pub image_parsed : names.new_digest_strict image ≡ ok digest
  pub atts : List Attestation
  pub fetched : (client.attestations image attestor w).0 ≡ ok atts
  pub att : Attestation
  pub stored : In att atts
  pub key : PublicKey
  pub configured : IsConfigured libs attestor key
  pub key_id : key.id ≡ att.public_key_id
  pub payload : Bytes
  pub signed : IsSigned libs att.signature key.key_data payload
  pub atomic_sig : AtomicContainerSig
  pub parsed : libs.unmarshal_atomic payload ≡ ok atomic_sig
  pub name_matches : atomic_sig.docker_reference ≡ digest.repository_name
  pub digest_matches : atomic_sig.docker_manifest_digest ≡ digest.digest_str

module _ {R W K : Type 0} (libs : Libraries) (names : Names R) (client : Client W K)
    (attestor : AttestationAuthority) (image : String) (w : W) where
  new_verifier-eq-ok :
      (keys : List PublicKey) (v : Verifier)
      → new_verifier names image keys ≡ ok v
      → (digest : Digest) × (names.new_digest_strict image ≡ ok digest)
        × (record {
          image_name = digest.repository_name;
          image_digest = digest.digest_str;
          public_keys = index_public_keys_by_id keys;
        }
            ≡ v)
  unfolding new_verifier
  new_verifier-eq-ok keys v h = elim (Result-cases (names.new_digest_strict image)) [
    | inr (e, q) ↦ absurd (cc (rw q at h))
    | inl (digest, q) ↦ (digest, q, ok-injective (rw q at h))
  ]

  verified-IsAttested :
      (keys : List PublicKey) (v : Verifier) (atts : List Attestation) (att : Attestation)
      → ((key : PublicKey) → In key keys → IsConfigured libs attestor key)
      → new_verifier names image keys ≡ ok v
      → (client.attestations image attestor w).0 ≡ ok atts
      → In att atts
      → verify_attestation libs v att ≡ ok tt
      → IsAttested libs names client attestor image w
  verified-IsAttested keys v atts att configured made fetched stored accepted =
      let (digest, parsed, same) = new_verifier-eq-ok keys v made in
      let s = (verify_attestation_iff libs v att).0 accepted in
      let (i, id) = index-lookup keys att.public_key_id s.key (
        subst (λ (u : Verifier). lookup att.public_key_id u.public_keys ≡ some s.key) (sym same)
          s.listed) in
      record {
        digest = digest;
        image_parsed = parsed;
        atts = atts;
        fetched = fetched;
        att = att;
        stored = stored;
        key = s.key;
        configured = configured s.key i;
        key_id = id;
        payload = s.payload;
        signed = s.signed;
        atomic_sig = s.names_image.atomic_sig;
        parsed = s.names_image.parsed;
        name_matches = s.names_image.name_matches ∙ ap (λ (u : Verifier). u.image_name) (sym same);
        digest_matches =
            s.names_image.digest_matches ∙ ap (λ (u : Verifier). u.image_digest) (sym same);
      }

  validate_with-IsAttested :
      (keys : List PublicKey) (invalid : List String) (first : ValidatedAttestation)
      (rest : List ValidatedAttestation)
      → ((key : PublicKey) → In key keys → IsConfigured libs attestor key)
      → (validate_with libs attestor names client image keys invalid w).0 ≡ ok (first ∷ rest)
      → IsAttested libs names client attestor image w
  unfolding validate_with fetch_attestations
  validate_with-IsAttested [] invalid first rest configured h = absurd (cc h)
  validate_with-IsAttested (k ∷ ks) invalid first rest configured h =
      elim (Result-cases (new_verifier names image (k ∷ ks))) [
        | inr (e, q) ↦ absurd (cc (rw q at h))
        | inl (v, q) ↦ elim (Result-cases (client.attestations image attestor w).0) [
          | inr (e, f) ↦ absurd (cc (rw (q, f) at h))
          | inl (atts, f) ↦
              let (att, stored, accepted) =
                validated-In libs attestor image v atts first rest
                  (ok-injective (rw (q, f) at h)) in
              verified-IsAttested (k ∷ ks) v atts att configured q f stored accepted
        ]
      ]

  -- When the transport returns a validated attestation, the image is attested by the attestor: some
  -- stored attestation carries a signature that verifies with a PGP key configured for the
  -- attestor, under the key's fingerprint, over a payload with the image's repository and digest.
  pub get_validated_attestations-IsAttested :
      (first : ValidatedAttestation) (rest : List ValidatedAttestation)
      → (get_validated_attestations libs attestor names client image w).0 ≡ ok (first ∷ rest)
      → IsAttested libs names client attestor image w
  unfolding get_validated_attestations
  get_validated_attestations-IsAttested first rest h =
      elim (Result-cases (parse_public_keys libs attestor attestor.public_keys)) [
        | inr (e, q) ↦ absurd (cc (rw q at h))
        | inl ((keys, invalid), q) ↦
            validate_with-IsAttested keys invalid first rest
              (λ key i.
                let (source, j, t, p) =
                  parse_public_keys-In libs attestor attestor.public_keys keys invalid key q i in
                parse_public_key-IsConfigured libs attestor source key j t p)
              (rw q at h)
      ]
