-- ===== src/Review/Gap/Soundness.antt =====
-- What a successful `ReviewGAP` proves of every image.
use kritis.Base.{
  String, ◌≡◌, refl, inl, inr, Bool, true, false, Option, List, [], ◌∷◌, if◌then◌else◌, is_empty,
  All, Any,
}
use kritis.Base.Maps.{insert}
use kritis.Base.Result.{Result, ok, err, wrap, Result-cases}
use kritis.Base.Ensures.{
  Ensures, Ensures-pure, Ensures-wrapping, Ensures-attempt, Ensures-if, Ensures-weaken,
  Ensures-bind,
}
use kritis.Names.{Names}
use kritis.Resources.{GenericAttestationPolicy, AttestationAuthority, Workload}
use kritis.Metadata.{Client}
use kritis.Attest.{Libraries, PublicKey}
use kritis.Attest.Verifier.{new_verifier}
use kritis.Transport.{
  parse_public_keys, ValidatedAttestation, get_validated_attestations, validate_with,
  fetch_attestations,
}
use kritis.Transport.Attested.{IsAttested, get_validated_attestations-IsAttested}
use kritis.Review.{Config}
use kritis.Review.Gap.{
  has_attestation, is_attested_by, find_unsatisfied_auth_names, fetch_authorities,
  get_attestation_authorities_for_gap, review_image_with_gap, try_gaps,
}

module _ {R W K : Type 0} (libs : Libraries) (names : Names R) (config : Config W K)
    (client : Client W K) (P : W → Type 0) where
  -- In some world with `P`, the name stands for the authority.
  abbrev pub Fetched : String → String → AttestationAuthority → Type 0
  Fetched namespace name a = (v : W) × P v × ((config.auths namespace name v).0 ≡ ok a)

  -- In some world with `P`, the authority attests the image.
  abbrev pub Attests : String → AttestationAuthority → Type 0
  Attests image a = (v : W) × P v × IsAttested libs names client a image v

  -- Each name that a policy lists stands for an authority that attests the image.
  abbrev pub NamesAttest : String → String → List String → Type 0
  NamesAttest image namespace =
      All (λ n. (a : AttestationAuthority) × Fetched namespace n a × Attests image a)

  abbrev pub GapAttests : String → GenericAttestationPolicy → Type 0
  GapAttests image gap = NamesAttest image gap.namespace gap.attestation_authority_names

  -- `auths` are what the names stand for, one by one.
  abbrev pub AllFetched : String → List String → List AttestationAuthority → Type 0
  AllFetched namespace [] [] = Unit
  AllFetched namespace [] (a ∷ auths) = ⊥
  AllFetched namespace (n ∷ ns) [] = ⊥
  AllFetched namespace (n ∷ ns) (a ∷ auths) = Fetched namespace n a × AllFetched namespace ns auths

  AllFetched-NamesAttest :
      (image namespace : String) (ns : List String) (auths : List AttestationAuthority)
      → AllFetched namespace ns auths
      → All (Attests image) auths
      → NamesAttest image namespace ns
  AllFetched-NamesAttest image namespace [] [] f a = tt
  AllFetched-NamesAttest image namespace [] (x ∷ xs) f a = tt
  AllFetched-NamesAttest image namespace (n ∷ ns) [] f a = absurd f
  AllFetched-NamesAttest image namespace (n ∷ ns) (x ∷ xs) (f, fs) (a, as') =
      ((x, f, a), AllFetched-NamesAttest image namespace ns xs fs as')

  -- The calls that `ReviewGAP` makes keep `P`.
  pub record Kept : Type 0 where
    pub read :
        (image : String) (a : AttestationAuthority) (w : W)
        → P w
        → P (client.attestations image a w).1
    pub fetch : (namespace name : String) (w : W) → P w → P (config.auths namespace name w).1
    pub report :
        (image : String) (pod : Option Workload) (b : Bool) (w : W)
        → P w
        → P (config.strategy.handle_attestation image pod b w).1

  get-IsAttested :
      (image : String) (auth : AttestationAuthority) (w : W) (atts : List ValidatedAttestation)
      → (get_validated_attestations libs auth names client image w).0 ≡ ok atts
      → is_empty atts ≡ false
      → IsAttested libs names client auth image w
  get-IsAttested image auth w [] e full = cc
  get-IsAttested image auth w (x ∷ xs) e full =
      get_validated_attestations-IsAttested libs names client auth image w x xs e

  both_satisfied :
      (image : String) (auth : AttestationAuthority) (auths : List AttestationAuthority)
      (attested : Bool) (not_attested : List String)
      → (attested ≡ true → Attests image auth)
      → (is_empty not_attested ≡ true → All (Attests image) auths)
      → is_empty (if attested then not_attested else auth.name ∷ not_attested) ≡ true
      → Attests image auth × All (Attests image) auths
  both_satisfied image auth auths true not_attested q h e = (q refl, h e)
  both_satisfied image auth auths false not_attested q h e = cc

  satisfied_lem :
      (not_attested : List String)
      → (if◌then◌else◌ {A = Bool × List String}
          (is_empty not_attested)
          (true, [])
          (false, not_attested)).0
        ≡ true
      → is_empty not_attested ≡ true
  satisfied_lem [] e = refl
  satisfied_lem (x ∷ xs) e = cc

  module _ (kept : Kept) where
    validate_with-keeps :
        (image : String) (auth : AttestationAuthority) (keys : List PublicKey)
        (invalid : List String) (w : W)
        → P w
        → P (validate_with libs auth names client image keys invalid w).1
    unfolding validate_with fetch_attestations
    validate_with-keeps image auth [] invalid w p = p
    validate_with-keeps image auth (k ∷ ks) invalid w p =
        elim (Result-cases (new_verifier names image (k ∷ ks))) [
          | inr (e, q) ↦ rw (q) p
          | inl (v, q) ↦ elim (Result-cases (client.attestations image auth w).0) [
            | inr (e, f) ↦ rw (q, f) (kept.read image auth w p)
            | inl (atts, f) ↦ rw (q, f) (kept.read image auth w p)
          ]
        ]

    get_validated_attestations-keeps :
        (image : String) (auth : AttestationAuthority) (w : W)
        → P w
        → P (get_validated_attestations libs auth names client image w).1
    unfolding get_validated_attestations
    get_validated_attestations-keeps image auth w p =
        elim (Result-cases (parse_public_keys libs auth auth.public_keys)) [
          | inr (e, q) ↦ rw (q) p
          | inl ((keys, invalid), q) ↦ rw (q) (validate_with-keeps image auth keys invalid w p)
        ]

    get-Ensures :
        (image : String) (auth : AttestationAuthority)
        → Ensures P
            (λ atts. is_empty atts ≡ false → Attests image auth)
            (get_validated_attestations libs auth names client image)
    get-Ensures image auth = record {
      keeps = get_validated_attestations-keeps image auth;
      gives = λ w atts p e full. (w, p, get-IsAttested image auth w atts e full);
    }

    has_attestation-Attests :
        (image : String) (auth : AttestationAuthority) (r : Result (List ValidatedAttestation))
        → ((atts : List ValidatedAttestation)
            → r ≡ ok atts
            → is_empty atts ≡ false
            → Attests image auth)
        → has_attestation r ≡ true
        → Attests image auth
    has_attestation-Attests image auth (ok []) h e = cc
    has_attestation-Attests image auth (ok (x ∷ xs)) h e = h (x ∷ xs) refl refl
    has_attestation-Attests image auth (err x) h e = cc

    pub is_attested_by-Ensures :
        (image : String) (auth : AttestationAuthority)
        → Ensures P
            (λ b. b ≡ true → Attests image auth)
            (is_attested_by libs names config client image auth)
    unfolding is_attested_by
    is_attested_by-Ensures image auth =
        Ensures-bind _ _ _ _ (Ensures-attempt _ _ (get-Ensures image auth))
          λ r h. Ensures-pure _ _ (has_attestation-Attests image auth r h)

    find-Ensures :
        (image : String) (auths : List AttestationAuthority)
        → Ensures P
            (λ not_attested. is_empty not_attested ≡ true → All (Attests image) auths)
            (find_unsatisfied_auth_names libs names config client image auths)
    unfolding find_unsatisfied_auth_names
    find-Ensures image [] = Ensures-pure _ [] (λ e. tt)
    find-Ensures image (auth ∷ auths) =
        Ensures-bind _ _ _ _ (is_attested_by-Ensures image auth) λ attested q.
          Ensures-bind _ _ _ _ (find-Ensures image auths) λ not_attested h.
            Ensures-pure _ _ (both_satisfied image auth auths attested not_attested q h)

    pub fetch-Ensures :
        (namespace : String) (ns : List String)
        → Ensures P
            (AllFetched namespace ns)
            (fetch_authorities libs names config client namespace ns)
    unfolding fetch_authorities
    fetch-Ensures namespace [] = Ensures-pure _ [] tt
    fetch-Ensures namespace (n ∷ ns) =
        Ensures-bind (Fetched namespace n) _ _ _
          (Ensures-wrapping _ (wrap "Error getting attestors: %v" []) (config.auths namespace n)
            (record { keeps = kept.fetch namespace n; gives = λ w a p e. (w, p, e) }))
          λ a f.
            Ensures-bind _ _ _ _ (fetch-Ensures namespace ns)
              λ auths fs. Ensures-pure _ (a ∷ auths) (f, fs)

    review_image-Ensures :
        (image : String) (gap : GenericAttestationPolicy)
        → Ensures P
            (λ r. r.0 ≡ true → GapAttests image gap)
            (review_image_with_gap libs names config client image gap)
    unfolding review_image_with_gap get_attestation_authorities_for_gap
    review_image-Ensures image gap =
        Ensures-bind _ _ _ _ (fetch-Ensures gap.namespace gap.attestation_authority_names)
          λ auths f. Ensures-bind _ _ _ _ (find-Ensures image auths) λ not_attested h.
            Ensures-pure _ _ (λ e.
              AllFetched-NamesAttest image gap.namespace gap.attestation_authority_names auths f
                (h (satisfied_lem not_attested e)))

    pub try-Ensures :
        (image : String) (gaps : List GenericAttestationPolicy)
        (entry : List (String × List String))
        → Ensures P
            (λ r. r.0 ≡ true → Any (GapAttests image) gaps)
            (try_gaps libs names config client image gaps entry)
    unfolding try_gaps
    try-Ensures image [] entry = Ensures-pure _ _ (λ e. cc e)
    try-Ensures image (gap ∷ gaps) entry =
        Ensures-bind _ _ _ _ (review_image-Ensures image gap) λ r h.
          Ensures-if _ r.0 _ _ (λ e. Ensures-pure _ _ (λ _. inl (h e)))
            (λ e.
              Ensures-weaken _ _ _ (try-Ensures image gaps (insert gap.name r.1 entry))
                (λ r' k e'. inr (k e')))
