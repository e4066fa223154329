-- ===== src/BuildSigner/Matching.antt =====
-- For which policies the build signer (pkg/kritis/gcbsigner/signer.go) creates occurrences, and with which
-- notes and secrets.
use kritis.Base.{String, ◌≡◌, refl, ◌⊎◌, inl, inr, List, [], ◌∷◌, All, In, Option}
use kritis.Base.Result.{Result, ok, err, Done}
use kritis.Base.Exec.{Exec}
use kritis.Base.Ensures.{Ensures, Ensures-pure, Ensures-weaken, Ensures-attempt, Ensures-bind}
use kritis.Resources.{BuildPolicy, AttestationAuthority}
use kritis.Metadata.{Client, Note, get_name}
use kritis.Review.Isp.{default_project, or_create, get_or_create_attestation_note}
use kritis.BuildSigner.{BuildProvenance, add_attestation, when_valid, validate_and_sign}

module _ {W K : Type 0} (validate : BuildPolicy → String → Result Done)
    (secret : String → String → Exec W K) (auths : String → String → Exec W AttestationAuthority)
    (client : Client W K) (prov : BuildProvenance) (bps : List BuildPolicy) (w : W) where
  -- A read or a creation gave the note of the authority.
  abbrev pub GaveNote : AttestationAuthority → W → Option Note → Type 0
  GaveNote a v n =
      ((client.attestation_note a v).0 ≡ ok n) ⊎ ((client.create_attestation_note a v).0 ≡ ok n)

  -- The worlds that follow `w` by reads, by the creation of notes, and by the creation of occurrences
  -- for the image of the provenance under a policy of the list that its source matches: for a note
  -- of the policy's authority and with its secret, as worlds of the run gave them.
  pub data Signed : W → Type 0 where
    now : Signed w
    after_fetch : (v : W) (ns name : String) → Signed v → Signed (auths ns name v).1
    after_secret : (v : W) (ns name : String) → Signed v → Signed (secret ns name v).1
    after_note :
        (v : W) (a : AttestationAuthority) → Signed v → Signed (client.attestation_note a v).1
    after_create_note :
        (v : W) (a : AttestationAuthority)
        → Signed v
        → Signed (client.create_attestation_note a v).1
    after_occurrence :
        (v : W) (bp : BuildPolicy) (a : AttestationAuthority) (n : Option Note) (k : K)
        (at_auth at_note at_secret : W)
        → In bp bps
        → validate bp prov.built_from ≡ ok tt
        → Signed at_auth
        → (auths bp.namespace bp.attestation_authority_name at_auth).0 ≡ ok a
        → Signed at_note
        → GaveNote a at_note n
        → Signed at_secret
        → (secret bp.namespace bp.private_key_secret_name at_secret).0 ≡ ok k
        → Signed v
        → Signed
            (client.create_attestation_occurrence (get_name n) prov.image_ref k default_project v).1

  -- A fetch of the policy's authority gave it.
  abbrev pub HasAuthority : BuildPolicy → AttestationAuthority → Type 0
  HasAuthority bp a =
      (v : W) × Signed v × ((auths bp.namespace bp.attestation_authority_name v).0 ≡ ok a)

  abbrev pub HasNote : AttestationAuthority → Option Note → Type 0
  HasNote a n = (v : W) × Signed v × GaveNote a v n

  abbrev pub HasSecret : BuildPolicy → K → Type 0
  HasSecret bp k =
      (v : W) × Signed v × ((secret bp.namespace bp.private_key_secret_name v).0 ≡ ok k)

  -- An occurrence for the image was created, in a world of the run, for a note of the policy's
  -- authority and with the policy's secret.
  abbrev pub Created : BuildPolicy → Type 0
  Created bp =
      (a : AttestationAuthority) × (n : Option Note) × (k : K) × HasAuthority bp a
      × HasNote a n
      × HasSecret bp k
      × ((v : W) × Signed v
          × ((client.create_attestation_occurrence (get_name n) prov.image_ref k default_project
                v).0
              ≡ ok tt))

  or_create-Ensures :
      (a : AttestationAuthority) (r : Result (Option Note))
      → ((n : Option Note) → r ≡ ok n → HasNote a n)
      → Ensures Signed (HasNote a) (or_create client a r)
  or_create-Ensures a (ok n) has = Ensures-pure _ n (has n refl)
  or_create-Ensures a (err e) has = record {
    keeps = λ v s. Signed.after_create_note v a s;
    gives = λ v n s e. (v, s, inr e);
  }

  get_or_create-Ensures :
      (a : AttestationAuthority)
      → Ensures Signed (HasNote a) (get_or_create_attestation_note client a)
  unfolding get_or_create_attestation_note
  get_or_create-Ensures a =
      Ensures-bind _ _ _ _
        (Ensures-attempt (HasNote a) (client.attestation_note a)
          (record { keeps = λ v s. Signed.after_note v a s; gives = λ v n s e. (v, s, inl e) }))
        (λ r has. or_create-Ensures a r has)

  create-Ensures :
      (bp : BuildPolicy) (a : AttestationAuthority) (n : Option Note) (k : K)
      → In bp bps
      → validate bp prov.built_from ≡ ok tt
      → HasAuthority bp a
      → HasNote a n
      → HasSecret bp k
      → Ensures Signed
          (λ u. Created bp)
          (client.create_attestation_occurrence (get_name n) prov.image_ref k default_project)
  create-Ensures bp a n k i valid (va, sa, ea) (vn, sn, en) (vk, sk, ek) = record {
    keeps = λ v s. Signed.after_occurrence v bp a n k va vn vk i valid sa ea sn en sk ek s;
    gives = λ v u s e. (a, n, k, (va, sa, ea), (vn, sn, en), (vk, sk, ek), (v, s, e));
  }

  add_attestation-Ensures :
      (bp : BuildPolicy)
      → In bp bps
      → validate bp prov.built_from ≡ ok tt
      → Ensures Signed
          (λ u. Created bp)
          (add_attestation validate secret auths client prov.image_ref bp)
  unfolding add_attestation
  add_attestation-Ensures bp i valid =
      Ensures-bind (HasAuthority bp) _ (auths bp.namespace bp.attestation_authority_name) _
        (record {
          keeps = λ v s. Signed.after_fetch v bp.namespace bp.attestation_authority_name s;
          gives = λ v a s e. (v, s, e);
        })
        λ a has_authority. Ensures-bind (HasNote a) _ _ _ (get_or_create-Ensures a) λ n has_note.
          Ensures-bind (HasSecret bp) _ (secret bp.namespace bp.private_key_secret_name) _
            (record {
              keeps = λ v s. Signed.after_secret v bp.namespace bp.private_key_secret_name s;
              gives = λ v k s e. (v, s, e);
            })
            λ k has_secret. create-Ensures bp a n k i valid has_authority has_note has_secret

  -- A policy that the source matches has its occurrence.
  abbrev pub Attested : BuildPolicy → Type 0
  Attested bp = validate bp prov.built_from ≡ ok tt → Created bp

  when_valid-Ensures :
      (bp : BuildPolicy) (r : Result Done)
      → In bp bps
      → validate bp prov.built_from ≡ r
      → Ensures Signed
          (λ u. Attested bp)
          (when_valid validate secret auths client r
            (add_attestation validate secret auths client prov.image_ref bp))
  when_valid-Ensures bp (ok tt) i e =
      Ensures-weaken _ _ _ (add_attestation-Ensures bp i e) (λ u created _. created)
  when_valid-Ensures bp (err x) i e = Ensures-pure _ tt (λ valid. absurd (cc (e, valid)))

  each-Ensures :
      (bs : List BuildPolicy)
      → ((b : BuildPolicy) → In b bs → In b bps)
      → Ensures Signed
          (λ u. All Attested bs)
          (validate_and_sign validate secret auths client prov bs)
  unfolding validate_and_sign
  each-Ensures [] sub = Ensures-pure _ tt tt
  each-Ensures (b ∷ bs) sub =
      Ensures-bind _ _ _ _
        (when_valid-Ensures b (validate b prov.built_from) (sub b (inl refl)) refl)
        λ u attested.
          Ensures-weaken _ _ _ (each-Ensures bs (λ c i. sub c (inr i)))
            (λ u' rest. (attested, rest))

  -- Whatever the run returns, each occurrence that it creates is for the image of the provenance under a
  -- policy that its source matches, for a note of this policy's authority and with this policy's
  -- secret; and when it returns no error, each policy of the list that the source matches has such an
  -- occurrence.
  pub validate_and_sign-Signed :
      Signed (validate_and_sign validate secret auths client prov bps w).1
      × ((validate_and_sign validate secret auths client prov bps w).0 ≡ ok tt → All Attested bps)
  validate_and_sign-Signed =
      let run = each-Ensures bps (λ b i. i) in (run.keeps w Signed.now, run.gives w tt Signed.now)
