-- ===== src/BuildSigner.antt =====
-- pkg/kritis/gcbsigner/signer.go, with `ValidateBuildPolicy` of pkg/kritis/crd/buildpolicy
pub mod Matching
pub mod Events
pub mod Provenance
use kritis.Base.{String, Bool, true, false, List, [], ◌∷◌, if◌then◌else◌}
use kritis.Base.Result
use kritis.Base.Result.{Result, ok, err, errorf, Done}
use kritis.Base.Exec.{Exec, pure, ◌>>=◌, ◌>>◌}
use kritis.Resources.{BuildPolicy, AttestationAuthority}
use kritis.Metadata.{Client, get_name}
use kritis.Review.Isp.{default_project, get_or_create_attestation_note}

-- `BuildProvenance`
pub record BuildProvenance : Type 0 where
  pub build_id : String
  pub image_ref : String
  pub built_from : String

-- `ValidateBuildPolicy`; `match_string` is `regexp.MatchString`.
unfoldable pub validate_build_policy :
    (String → String → Result Bool) → BuildPolicy → String → Result Done
validate_build_policy match_string bp built_from =
    Result.◌>>=◌ (match_string bp.built_from built_from) (λ matches.
      if matches
      then ok tt
      else err (errorf "Source %q does not match required %q" (built_from ∷ bp.built_from ∷ [])))

module _ {W K : Type 0}
    -- `Config`, with `authFetcher`
    (validate : BuildPolicy → String → Result Done) (secret : String → String → Exec W K)
    (auths : String → String → Exec W AttestationAuthority) (client : Client W K) where
  unfoldable pub add_attestation : String → BuildPolicy → Exec W Done
  add_attestation image bp = do
    a ← auths bp.namespace bp.attestation_authority_name
    n ← get_or_create_attestation_note client a
    sec ← secret bp.namespace bp.private_key_secret_name
    client.create_attestation_occurrence (get_name n) image sec default_project

  -- `if result != nil { …; continue }`
  abbrev pub when_valid : Result Done → Exec W Done → Exec W Done
  when_valid (ok _) m = m
  when_valid (err e) m = pure tt

  unfoldable pub validate_and_sign : BuildProvenance → List BuildPolicy → Exec W Done
  validate_and_sign prov [] = pure tt
  validate_and_sign prov (bp ∷ bps) = do
    when_valid (validate bp prov.built_from) (add_attestation prov.image_ref bp)
    validate_and_sign prov bps
