-- ===== src/Signer/Main.antt =====
-- cmd/kritis/signer/main.go: the command line of the vulnerability signer. A fatal log entry and an
-- exit are errors; the files, the clients and the clock are parameters.
use kritis.Base.{
  ℕ, String, Bool, true, false, ◌&&◌, not, Option, none, some, List, [], ◌∷◌, length, str_eq,
  if◌then◌else◌,
}
use kritis.Base.Result.{Error, Result, ok, err, errorf, errorf_count, wrap, map_err, Done}
use kritis.Base.Exec
use kritis.Base.Exec.{Exec, pure, raise, lift, wrapping}
use kritis.Base.Run.{Run, ◌>>=◌, call}
use kritis.Names.{Names}
use kritis.Resources.{VulnzSigningPolicy}
use kritis.Metadata.{Bytes, Attestation, Client}
use kritis.Policy.{Violation}
use kritis.Policy.Vsp.{validate_vulnz_signing_policy}
use kritis.Backend.{check_note_name, get_project_from_container_image}
use kritis.Payload.{ContainerSig}
use kritis.Signer.{DigestAlgorithm, sha256, sha384, sha512, other_algorithm, new_signer, sign_image}

-- The flags
pub record SignerFlags : Type 0 where
  pub mode : String
  pub image : String
  pub vulnz_timeout : String
  pub policy_path : String
  pub attestation_project : String
  pub overwrite : Bool
  pub note_name : String
  pub pgp_pri_key_path : String
  pub pgp_passphrase : String
  pub kms_key_name : String
  pub kms_digest_alg : String

-- What `main` calls: `containeranalysis.New` with its wait, the files, the decoders, and the two signers
-- by their `CreateAttestation`. Closing the policy file is left out. A duration
-- below zero is taken as 0: the timer of the wait fires at once for both.
pub record SignerCalls (W K : Type 0) : Type 0 where
  pub new_client : Exec W (Client W K)
  pub wait_for_vulnz_analysis : String → ℕ → Run W Done
  pub open_policy : String → Exec W Bytes
  pub decode_policy : Bytes → Result VulnzSigningPolicy
  pub parse_duration : String → Result ℕ
  pub read_file : String → Exec W Bytes
  pub new_cloud_kms_signer : String → DigestAlgorithm → Exec W (Bytes → Exec W Attestation)
  pub new_pgp_signer : Bytes → String → Result (Bytes → Exec W Attestation)

-- The switch on the mode: whether to check, and whether to sign.
unfoldable pub mode_of : String → Result (Bool × Bool)
mode_of mode =
    if str_eq mode "check-and-sign"
    then ok (true, true)
    else if str_eq mode "bypass-and-sign"
    then ok (false, true)
    else if str_eq mode "check-only"
    then ok (true, false)
    else err (errorf "Unrecognized mode %s." (mode ∷ []))

abbrev pub digest_algorithm_of : String → DigestAlgorithm
digest_algorithm_of name =
    if str_eq name "SHA256"
    then sha256
    else if str_eq name "SHA384"
    then sha384
    else if str_eq name "SHA512"
    then sha512
    else other_algorithm name

-- What the violations and the error lead to.
abbrev pub verdict_of : String → String → List Violation × Option Error → Result Done
verdict_of image policy (violations, some e) =
    err (errorf "Error when evaluating image %q against policy %q" (image ∷ policy ∷ []))
verdict_of image policy ([], none) = ok tt
verdict_of image policy (v ∷ violations, none) =
    err (errorf_count "Found %d violations in image %s:" (length (v ∷ violations)))

module _ {R W K : Type 0} (names : Names R) (severity_value : String → Option ℕ)
    (marshal : ContainerSig → Result Bytes) (calls : SignerCalls W K) (flags : SignerFlags) where
  abbrev pub load_policy : Exec W VulnzSigningPolicy
  load_policy =
      Exec.◌>>=◌
        (wrapping (wrap "Fail to load vulnz signing policy: %v" [])
          (calls.open_policy flags.policy_path))
        (λ file.
          lift (map_err (wrap "Fail to parse policy file: %v" []) (calls.decode_policy file)))

  -- The vulnerabilities are read and validated; the backend returns no nil list beside a nil error.
  abbrev pub validate_image : Client W K → VulnzSigningPolicy → Exec W Done
  validate_image client policy =
      Exec.◌>>=◌ (wrapping (wrap "Found err %s" []) (client.vulnerabilities flags.image)) (λ vulnz.
        lift (
          verdict_of flags.image policy.name
            (validate_vulnz_signing_policy severity_value names policy flags.image vulnz)))

  abbrev pub wait_fatal : Error → Error
  wait_fatal = wrap "Error waiting for vulnerability analysis %v" []

  abbrev pub wrapped_run : Option (Result Done × W) → Option (Result Done × W)
  wrapped_run none = none
  wrapped_run (some (r, w)) = some (map_err wait_fatal r, w)

  abbrev pub wait_image : ℕ → Run W Done
  wait_image timeout w = wrapped_run (calls.wait_for_vulnz_analysis flags.image timeout w)

  abbrev pub parse_timeout : Exec W ℕ
  parse_timeout =
      lift (map_err (wrap "Fail to parse timeout %v" []) (calls.parse_duration flags.vulnz_timeout))

  abbrev pub wait_and_validate : Client W K → VulnzSigningPolicy → ℕ → Run W Done
  wait_and_validate client policy timeout =
      wait_image timeout >>= λ waited. call (validate_image client policy)

  abbrev pub check_policy : Client W K → VulnzSigningPolicy → Run W Done
  check_policy client policy = call parse_timeout >>= wait_and_validate client policy

  unfoldable pub check_image : Client W K → Run W Done
  check_image client = call load_policy >>= check_policy client

  -- The signer that the flags choose.
  abbrev pub chosen_signer : Exec W (Bytes → Exec W Attestation)
  chosen_signer =
      if str_eq flags.kms_key_name "" && str_eq flags.pgp_pri_key_path ""
      then raise (errorf "Neither kms_key_name or private_key is specified" [])
      else if not (str_eq flags.kms_key_name "")
      then (if str_eq flags.kms_digest_alg ""
          then raise (
              errorf
                "kms_digest_alg is unspecified, must be one of SHA256|SHA384|SHA512, and the same as specified by the key version's algorithm"
                [])
          else wrapping (wrap "Creating kms signer failed: %v\n" []) (
              calls.new_cloud_kms_signer flags.kms_key_name
                (digest_algorithm_of flags.kms_digest_alg)))
      else Exec.◌>>=◌
          (wrapping (wrap "Fail to read signer key: %v\n" [])
            (calls.read_file flags.pgp_pri_key_path))
          (λ signer_key. lift (
            map_err (wrap "Creating pgp signer failed: %v\n" [])
              (calls.new_pgp_signer signer_key flags.pgp_passphrase)))

  abbrev pub project : String
  project =
      if str_eq flags.attestation_project ""
      then get_project_from_container_image flags.image
      else flags.attestation_project

  abbrev pub checked_note : Exec W Done
  checked_note =
      lift (map_err (wrap "Note name is invalid %v" []) (check_note_name flags.note_name))

  abbrev pub sign_with : Client W K → (Bytes → Exec W Attestation) → Exec W Done
  sign_with client c_signer = wrapping (wrap "Signing image failed: %v" []) (
      sign_image names marshal client (new_signer c_signer flags.note_name project flags.overwrite)
        flags.image)

  unfoldable pub sign_checked : Client W K → Exec W Done
  sign_checked client =
      Exec.◌>>=◌ chosen_signer
        (λ c_signer. Exec.◌>>=◌ checked_note (λ valid. sign_with client c_signer))

  abbrev pub when : Bool → Run W Done → Run W Done
  when true m = m
  when false m = call (pure tt)

  abbrev pub check_and_sign : Bool × Bool → Client W K → Run W Done
  check_and_sign mode client =
      when mode.0 (check_image client) >>= λ checked. when mode.1 (call (sign_checked client))

  abbrev pub given_image : Exec W Done
  given_image =
      if str_eq flags.image "" then raise (errorf "Image url is empty: %s" []) else pure tt

  abbrev pub with_client : Bool × Bool → Done → Run W Done
  with_client mode given =
      call (wrapping (wrap "Could not initialize the client %v" []) calls.new_client)
      >>= check_and_sign mode

  abbrev pub in_mode : Bool × Bool → Run W Done
  in_mode mode = call given_image >>= with_client mode

  unfoldable pub main : Run W Done
  main = call (lift (mode_of flags.mode)) >>= in_mode
