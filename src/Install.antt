-- ===== src/Install.antt =====
-- pkg/kritis/install/install.go and the commands of helm-hooks/preinstall/preinstall.go,
-- helm-hooks/predelete and helm-hooks/postinstall. A fatal log entry is an error; commands, the files
-- and the clock are parameters.
use kritis.Base.{
  ℕ, zero, suc, String, Bool, true, false, Option, none, some, List, [], ◌∷◌, not, str_eq,
  if◌then◌else◌,
}
use kritis.Base.Result.{Error, Result, ok, err, errorf, wrap, Done}
use kritis.Base.Exec.{Exec, ◌>>=◌, ◌>>◌, pure, raise, lift, attempt, wrapping}
use kritis.Metadata.{Bytes}

-- `cmd.Output` and `cmd.CombinedOutput` by the arguments, the sleep by milliseconds, the files, and the
-- decoder of base64 into a buffer of `DecodedLen`
pub record Commands (W : Type 0) : Type 0 where
  pub output : List String → Exec W String
  pub combined_output : List String → Exec W String
  pub sleep : ℕ → Exec W Done
  pub read_file : String → Exec W String
  pub write_file : String → Bytes → Exec W Done
  pub decode_base64 : String → Result Bytes

-- The flags and the namespace
pub record HookFlags : Type 0 where
  pub namespace : String
  pub csr_name : String
  pub tls_secret_name : String
  pub create_new_csr : Bool
  pub kritis_install_label : String
  pub webhook_name : String
  pub deployment_webhook_name : String
  pub delete_crd : Bool
  pub delete_csr : Bool

abbrev is_quote : String → Bool
is_quote s = str_eq s "'"

-- `strings.TrimPrefix(…, "'")`
abbrev pub trim_prefix : String → String
trim_prefix String.[] = String.[]
trim_prefix (String.◌∷◌ c s) = if is_quote (String.◌∷◌ c String.[]) then s else String.◌∷◌ c s

-- `strings.TrimSuffix(…, "'")`
unfoldable pub trim_suffix : String → String
trim_suffix String.[] = String.[]
trim_suffix (String.◌∷◌ c s) =
    let rest = trim_suffix s in if is_quote (String.◌∷◌ c s) then String.[] else String.◌∷◌ c rest

module _ {W : Type 0} (commands : Commands W) where
  unfoldable pub retrieve_namespace : Exec W String
  retrieve_namespace =
      wrapping
        (wrap "error trying to get namespace from %s: %v"
          ("/var/run/secrets/kubernetes.io/serviceaccount/namespace" ∷ []))
        (commands.read_file "/var/run/secrets/kubernetes.io/serviceaccount/namespace")

  unfoldable pub run_command : List String → Exec W String
  run_command args = commands.output args

  -- A command that is tried so many times, with a pause of 500 milliseconds after a failure, and the
  -- error of the last failure.
  unfoldable pub try_rounds : List String → ℕ → Option Error → Exec W Done
  try_rounds args zero none = raise (errorf "couldn't find csr : %v" ("<nil>" ∷ []))
  try_rounds args zero (some e) = raise (wrap "couldn't find csr : %v" [] e)
  try_rounds args (suc n) last = attempt (commands.combined_output args) >>= λ r. elim r [
    | ok found ↦ pure tt
    | err e ↦ commands.sleep 500 >> try_rounds args n (some e)
  ]

  -- Deletes what a command finds.
  abbrev pub delete_found : Bool → List String → Result String → Exec W Done
  delete_found wanted args (err e) = pure tt
  delete_found wanted args (ok found) =
      if wanted then (run_command args >>= λ deleted. pure tt) else pure tt

module _ {W : Type 0} (commands : Commands W) (flags : HookFlags) where
  abbrev pub on_object : String → String → String → List String
  on_object verb object name =
      "kubectl" ∷ verb ∷ object ∷ name ∷ "--namespace" ∷ flags.namespace ∷ []

  -- `deleteObject`, and the two deletions of `deleteExistingObjects`
  unfoldable pub delete_object : Bool → String → String → Exec W Done
  delete_object wanted object name =
      attempt (commands.output (on_object "get" object name))
      >>= delete_found commands wanted (on_object "delete" object name)

  unfoldable pub delete_existing_objects : Exec W Done
  delete_existing_objects =
      delete_object flags.create_new_csr "csr" flags.csr_name
      >> delete_object true "secret" flags.tls_secret_name

  unfoldable pub delete_webhooks : Exec W Done
  delete_webhooks =
      delete_object true "validatingwebhookconfiguration" flags.webhook_name
      >> delete_object true "validatingwebhookconfiguration" flags.deployment_webhook_name

  unfoldable pub delete_tls_secret : Exec W Done
  delete_tls_secret = delete_object true "secret" flags.tls_secret_name

  unfoldable pub delete_csr_object : Exec W Done
  delete_csr_object = delete_object true "csr" flags.csr_name

  unfoldable pub delete_crds : Exec W Done
  delete_crds = do
    delete_object true "crd" "attestationauthorities.kritis.grafeas.io"
    delete_object true "crd" "imagesecuritypolicies.kritis.grafeas.io"
    delete_object true "crd" "kritisconfigs.kritis.grafeas.io"
    delete_object true "crd" "genericattestationpolicies.kritis.grafeas.io"

  -- `main` of the predelete hook
  unfoldable pub predelete : Exec W Done
  predelete = do
    delete_webhooks
    delete_tls_secret
    if flags.delete_csr then delete_csr_object else pure tt
    if flags.delete_crd then delete_crds else pure tt

  abbrev found_csr : Result String → Bool
  found_csr (ok out) = true
  found_csr (err e) = false

  unfoldable pub csr_exists : Exec W Bool
  csr_exists =
      attempt (commands.output (on_object "get" "csr" flags.csr_name)) >>= λ r. pure (found_csr r)

  unfoldable pub approve_certificate_signing_request : Exec W Done
  approve_certificate_signing_request =
      run_command commands ("kubectl" ∷ "certificate" ∷ "approve" ∷ flags.csr_name ∷ []) >>= λ out.
      pure tt

  abbrev pub retrieve_cert : List String
  retrieve_cert =
      "kubectl" ∷ "get" ∷ "csr" ∷ flags.csr_name ∷ "-o" ∷ "jsonpath='{.status.certificate}'"
      ∷ "--namespace" ∷ flags.namespace ∷ []

  -- The loop of `waitForCSR`, which gives an empty text after its rounds.
  unfoldable pub csr_rounds : ℕ → Exec W String
  csr_rounds zero = pure ""
  csr_rounds (suc n) = run_command commands retrieve_cert >>= λ cert.
      if not (str_eq cert "") then pure cert else commands.sleep 10 >> csr_rounds n

  abbrev generated : String → Exec W String
  generated cert =
      if str_eq cert "" then raise (errorf "csr wasn't generated in time" []) else pure cert

  unfoldable pub wait_for_csr : Exec W String
  wait_for_csr = csr_rounds 20 >>= generated

  unfoldable pub create_tls_secret : Exec W Done
  create_tls_secret = do
    cert_str ← wait_for_csr
    decoded ←
        wrapping (wrap "couldn't decode cert: %v" [])
          (lift (commands.decode_base64 (trim_suffix (trim_prefix cert_str))))
    wrapping (wrap "unable to copy decoded cert to server.crt: %v" [])
        (commands.write_file "server.crt" decoded)
    try_rounds commands (on_object "get" "csr" flags.csr_name) 10 none
    run_command commands (
        "kubectl" ∷ "create" ∷ "secret" ∷ "tls" ∷ flags.tls_secret_name ∷ "--cert=server.crt"
        ∷ "--key=server-key.pem" ∷ "--namespace" ∷ flags.namespace ∷ [])
    pure tt

  -- `waitForTLSSecret` of the postinstall hook
  unfoldable pub wait_for_tls_secret : Exec W Done
  wait_for_tls_secret = try_rounds commands (on_object "get" "secret" flags.tls_secret_name) 20 none

  -- The certificate that `getCaBundle` keeps.
  unfoldable pub get_ca_bundle : Exec W String
  get_ca_bundle =
      run_command commands (
        "kubectl" ∷ "get" ∷ "secret" ∷ flags.tls_secret_name ∷ "-o" ∷ "jsonpath='{.data.tls\\.crt}'"
        ∷ "--namespace" ∷ flags.namespace ∷ [])
      >>= λ out. pure (trim_suffix (trim_prefix out))
