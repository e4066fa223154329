-- ===== src/Signer/Checked.antt =====
-- What the signer's command line (cmd/kritis/signer/main.go) has done when it ends without a fatal error.
use kritis.Base.{ℕ, String, ◌≡◌, refl, ap, Bool, true, Option, none, some, List, [], ◌∷◌}
use kritis.Base.Result.{Error, Result, ok, wrap, map_err-eq-ok}
use kritis.Base.Exec.{Exec, ◌>>=◌, lift, wrapping}
use kritis.Base.Run.{call}
use kritis.Base.Returned.{bound-ok, wrapped-ok, then_run-ok}
use kritis.Names.{Names}
use kritis.Resources.{VulnzSigningPolicy}
use kritis.Metadata.{Bytes, Attestation, Vulnerability, Client}
use kritis.Policy.{Violation}
use kritis.Policy.Vsp.{validate_vulnz_signing_policy}
use kritis.Backend.{check_note_name}
use kritis.Payload.{ContainerSig}
use kritis.Signer.{new_signer, sign_image}
use kritis.Signer.Main.{
  SignerFlags, SignerCalls, mode_of, verdict_of, load_policy, validate_image, wait_image,
  check_image, chosen_signer, project, sign_checked, when, main, parse_timeout, wait_and_validate,
  check_policy, check_and_sign, given_image, with_client, in_mode, checked_note, sign_with,
}

verdict_of-clean :
    (image policy : String) (found : List Violation × Option Error)
    → verdict_of image policy found ≡ ok tt
    → found ≡ ([], none)
verdict_of-clean image policy ([], none) h = refl
verdict_of-clean image policy (v ∷ vs, none) h = absurd (cc h)
verdict_of-clean image policy (vs, some e) h = absurd (cc h)

call-some : {W A : Type 0} (m : Exec W A) (w : W) {r : Result A × W} → call m w ≡ some r → m w ≡ r
call-some m w h = cc h

module _ {R W K : Type 0} (names : Names R) (severity_value : String → Option ℕ)
    (marshal : ContainerSig → Result Bytes) (calls : SignerCalls W K) (flags : SignerFlags) where
  -- The vulnerabilities that the client gave for the image have no violation of a policy that was decoded.
  abbrev pub Approved : Client W K → Type 0
  Approved client =
      (file : Bytes) × (policy : VulnzSigningPolicy) × (calls.decode_policy file ≡ ok policy)
      × ((v : W) × (vulnz : List Vulnerability) × ((client.vulnerabilities flags.image v).0
            ≡ ok vulnz)
          × (validate_vulnz_signing_policy severity_value names policy flags.image vulnz
              ≡ ([], none)))

  validate_image-Approved :
      (client : Client W K) (file : Bytes) (policy : VulnzSigningPolicy) (w w' : W)
      → calls.decode_policy file ≡ ok policy
      → validate_image names severity_value marshal calls flags client policy w ≡ (ok tt, w')
      → Approved client
  validate_image-Approved client file policy w w' d h =
      let (vulnz, r, k) =
        bound-ok _ tt w' (wrapping (wrap "Found err %s" []) (client.vulnerabilities flags.image)) w
          h in
      (
        file,
        policy,
        d,
        (
          w,
          vulnz,
          map_err-eq-ok (wrap "Found err %s" []) (client.vulnerabilities flags.image w).0 r,
          verdict_of-clean flags.image policy.name
              (validate_vulnz_signing_policy severity_value names policy flags.image vulnz)
              (ap (λ x. x.0) k),
        ),
      )

  loaded :
      (policy : VulnzSigningPolicy) (w w' : W)
      → load_policy names severity_value marshal calls flags w ≡ (ok policy, w')
      → (file : Bytes) × (calls.decode_policy file ≡ ok policy)
  loaded policy w w' h =
      let (file, r, k) =
        bound-ok _ policy w'
          (wrapping (wrap "Fail to load vulnz signing policy: %v" [])
            (calls.open_policy flags.policy_path))
          w h in
      (
        file,
        map_err-eq-ok (wrap "Fail to parse policy file: %v" []) (calls.decode_policy file)
            (ap (λ x. x.0) k),
      )

  check_image-Approved :
      (client : Client W K) (w w' : W)
      → check_image names severity_value marshal calls flags client w ≡ some (ok tt, w')
      → Approved client
  unfolding check_image
  check_image-Approved client w w' h =
      let (policy, v, l, h₁) =
        then_run-ok (check_policy names severity_value marshal calls flags client) tt w'
          (call (load_policy names severity_value marshal calls flags) w) h in
      let (timeout, u, t, h₂) =
        then_run-ok (wait_and_validate names severity_value marshal calls flags client policy) tt w'
          (call (parse_timeout names severity_value marshal calls flags) v) h₁ in
      let validation = validate_image names severity_value marshal calls flags client policy in
      let (waited, x, s, h₃) =
        then_run-ok (λ waited. call validation) tt w'
          (wait_image names severity_value marshal calls flags timeout u) h₂ in
      let (file, d) =
        loaded policy w v (call-some (load_policy names severity_value marshal calls flags) w l) in
      validate_image-Approved client file policy x w' d (call-some validation x h₃)

  -- The run ended with a signature of the image by some signer, for a note with a valid name.
  abbrev pub SignedBy : Client W K → W → Type 0
  SignedBy client w' =
      (c_signer : Bytes → Exec W Attestation) × (u : W) × (sign_image names marshal client
          (new_signer c_signer flags.note_name (project names severity_value marshal calls flags)
            flags.overwrite)
          flags.image u
        ≡ (ok tt, w'))
      × (check_note_name flags.note_name ≡ ok tt)

  sign_checked-SignedBy :
      (client : Client W K) (w w' : W)
      → sign_checked names severity_value marshal calls flags client w ≡ (ok tt, w')
      → SignedBy client w'
  unfolding sign_checked
  sign_checked-SignedBy client w w' h =
      let note = checked_note names severity_value marshal calls flags in
      let signing = sign_with names severity_value marshal calls flags client in
      let chosen = chosen_signer names severity_value marshal calls flags in
      let (c_signer, r, k) = bound-ok (λ c. note >>= λ valid. signing c) tt w' chosen w h in
      let (valid, n, q) = bound-ok (λ valid. signing c_signer) tt w' note (chosen w).1 k in
      (
        c_signer,
        (note (chosen w).1).1,
        wrapped-ok (wrap "Signing image failed: %v" []) tt w'
            (sign_image names marshal client
              (new_signer c_signer flags.note_name
                (project names severity_value marshal calls flags) flags.overwrite)
              flags.image)
            (note (chosen w).1).1 q,
        map_err-eq-ok (wrap "Note name is invalid %v" []) (check_note_name flags.note_name) n,
      )

  -- A call of `containeranalysis.New` gave the client.
  abbrev pub Opened : Client W K → Type 0
  Opened client = (v : W) × ((calls.new_client v).0 ≡ ok client)

  -- What the mode asks for, with a client that the run opened.
  abbrev pub Performed : Bool × Bool → W → Type 0
  Performed mode w' =
      (client : Client W K) × Opened client
      × (mode.0 ≡ true → Approved client)
      × (mode.1 ≡ true → SignedBy client w')

  performed :
      (check sign : Bool) (client : Client W K) (opened : Opened client) (w w' : W)
      → check_and_sign names severity_value marshal calls flags (check, sign) client w
        ≡ some (ok tt, w')
      → Performed (check, sign) w'
  performed check sign client opened w w' h =
      let checking =
        when names severity_value marshal calls flags check
          (check_image names severity_value marshal calls flags client) in
      let signing = sign_checked names severity_value marshal calls flags client in
      let (done, v, c, k) =
        then_run-ok (λ checked. when names severity_value marshal calls flags sign (call signing))
          tt w' (checking w) h in
      (
        client,
        opened,
        λ e. check_image-Approved client w v (rw e at c),
        λ e. sign_checked-SignedBy client v w' (call-some signing v (rw e at k)),
      )

  -- When the command line ends without a fatal error, its mode is known and it opened a client; where
  -- the mode checks, the vulnerabilities that the client gave for the image have no violation of a
  -- decoded policy; and where the mode signs, the run ended with SignImage of the image by this client
  -- without an error, under a valid note name.
  pub main-Performed :
      (w w' : W)
      → main names severity_value marshal calls flags w ≡ some (ok tt, w')
      → (mode : Bool × Bool) × (mode_of flags.mode ≡ ok mode) × Performed mode w'
  unfolding main
  main-Performed w w' h =
      let (mode, v, m, k) =
        then_run-ok (in_mode names severity_value marshal calls flags) tt w'
          (call (lift (mode_of flags.mode)) w) h in
      let (given, u, g, q) =
        then_run-ok (with_client names severity_value marshal calls flags mode) tt w'
          (call (given_image names severity_value marshal calls flags) v) k in
      let (client, x, c, p) =
        then_run-ok (check_and_sign names severity_value marshal calls flags mode) tt w'
          (call (wrapping (wrap "Could not initialize the client %v" []) calls.new_client) u) q in
      let opened =
        map_err-eq-ok (wrap "Could not initialize the client %v" []) (calls.new_client u).0 (
          ap (λ r. r.0)
            (call-some (wrapping (wrap "Could not initialize the client %v" []) calls.new_client) u
              c)) in
      (mode, cc m, performed mode.0 mode.1 client (u, opened) x w' p)
