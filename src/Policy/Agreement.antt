-- ===== src/Policy/Agreement.antt =====
-- The two policies on vulnerabilities, which are written twice in the source, side by side.
use mathlib.Core.Option
use kritis.Base.{
  ℕ, String, ◌≡◌, refl, inl, inr, ap, Bool, true, false, ◌||◌, ltb, length, Option, none, some,
  List, [], ◌∷◌, arith, map, if◌then◌else◌, Bool-cases, Option-cases, str_eq,
}
use kritis.Base.Maps.{insert, lookup-insert, lookup-nil}
use kritis.Base.Result.{Error, Result, ok, err, ◌>>=◌}
use kritis.Names.{Names}
use kritis.Resources.{ImageSecurityPolicy, VulnzSigningPolicy}
use kritis.Metadata.{Vulnerability, Client}
use kritis.Policy.{Violation, ViolationType, allow_all, in_list, collect}
use kritis.Policy.Isp
use kritis.Policy.Isp.{
  image_in_allowlist, fully_qualified_image, check_fetched, validate_image_security_policy,
  cve_in_allowlist,
}
use kritis.Policy.Vsp
use kritis.Policy.Vsp.{make_map, in_map, make_cve_allowlist_map, validate_vulnz_signing_policy}

-- The two policies set the same requirements.
pub record SameRequirements (isp : ImageSecurityPolicy) (vsp : VulnzSigningPolicy) : Type 0 where
  pub with_fix :
      isp.package_vulnerability_requirements.maximum_severity
      ≡ vsp.image_vulnerability_requirements.maximum_fixable_severity
  pub without_fix :
      isp.package_vulnerability_requirements.maximum_fix_unavailable_severity
      ≡ vsp.image_vulnerability_requirements.maximum_unfixable_severity
  pub cves :
      isp.package_vulnerability_requirements.allowlist_cves
      ≡ vsp.image_vulnerability_requirements.allowlist_cves

-- What a violation is about, without the wording of its reason.
abbrev pub Finding : Type 0
Finding = Option Vulnerability × ViolationType

abbrev pub finding : Violation → Finding
finding x = (x.vulnerability, x.v_type)

abbrev pub findings : List Violation × Option Error → List Finding × Option Error
findings (violations, error) = (map finding violations, error)

abbrev verdict_finding : Result (Option Violation) → Result (Option Finding)
verdict_finding (err e) = err e
verdict_finding (ok o) = ok (Option.map finding o)

in_map-make_map :
    (cve : String) (m : List (String × Bool)) (ws : List String)
    → in_map cve (make_map m ws) ≡ (in_list cve ws || in_map cve m)
unfolding make_map
in_map-make_map cve m [] = refl
in_map-make_map cve m (w ∷ ws) =
    ground (arith, in_map-make_map cve (insert w true m) ws, lookup-insert w cve true m)

collect_agree :
    (f g : Vulnerability → Result (Option Violation))
    → ((v : Vulnerability) → verdict_finding (f v) ≡ verdict_finding (g v))
    → (vulnz : List Vulnerability) → findings (collect f vulnz) ≡ findings (collect g vulnz)
unfolding collect
collect_agree f g h [] = refl
collect_agree f g h (v ∷ vulnz) = ground (arith, h v, collect_agree f g h vulnz)

module _ (severity_value : String → Option ℕ) where
  severity_agree :
      (max sev : String)
      → Isp.severity_within_threshold severity_value max sev
        ≡ Vsp.severity_within_threshold severity_value max sev
  unfolding Isp.severity_within_threshold Vsp.severity_within_threshold
  severity_agree max sev = elim (Option-cases (severity_value max)) [
    | inl e ↦ rw e
    | inr (m, e) ↦ elim (Option-cases (severity_value sev)) [
      | inl e' ↦ rw (e, e')
      | inr (s, e') ↦ rw (e, e')
    ]
  ]

  unless_agree :
      (x y : Violation) (r : Result Bool)
      → finding x ≡ finding y
      → verdict_finding (r >>= Isp.unless_within severity_value x)
        ≡ verdict_finding (r >>= Vsp.unless_within severity_value y)
  unless_agree x y (ok true) e = refl
  unless_agree x y (ok false) e = ap (λ (f : Finding). ok (some f)) e
  unless_agree x y (err z) e = refl

  module _ (isp : ImageSecurityPolicy) (vsp : VulnzSigningPolicy) (same : SameRequirements isp vsp)
      (image : String) where
    listed_agree :
        (cve : String) → in_map cve (make_cve_allowlist_map vsp) ≡ cve_in_allowlist isp cve
    unfolding make_cve_allowlist_map cve_in_allowlist
    listed_agree cve = ground (
      arith,
      in_map-make_map cve [] vsp.image_vulnerability_requirements.allowlist_cves,
      lookup-nil {A = Bool} cve,
      ap (in_list cve) same.cves,
    )

    fixable_agree : Isp.max_sev isp ≡ Vsp.max_fixable vsp
    fixable_agree = ap (λ s. if str_eq s "" then "CRITICAL" else s) same.with_fix

    unfixable_agree : Isp.max_no_fix_sev isp ≡ Vsp.max_unfixable vsp
    unfixable_agree = ap (λ s. if str_eq s "" then allow_all else s) same.without_fix

    check_agree :
        (v : Vulnerability)
        → verdict_finding (Isp.check_vulnerability severity_value isp image v)
          ≡ verdict_finding
              (Vsp.check_vulnerability severity_value vsp (make_cve_allowlist_map vsp) image v)
    unfolding Isp.check_vulnerability Vsp.check_vulnerability
    check_agree v = elim (Bool-cases (cve_in_allowlist isp v.cve)) [
      | inl e ↦ rw (listed_agree, e)
      | inr ne ↦ elim (Bool-cases v.has_fix_available) [
        | inl fix ↦
            simp (listed_agree, ne, fix)
              (rw (severity_agree, fixable_agree) (unless_agree _ _ _ refl))
        | inr no_fix ↦
            simp (listed_agree, ne, no_fix)
              (rw (severity_agree, unfixable_agree) (unless_agree _ _ _ refl))
      ]
    ]

    not_empty_agree :
        (vulnz : List Vulnerability) (f : Vulnerability → Result (Option Violation))
        → (if ltb 0 (length vulnz) then collect f vulnz else ([], none)) ≡ collect f vulnz
    unfolding collect
    not_empty_agree [] f = refl
    not_empty_agree (v ∷ vulnz) f = ground arith

    -- For an image that the image security policy does not list, the two policies with the same
    -- requirements report the same vulnerabilities with the same violation types, in the same
    -- order, and end with the same error, whatever vulnerabilities the client returns.
    pub validate_agree :
        {R W K : Type 0} (names : Names R) (client : Client W K) (w : W)
        (vulnz : List Vulnerability)
        → image_in_allowlist isp image ≡ false
        → (client.vulnerabilities image w).0 ≡ ok vulnz
        → findings (validate_image_security_policy severity_value names isp image client w).0
          ≡ findings (validate_vulnz_signing_policy severity_value names vsp image vulnz)
    unfolding validate_image_security_policy validate_vulnz_signing_policy
    validate_agree names client w vulnz unlisted fetched =
        elim (Bool-cases (fully_qualified_image names image)) [
          | inl q ↦ rw (unlisted, q, fetched, not_empty_agree) (collect_agree _ _ check_agree vulnz)
          | inr nq ↦ rw (unlisted, nq)
        ]
