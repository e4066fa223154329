-- ===== src/Policy/Tolerance.antt =====
-- When an image security policy finds no violation.
use kritis.Base.{
  ℕ, ◌≤◌, String, sym, subst, ◌≡◌, ◌≢◌, refl, ap, ◌↔◌, ◌⊎◌, inl, inr, Bool, true, false, Option,
  none, some, List, [], ◌∷◌, arith, if◌then◌else◌, Bool-cases, leb_iff, str_eq, str_eq_iff, All, In,
  any_iff, All-map,
}
use kritis.Base.Result.{Result, ok, err, ok-injective, ◌>>=◌}
use kritis.Names.{Names}
use kritis.Resources.{ImageSecurityPolicy}
use kritis.Metadata.{Vulnerability, Client}
use kritis.Policy.{Violation, allow_all, block_all, in_list, collect}
use kritis.Policy.Isp.{
  fixable, unfixed, max_sev, max_no_fix_sev, fully_qualified_image, image_in_allowlist,
  cve_in_allowlist, compare_levels, unless_within, severity_within_threshold, check_vulnerability,
  check_fetched, validate_image_security_policy,
}

pub in_list_iff : (s : String) (ws : List String) → (in_list s ws ≡ true) ↔ In s ws
in_list_iff s ws = any_iff (λ w. w ≡ s) (λ w. str_eq w s) (λ w. str_eq_iff w s) ws

-- The violation that a vulnerability beyond its threshold adds.
abbrev pub violation_of : ImageSecurityPolicy → String → Vulnerability → Violation
violation_of isp image v = if v.has_fix_available then fixable isp image v else unfixed isp image v

module _ (severity_value : String → Option ℕ) where
  not_block : (max : String) → str_eq max block_all ≡ false → max ≢ block_all
  not_block max nb e = cc (nb, (str_eq_iff max block_all).1 e)

  -- A severity is within a threshold: the threshold is not "BLOCK_ALL", and it is "ALLOW_ALL" or
  -- both are known severities, in order.
  abbrev pub Within : String → String → Type 0
  Within threshold severity =
      (threshold ≢ block_all)
      × ((threshold ≡ allow_all)
          ⊎ ((m : ℕ) × (s : ℕ) × (severity_value threshold ≡ some m)
              × (severity_value severity ≡ some s)
              × (s ≤ m)))

  -- The threshold that a policy sets for a vulnerability.
  abbrev pub threshold : ImageSecurityPolicy → Vulnerability → String
  threshold isp v = if v.has_fix_available then max_sev isp else max_no_fix_sev isp

  abbrev pub Tolerated : ImageSecurityPolicy → Vulnerability → Type 0
  Tolerated isp v =
      In v.cve isp.package_vulnerability_requirements.allowlist_cves
      ⊎ Within (threshold isp v) v.severity

  compare_levels_iff :
      (max sev : String) (o p : Option ℕ)
      → (compare_levels severity_value max sev o p ≡ ok true)
        ↔ ((m : ℕ) × (s : ℕ) × (o ≡ some m) × (p ≡ some s) × (s ≤ m))
  compare_levels_iff max sev none p = (λ h. cc, λ (m, s, e, f, le). cc)
  compare_levels_iff max sev (some m) none = (λ h. cc, λ (m', s, e, f, le). cc)
  compare_levels_iff max sev (some m) (some s) = (
    λ h. (m, s, refl, refl, (leb_iff s m).0 (ground arith)),
    λ (m', s', e, f, le). ap ok ((leb_iff s m).1 (ground arith)),
  )

  severity_within_threshold_iff :
      (max sev : String)
      → (severity_within_threshold severity_value max sev ≡ ok true) ↔ Within max sev
  unfolding severity_within_threshold
  severity_within_threshold_iff max sev = elim (Bool-cases (str_eq max block_all)) [
    | inl b ↦ rw b (λ h. cc, λ w. absurd (w.0 ((str_eq_iff max block_all).0 b)))
    | inr nb ↦ elim (Bool-cases (str_eq max allow_all)) [
      | inl a ↦
          rw (nb, a) (λ h. (not_block max nb, inl ((str_eq_iff max allow_all).0 a)), λ w. refl)
      | inr na ↦
          rw (nb, na)
            (
              λ h. (not_block max nb, inr ((compare_levels_iff max sev _ _).0 h)),
              λ w. elim w.1 [
                | inl a ↦ absurd (cc (na, (str_eq_iff max allow_all).1 a))
                | inr ls ↦ (compare_levels_iff max sev _ _).1 ls
              ],
            )
    ]
  ]

  unless_within_iff :
      (x : Violation) (r : Result Bool)
      → ((r >>= unless_within severity_value x) ≡ ok none) ↔ (r ≡ ok true)
  unless_within_iff x (ok true) = (λ h. refl, λ h. refl)
  unless_within_iff x (ok false) = (λ h. cc, λ h. cc)
  unless_within_iff x (err e) = (λ h. cc, λ h. cc)

  module _ (isp : ImageSecurityPolicy) (image : String) (v : Vulnerability) where
    check_listed :
        cve_in_allowlist isp v.cve ≡ true → check_vulnerability severity_value isp image v ≡ ok none
    unfolding check_vulnerability
    check_listed e = rw e

    check_unlisted :
        cve_in_allowlist isp v.cve ≡ false
        → check_vulnerability severity_value isp image v ≡ (
            severity_within_threshold severity_value (threshold isp v) v.severity
            >>= unless_within severity_value (violation_of isp image v))
    unfolding check_vulnerability
    check_unlisted e = elim (Bool-cases v.has_fix_available) [
      | inl fix ↦ simp (e, fix)
      | inr no_fix ↦ simp (e, no_fix)
    ]

    check_vulnerability_iff :
        (check_vulnerability severity_value isp image v ≡ ok none) ↔ Tolerated isp v
    check_vulnerability_iff = elim (Bool-cases (cve_in_allowlist isp v.cve)) [
      | inl e ↦ (λ h. inl ((listed_iff).0 e), λ t. check_listed e)
      | inr ne ↦ rw (check_unlisted ne) (
        λ h. inr (
            (severity_within_threshold_iff _ _).0
              ((unless_within_iff (violation_of isp image v) _).0 h)),
        λ t. (unless_within_iff (violation_of isp image v) _).1 (elim t [
          | inl l ↦ absurd (cc (ne, (listed_iff).1 l))
          | inr w ↦ (severity_within_threshold_iff _ _).1 w
        ]),
      )
    ]
      where
        listed_iff :
            (cve_in_allowlist isp v.cve ≡ true)
            ↔ In v.cve isp.package_vulnerability_requirements.allowlist_cves
        listed_iff = unfold cve_in_allowlist in in_list_iff v.cve _

collect-cons :
    (verdict : Vulnerability → Result (Option Violation)) (v : Vulnerability)
    (vulnz : List Vulnerability) (r : Result (Option Violation))
    → verdict v ≡ r
    → (collect verdict vulnz ≡ ([], none)) ↔ All (λ v. verdict v ≡ ok none) vulnz
    → (collect verdict (v ∷ vulnz) ≡ ([], none)) ↔ All (λ v. verdict v ≡ ok none) (v ∷ vulnz)
unfolding collect
collect-cons verdict v vulnz (err e) q ih = rw (q, collect) (λ h. cc, λ h. cc)
collect-cons verdict v vulnz (ok none) q ih = rw (q, collect) (λ h. (refl, ih.0 h), λ h. ih.1 h.1)
collect-cons verdict v vulnz (ok (some x)) q ih =
    rw (q, collect) (λ h. cc (ap (λ t. t.0) h), λ h. cc)

collect-eq-nil :
    (verdict : Vulnerability → Result (Option Violation)) (vulnz : List Vulnerability)
    → (collect verdict vulnz ≡ ([], none)) ↔ All (λ v. verdict v ≡ ok none) vulnz
collect-eq-nil verdict [] = unfold collect in (λ h. tt, λ h. refl)
collect-eq-nil verdict (v ∷ vulnz) =
    collect-cons verdict v vulnz (verdict v) refl (collect-eq-nil verdict vulnz)

module _ (severity_value : String → Option ℕ) (isp : ImageSecurityPolicy) (image : String) where
  check_fetched-clean :
      (r : Result (List Vulnerability))
      → (check_fetched severity_value isp image r ≡ ([], none))
        ↔ ((vulnz : List Vulnerability) × (r ≡ ok vulnz) × All (Tolerated severity_value isp) vulnz)
  check_fetched-clean (err e) = (λ h. cc (ap (λ t. t.1) h), λ (vs, q, _). cc)
  check_fetched-clean (ok vulnz) = (
    λ h. (
      vulnz,
      refl,
      All-map _ _ (λ v. (check_vulnerability_iff severity_value isp image v).0) vulnz
          ((collect-eq-nil _ vulnz).0 h),
    ),
    λ (vs, q, t). (collect-eq-nil _ vulnz).1 (
        All-map _ _ (λ v. (check_vulnerability_iff severity_value isp image v).1) vulnz
          (subst (All (Tolerated severity_value isp)) (ok-injective (sym q)) t)),
  )

  module _ {R W K : Type 0} (names : Names R) where
    -- An image security policy reports neither a violation nor an error exactly when the image is
    -- in its allowlist, or is fully qualified, its vulnerabilities can be read, and each of them is
    -- in the list of allowed CVEs or within the threshold for its kind, with or without a fix.
    pub validate-clean_iff :
        (client : Client W K) (w : W)
        → ((validate_image_security_policy severity_value names isp image client w).0 ≡ ([], none))
          ↔ (In image isp.image_allowlist
              ⊎ ((fully_qualified_image names image ≡ true)
                  × ((vulnz : List Vulnerability) × ((client.vulnerabilities image w).0 ≡ ok vulnz)
                      × All (Tolerated severity_value isp) vulnz)))
    unfolding validate_image_security_policy
    validate-clean_iff client w = elim (Bool-cases (image_in_allowlist isp image)) [
      | inl e ↦ rw e (λ h. inl (allowed_iff.0 e), λ h. refl)
      | inr ne ↦ elim (Bool-cases (fully_qualified_image names image)) [
        | inl q ↦
            rw (ne, q)
              (
                λ h. inr (refl, (check_fetched-clean _).0 h),
                λ h. elim h [
                  | inl a ↦ absurd (cc (ne, allowed_iff.1 a))
                  | inr t ↦ (check_fetched-clean _).1 t.1
                ],
              )
        | inr nq ↦
            rw (ne, nq)
              (
                λ h. cc (ap (λ t. t.0) h),
                λ h. elim h [ inl a ↦ absurd (cc (ne, allowed_iff.1 a)) | inr t ↦ cc (t.0) ],
              )
      ]
    ]
      where
        allowed_iff : (image_in_allowlist isp image ≡ true) ↔ In image isp.image_allowlist
        allowed_iff = unfold image_in_allowlist in in_list_iff image isp.image_allowlist
