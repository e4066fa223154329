-- ===== src/Policy/Isp.antt =====
-- pkg/kritis/crd/securitypolicy: `ValidateImageSecurityPolicy`. The map `Severity_value` of the
-- generated package `vulnerability` is the parameter `severity_value`.
use kritis.Base.{
  ℕ, String, Bool, true, false, not, Option, none, some, List, [], ◌∷◌, if◌then◌else◌, leb, str_eq,
  ◌+++◌,
}
use kritis.Base.Result.{Error, Result, ok, err, errorf, is_ok, ◌>>=◌}
use kritis.Names.{Names}
use kritis.Resources.{ImageSecurityPolicy}
use kritis.Metadata.{Vulnerability, Client}
use kritis.Policy.{
  Violation, fix_unavailable_violation, severity_violation, allow_all, block_all, unqualified,
  in_list, collect,
}

abbrev default_to : String → String → String
default_to d s = if str_eq s "" then d else s

-- `maxSev` and `maxNoFixSev`, with their defaults
abbrev pub max_sev : ImageSecurityPolicy → String
max_sev isp = default_to "CRITICAL" isp.package_vulnerability_requirements.maximum_severity

abbrev pub max_no_fix_sev : ImageSecurityPolicy → String
max_no_fix_sev isp =
    default_to allow_all isp.package_vulnerability_requirements.maximum_fix_unavailable_severity

pub fix_unavailable_reason : String → Vulnerability → ImageSecurityPolicy → String
fix_unavailable_reason image v isp =
    let ms = isp.package_vulnerability_requirements.maximum_fix_unavailable_severity in
    if str_eq ms block_all
    then "found unfixable CVE " +++ v.cve +++ " in " +++ image
      +++ " which isn't in allowlist, violating max severity " +++ ms
    else "found unfixable CVE " +++ v.cve +++ " in " +++ image +++ ", which has severity "
      +++ v.severity +++ " exceeding max severity " +++ ms

pub severity_reason : String → Vulnerability → ImageSecurityPolicy → String
severity_reason image v isp =
    let ms = isp.package_vulnerability_requirements.maximum_severity in
    if str_eq ms block_all
    then "found CVE " +++ v.cve +++ " in " +++ image
      +++ " which isn't in allowlist, violating max severity " +++ ms
    else "found CVE " +++ v.cve +++ " in " +++ image +++ ", which has severity " +++ v.severity
      +++ " exceeding max severity " +++ ms

-- `FullyQualifiedImage` of pkg/kritis/kubectl/plugins/resolve
unfoldable pub fully_qualified_image : {R : Type 0} → Names R → String → Bool
fully_qualified_image names image = is_ok (names.new_digest_weak image)

unfoldable pub image_in_allowlist : ImageSecurityPolicy → String → Bool
image_in_allowlist isp image = in_list image isp.image_allowlist

unfoldable pub cve_in_allowlist : ImageSecurityPolicy → String → Bool
cve_in_allowlist isp cve = in_list cve isp.package_vulnerability_requirements.allowlist_cves

-- The violations that the loop appends, for a vulnerability without a fix and for one with a fix.
abbrev pub unfixed : ImageSecurityPolicy → String → Vulnerability → Violation
unfixed isp image v = record {
  vulnerability = some v;
  v_type = fix_unavailable_violation;
  reason = fix_unavailable_reason image v isp;
}

abbrev pub fixable : ImageSecurityPolicy → String → Vulnerability → Violation
fixable isp image v = record {
  vulnerability = some v;
  v_type = severity_violation;
  reason = severity_reason image v isp;
}

module _ (severity_value : String → Option ℕ) where
  abbrev pub compare_levels : String → String → Option ℕ → Option ℕ → Result Bool
  compare_levels max_severity severity none s =
      err (errorf "invalid max severity level: %s" (max_severity ∷ []))
  compare_levels max_severity severity (some m) none =
      err (errorf "invalid severity level: %s" (severity ∷ []))
  compare_levels max_severity severity (some m) (some s) = ok (leb s m)

  unfoldable pub severity_within_threshold : String → String → Result Bool
  severity_within_threshold max_severity severity =
      if str_eq max_severity block_all
      then ok false
      else if str_eq max_severity allow_all
      then ok true
      else compare_levels max_severity severity (severity_value max_severity)
          (severity_value severity)

  abbrev pub unless_within : Violation → Bool → Result (Option Violation)
  unless_within x within = ok (if within then none else some x)

  -- The body of the loop over the vulnerabilities.
  unfoldable pub check_vulnerability :
      ImageSecurityPolicy → String → Vulnerability → Result (Option Violation)
  check_vulnerability isp image v =
      if cve_in_allowlist isp v.cve
      then ok none
      else if not v.has_fix_available
      then severity_within_threshold (max_no_fix_sev isp) v.severity
        >>= unless_within (unfixed isp image v)
      else severity_within_threshold (max_sev isp) v.severity
        >>= unless_within (fixable isp image v)

  -- The result for the vulnerabilities that the client returned.
  abbrev pub check_fetched :
      ImageSecurityPolicy → String → Result (List Vulnerability) → List Violation × Option Error
  check_fetched isp image (err e) = ([], some e)
  check_fetched isp image (ok vulnz) = collect (check_vulnerability isp image) vulnz

  module _ {R W K : Type 0} (names : Names R) where
    unfoldable pub validate_image_security_policy :
        ImageSecurityPolicy → String → Client W K → W → (List Violation × Option Error) × W
    unfolding image_in_allowlist fully_qualified_image check_vulnerability collect
    validate_image_security_policy isp image client w =
        if image_in_allowlist isp image
        then (([], none), w)
        else if not (fully_qualified_image names image)
        then ((unqualified image ∷ [], none), w)
        else let (vulnz, w') = client.vulnerabilities image w in (check_fetched isp image vulnz, w')
