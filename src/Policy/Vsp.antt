-- ===== src/Policy/Vsp.antt =====
-- pkg/kritis/crd/vulnzsigningpolicy: `ValidateVulnzSigningPolicy`.
use kritis.Base.{
  ℕ, String, Bool, true, false, not, Option, none, some, List, [], ◌∷◌, if◌then◌else◌, leb, ltb,
  length, str_eq, ◌+++◌,
}
use mathlib.Core.Option
use kritis.Base.Maps.{lookup, insert}
use kritis.Base.Result.{Error, Result, ok, err, errorf, ◌>>=◌}
use kritis.Names.{Names}
use kritis.Resources.{VulnzSigningPolicy}
use kritis.Metadata.{Vulnerability}
use kritis.Policy.{
  Violation, fix_unavailable_violation, severity_violation, allow_all, block_all, unqualified,
  collect,
}
use kritis.Policy.Isp.{fully_qualified_image}

-- `constants.Critical`
abbrev pub critical : String
critical = "CRITICAL"

abbrev pub max_fixable : VulnzSigningPolicy → String
max_fixable vsp =
    let s = vsp.image_vulnerability_requirements.maximum_fixable_severity in
    if str_eq s "" then critical else s

abbrev pub max_unfixable : VulnzSigningPolicy → String
max_unfixable vsp =
    let s = vsp.image_vulnerability_requirements.maximum_unfixable_severity in
    if str_eq s "" then allow_all else s

pub unfixable_severity_violation_reason : String → Vulnerability → VulnzSigningPolicy → String
unfixable_severity_violation_reason image v vsp =
    let ms = vsp.image_vulnerability_requirements.maximum_unfixable_severity in
    if str_eq ms block_all
    then "found unfixable CVE " +++ v.cve +++ " in " +++ image
      +++ " which isn't in allowlist, violating max unfixable severity " +++ ms
    else "found unfixable CVE " +++ v.cve +++ " in " +++ image +++ ", which has severity "
      +++ v.severity +++ " exceeding max unfixable severity " +++ ms

pub fixable_severity_violation_reason : String → Vulnerability → VulnzSigningPolicy → String
fixable_severity_violation_reason image v vsp =
    let ms = vsp.image_vulnerability_requirements.maximum_fixable_severity in
    if str_eq ms block_all
    then "found fixable CVE " +++ v.cve +++ " in " +++ image
      +++ " which isn't in allowlist, violating max fixable severity " +++ ms
    else "found fixable CVE " +++ v.cve +++ " in " +++ image +++ ", which has severity "
      +++ v.severity +++ " exceeding max fixable severity " +++ ms

unfoldable pub make_map : List (String × Bool) → List String → List (String × Bool)
make_map m [] = m
make_map m (w ∷ ws) = make_map (insert w true m) ws

-- `cveAllowlistMap[cve]`: a missing key reads false
abbrev pub in_map : String → List (String × Bool) → Bool
in_map cve m = Option.get_or (lookup cve m) false

-- `makeCVEAllowlistMap`: each listed CVE is a key with the value true
unfoldable pub make_cve_allowlist_map : VulnzSigningPolicy → List (String × Bool)
unfolding make_map
make_cve_allowlist_map vsp = make_map [] vsp.image_vulnerability_requirements.allowlist_cves

-- The violations that the loop appends, for a vulnerability without a fix and for one with a fix.
abbrev pub unfixed : VulnzSigningPolicy → String → Vulnerability → Violation
unfixed vsp image v = record {
  vulnerability = some v;
  v_type = fix_unavailable_violation;
  reason = unfixable_severity_violation_reason image v vsp;
}

abbrev pub fixable : VulnzSigningPolicy → String → Vulnerability → Violation
fixable vsp image v = record {
  vulnerability = some v;
  v_type = severity_violation;
  reason = fixable_severity_violation_reason image v vsp;
}

module _ (severity_value : String → Option ℕ) where
  -- the copy of `severityWithinThreshold` in this package
  unfoldable pub severity_within_threshold : String → String → Result Bool
  severity_within_threshold max_severity severity =
      if str_eq max_severity block_all
      then ok false
      else if str_eq max_severity allow_all
      then ok true
      else elim (severity_value max_severity) [
        | none ↦ err (errorf "invalid max severity level: %s" (max_severity ∷ []))
        | some m ↦ elim (severity_value severity) [
          | none ↦ err (errorf "invalid severity level: %s" (severity ∷ []))
          | some s ↦ ok (leb s m)
        ]
      ]

  abbrev pub unless_within : Violation → Bool → Result (Option Violation)
  unless_within x within = ok (if within then none else some x)

  -- The body of the loop over the vulnerabilities.
  unfoldable pub check_vulnerability :
      VulnzSigningPolicy → List (String × Bool) → String → Vulnerability → Result (Option Violation)
  check_vulnerability vsp cve_allowlist_map image v =
      if in_map v.cve cve_allowlist_map
      then ok none
      else if not v.has_fix_available
      then severity_within_threshold (max_unfixable vsp) v.severity
        >>= unless_within (unfixed vsp image v)
      else severity_within_threshold (max_fixable vsp) v.severity
        >>= unless_within (fixable vsp image v)

  module _ {R : Type 0} (names : Names R) where
    unfoldable pub validate_vulnz_signing_policy :
        VulnzSigningPolicy → String → List Vulnerability → List Violation × Option Error
    unfolding fully_qualified_image check_vulnerability collect make_cve_allowlist_map
    validate_vulnz_signing_policy vsp image vulnz =
        if not (fully_qualified_image names image)
        then (unqualified image ∷ [], none)
        else if ltb 0 (length vulnz)
        then collect (check_vulnerability vsp (make_cve_allowlist_map vsp) image) vulnz
        else ([], none)
