-- ===== src/Policy.antt =====
-- pkg/kritis/policy/violation.go and what the two vulnerability policies share.
pub mod Isp
pub mod Vsp
pub mod Tolerance
pub mod Agreement
use kritis.Base.{String, ◌+++◌, List, [], ◌∷◌, none, Option, some, if◌then◌else◌, Bool, any, str_eq}
use kritis.Base.Result.{Error, Result, ok, err}
use kritis.Metadata.{Vulnerability}

-- `ViolationType`
pub data ViolationType : Type 0 where
  unqualified_image_violation fix_unavailable_violation severity_violation : ViolationType

-- `Violation` of both policies; the zero value of `vulnerability` is `none`.
pub record Violation : Type 0 where
  pub vulnerability : Option Vulnerability
  pub v_type : ViolationType
  pub reason : String

-- `constants.AllowAll`, `constants.BlockAll`
abbrev pub allow_all : String
allow_all = "ALLOW_ALL"

abbrev pub block_all : String
block_all = "BLOCK_ALL"

abbrev pub unqualified_image_reason : String → String
unqualified_image_reason image =
    image
    +++ " is not a fully qualified image. You can run 'kubectl plugin resolve-tags' to qualify all images with a digest."

abbrev pub unqualified : String → Violation
unqualified image = record {
  vulnerability = none;
  v_type = unqualified_image_violation;
  reason = unqualified_image_reason image;
}

-- `slices.Contains`, as the loops over an allowlist write it
abbrev pub in_list : String → List String → Bool
in_list s = any (λ w. str_eq w s)

-- The loop over the vulnerabilities: `verdict` is its body, which skips a vulnerability, adds a
-- violation or returns an error. An error is returned with the violations found before it.
unfoldable pub collect :
    (Vulnerability → Result (Option Violation)) → List Vulnerability → List Violation × Option Error
collect verdict [] = ([], none)
collect verdict (v ∷ vulnz) =
    let (violations, error) = collect verdict vulnz in
    elim (verdict v) [
      | err e ↦ ([], some e)
      | ok none ↦ (violations, error)
      | ok (some x) ↦ (x ∷ violations, error)
    ]
