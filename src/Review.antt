-- ===== src/Review.antt =====
-- pkg/kritis/review/review.go: the reviewer, over the world `W` that the backend, the cluster and
-- the strategy act on. The log is not modelled.
pub mod Gap
pub mod Isp
use kritis.Base.{String, Option, none, some, Bool, List}
use kritis.Base.Result.{Error, Done}
use kritis.Base.Exec.{Exec}
use kritis.Resources.{ImageSecurityPolicy, AttestationAuthority, Workload}
use kritis.Metadata.{Client}
use kritis.Policy.{Violation}

-- `violation.Strategy`; the pod may be nil.
pub record Strategy (W : Type 0) : Type 0 where
  pub handle_violation : String → Option Workload → List Violation → Exec W Done
  pub handle_attestation : String → Option Workload → Bool → Exec W Done

-- `Config`
pub record Config (W K : Type 0) : Type 0 where
  pub validate : ImageSecurityPolicy → String → Client W K → W → (List Violation × Option Error) × W
  -- namespace, name
  pub secret : String → String → Exec W K
  pub auths : String → String → Exec W AttestationAuthority
  pub strategy : Strategy W
  pub is_webhook : Bool
