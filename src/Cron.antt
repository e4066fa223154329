-- ===== src/Cron.antt =====
-- pkg/kritis/cron/cron.go: the background check of running pods.
pub mod Rounds
use kritis.Base.{
  ℕ, zero, suc, String, Bool, true, false, Option, none, some, List, [], ◌∷◌, if◌then◌else◌,
}
use kritis.Base.Result.{Result, ok, err, panicked, Done}
use kritis.Base.Exec
use kritis.Base.Exec.{Exec, pure, raise, attempt}
use kritis.Base.Run.{Run, ◌>>=◌, call, unfinished}
use kritis.Names.{Names}
use kritis.Resources.{ImageSecurityPolicy, AttestationAuthority, Workload}
use kritis.Metadata.{Client}
use kritis.Attest.{Libraries}
use kritis.Policy.Isp.{validate_image_security_policy}
use kritis.Review
use kritis.Review.Isp.{review_isp}
use kritis.Admission.{workload_images}
use kritis.Annotations.{annotation_strategy}
use kritis.Pods
use kritis.Pods.{Cluster}

-- `Config`, with `ReviewISP` of the reviewer that `review.New` makes of its review configuration
pub record CronConfig (W : Type 0) : Type 0 where
  -- namespace
  pub pod_lister : String → Exec W (List Workload)
  -- images, policies, pod
  pub review_isp : List String → List ImageSecurityPolicy → Option Workload → Exec W Done
  pub security_policy_lister : String → Exec W (List ImageSecurityPolicy)

module _ {R W K J P : Type 0} (libs : Libraries) (names : Names R)
    (severity_value : String → Option ℕ) (sprintf_d : ℕ → String) (cluster : Cluster W J P) where
  -- `NewCronConfig`: `secrets.Fetch`, `authority.Authority` and `securitypolicy.ImageSecurityPolicies`
  -- are given.
  unfoldable pub review_config :
      (String → String → Exec W K)
      → (String → String → Exec W AttestationAuthority)
      → Review.Config W K
  review_config secret auths = record {
    validate = validate_image_security_policy severity_value names;
    secret = secret;
    auths = auths;
    strategy = annotation_strategy cluster sprintf_d;
    is_webhook = false;
  }

  unfoldable pub new_cron_config :
      (String → String → Exec W K)
      → (String → String → Exec W AttestationAuthority)
      → (String → Exec W (List ImageSecurityPolicy))
      → Client W K
      → CronConfig W
  new_cron_config secret auths image_security_policies client = record {
    pod_lister = Pods.pods cluster;
    review_isp = λ images isps pod.
        review_isp libs names (review_config secret auths) client pod images isps;
    security_policy_lister = image_security_policies;
  }

-- `time.Duration`, in nanoseconds
pub data ℤ : Type 0 where
  pos negsuc : ℕ → ℤ

abbrev pub is_positive : ℤ → Bool
is_positive (pos zero) = false
is_positive (pos (suc n)) = true
is_positive (negsuc n) = false

module _ {W : Type 0} (cfg : CronConfig W) where
  -- The review of a pod, whose error is logged.
  abbrev pub check_pod : List ImageSecurityPolicy → Workload → Exec W (Result Done)
  check_pod isps p = attempt (cfg.review_isp (workload_images p) isps (some p))

  unfoldable pub check_listed : List ImageSecurityPolicy → List Workload → Exec W Done
  check_listed isps [] = pure tt
  check_listed isps (p ∷ ps) = Exec.◌>>=◌ (check_pod isps p) (λ r. check_listed isps ps)

  -- The loop over the policies, which all reviews get.
  unfoldable pub check_each : List ImageSecurityPolicy → List ImageSecurityPolicy → Exec W Done
  check_each isps [] = pure tt
  check_each isps (isp ∷ rest) =
      Exec.◌>>=◌ (cfg.pod_lister isp.namespace)
        (λ ps. Exec.◌>>=◌ (check_listed isps ps) (λ r. check_each isps rest))

  unfoldable pub check_pods : List ImageSecurityPolicy → Exec W Done
  check_pods isps = check_each isps isps

  unfoldable pub run_in_foreground : Exec W Done
  run_in_foreground = Exec.◌>>=◌ (cfg.security_policy_lister "") check_pods

  -- One tick of `Start`: errors are logged.
  unfoldable pub check_round : Exec W (Result Done)
  check_round = attempt run_in_foreground

  -- One round of the loop of `Start`, by what its `select` chose.
  abbrev pub after_select : Run W Done → Bool × W → Option (Result Done × W)
  after_select rest (true, w) = (call check_round >>= λ r. rest) w
  after_select rest (false, w) = call (pure tt) w

  -- The loop of `Start`, with the `select` between a tick, `true`, and the end of the context.
  unfoldable pub start_rounds : (W → Bool × W) → ℕ → Run W Done
  start_rounds select zero w = unfinished w
  start_rounds select (suc fuel) w = after_select (start_rounds select fuel) (select w)

  -- `Start`, with the `select` on the ticks of `time.NewTicker`, which panics for an interval that is
  -- not positive.
  unfoldable pub start : (ℤ → W → Bool × W) → ℤ → ℕ → Run W Done
  start select check_interval fuel =
      if is_positive check_interval
      then start_rounds (select check_interval) fuel
      else call (raise panicked)
