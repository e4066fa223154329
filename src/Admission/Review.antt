-- ===== src/Admission/Review.antt =====
-- The reviews of pkg/kritis/admission/admission.go. The response is a value that each step passes on.
use kritis.Base.{String, Bool, false, Option, none, some, List, [], if◌then◌else◌, is_empty, ◌||◌}
use kritis.Base.Result.{Error, Result, ok, err, errorf, wrap, Done}
use kritis.Base.Exec.{Exec, pure, attempt, closing, ◌>>=◌}
use kritis.Names.{Names}
use kritis.Resources.{GenericAttestationPolicy, ImageSecurityPolicy, Workload}
use kritis.Metadata.{Client}
use kritis.Admission.{Kind, pod, workload_images, check_owners, check_breakglass}

-- `Status`
pub data Status : Type 0 where
  success_status failure_status : Status

-- `v1beta1.AdmissionResponse`; the message is kept as the error that it prints.
pub record Response : Type 0 where
  pub uid : String
  pub allowed : Bool
  pub status : Status
  pub message : Error

abbrev pub success_message : Error
success_message = errorf "Successfully admitted." []

-- `createDeniedResponse`
unfoldable pub create_denied_response : Response → Error → Response
create_denied_response ar message = record {
  uid = ar.uid;
  allowed = false;
  status = failure_status;
  message = message;
}

-- `reviewer`
pub record Reviewer (W K : Type 0) : Type 0 where
  pub review_gap :
      List String → List GenericAttestationPolicy → Option Workload → Client W K → Exec W Done
  pub review_isp :
      List String → List ImageSecurityPolicy → Option Workload → Client W K → Exec W Done

-- `config`, with the `Close` of a metadata client and the clientset's reads
pub record AdmissionConfig (W K : Type 0) : Type 0 where
  pub fetch_metadata_client : Exec W (Client W K)
  pub fetch_metadata_read_only_client : Exec W (Client W K)
  pub close : Client W K → W → W
  pub fetch_generic_attestation_policies : String → Exec W (List GenericAttestationPolicy)
  pub fetch_image_security_policies : String → Exec W (List ImageSecurityPolicy)
  pub get_workload : Kind → String → String → Exec W Workload
  pub reviewer : Reviewer W K

-- The response after a review: an error denies.
abbrev pub denied_by : Response → Result Done → Response
denied_by ar (ok _) = ar
denied_by ar (err e) = create_denied_response ar e

module _ {W K : Type 0} (config : AdmissionConfig W K) where
  -- A review with the client that `fetched` is, or a denial.
  unfoldable pub review_with :
      (Client W K → Exec W Done) → Response → Result (Client W K) → Exec W Response
  review_with review ar (err e) =
      pure (create_denied_response ar (wrap "error getting metadata client: %v" [] e))
  review_with review ar (ok client) =
      closing (config.close client) (attempt (review client) >>= λ r. pure (denied_by ar r))

  module _ (images : List String) (ns : String) (reviewed : Option Workload) where
    unfoldable pub review_generic_attestation_policy :
        List GenericAttestationPolicy → Response → Exec W Response
    review_generic_attestation_policy gaps ar = do
      client ← attempt config.fetch_metadata_read_only_client
      review_with (config.reviewer.review_gap images gaps reviewed) ar client

    unfoldable pub review_image_security_policy :
        List ImageSecurityPolicy → Response → Exec W Response
    review_image_security_policy isps ar = do
      client ← attempt config.fetch_metadata_client
      review_with (config.reviewer.review_isp images isps reviewed) ar client

    abbrev pub review_fetched_isps : Response → Result (List ImageSecurityPolicy) → Exec W Response
    review_fetched_isps ar (err e) =
        pure (create_denied_response ar (wrap "error getting image security policies: %v" [] e))
    review_fetched_isps ar (ok isps) =
        if is_empty isps then pure ar else review_image_security_policy isps ar

    -- From the second fetch on: it is reached after a denial by the first review too.
    unfoldable pub review_isps : Response → Exec W Response
    review_isps ar = do
      isps ← attempt (config.fetch_image_security_policies ns)
      review_fetched_isps ar isps

    abbrev pub review_fetched_gaps :
        Response → Result (List GenericAttestationPolicy) → Exec W Response
    review_fetched_gaps ar (err e) =
        pure
          (create_denied_response ar (wrap "error getting generic attestation policies: %v" [] e))
    review_fetched_gaps ar (ok gaps) =
        (if is_empty gaps then pure ar else review_generic_attestation_policy gaps ar) >>= λ ar'.
        review_isps ar'

    unfoldable pub review_images : Response → Exec W Response
    review_images ar = do
      gaps ← attempt (config.fetch_generic_attestation_policies ns)
      review_fetched_gaps ar gaps

-- The pod that a review is given: none for a deployment and a replica set.
abbrev pub reviewed_pod : Kind → Workload → Option Workload
reviewed_pod kind workload = elim kind [ pod ↦ some workload | _ ↦ none ]

-- `reviewPod`, `reviewDeployment` and `reviewReplicaSet`
unfoldable pub review_workload :
    {R W K : Type 0} → Names R → AdmissionConfig W K → Kind → Workload → Response → Exec W Response
review_workload names config kind workload ar = do
  validated ← check_owners names config.get_workload (workload_images workload) workload.meta
  if validated || check_breakglass workload.meta
      then pure ar
      else review_images config (workload_images workload) workload.meta.namespace
          (reviewed_pod kind workload) ar
