-- ===== src/Admission/Handler.antt =====
-- `ReviewHandler` of pkg/kritis/admission/admission.go, with `getReviewer` and the `LoggingStrategy`
-- of pkg/kritis/violation/strategy.go. What decodes JSON is a parameter.
use kritis.Base.{ℕ, String, true, false, Option, none, some, []}
use kritis.Base.Result.{Error, Result, ok, err, errorf, wrap}
use kritis.Base.Exec.{Exec, pure, ◌>>=◌}
use kritis.Names.{Names}
use kritis.Resources.{AttestationAuthority, Workload}
use kritis.Metadata.{Bytes}
use kritis.Attest.{Libraries}
use kritis.Policy.Isp.{validate_image_security_policy}
use kritis.Review.{Config, Strategy}
use kritis.Review.Gap
use kritis.Review.Isp
use kritis.Admission.{Kind, kind_of}
use kritis.Admission.Review.{
  success_status, failure_status, Response, success_message, Reviewer, AdmissionConfig,
  review_workload,
}

-- `LoggingStrategy` writes to the log only.
unfoldable pub logging_strategy : {W : Type 0} → Strategy W
logging_strategy = record {
  handle_violation = λ image pod violations. pure tt;
  handle_attestation = λ image pod is_attested. pure tt;
}

module _ {R W K : Type 0} (libs : Libraries) (names : Names R) (severity_value : String → Option ℕ)
    -- `secrets.Fetch` and `authority.Authority`
    (secret : String → String → Exec W K)
    (auths : String → String → Exec W AttestationAuthority) where
  unfoldable pub reviewer_config : Config W K
  reviewer_config = record {
    validate = validate_image_security_policy severity_value names;
    secret = secret;
    auths = auths;
    strategy = logging_strategy;
    is_webhook = true;
  }

  unfoldable pub get_reviewer : Reviewer W K
  get_reviewer = record {
    review_gap =
        λ images gaps pod client. Gap.review_gap libs names reviewer_config client gaps pod images;
    review_isp =
        λ images isps pod client. Isp.review_isp libs names reviewer_config client pod images isps;
  }

-- `v1beta1.AdmissionRequest`
pub record Request : Type 0 where
  pub uid : String
  pub kind : String
  pub object : Bytes

-- What is written to the client.
pub data Reply : Type 0 where
  -- status 400 with the response as the payload
  bad_request : Response → Reply
  -- status 500, "Whoops! The handler failed!"
  server_error : Reply
  -- status 200 with the response in a review
  reviewed : Response → Reply

abbrev pub uid_of : Option Request → String
uid_of none = ""
uid_of (some request) = request.uid

-- The end of `deserializeRequest`: the request that was decoded, with the error of the decoding.
abbrev pub request_of : Option Request → Option Error → Result Request
request_of request (some e) = err (wrap "failed to marshal %v" [] e)
request_of none none = err (errorf "admission request is empty" [])
request_of (some request) none = ok request

-- `deserializeRequest`: `read` is what reading the body and decoding it gave, with the request that
-- is set.
unfoldable pub deserialize_request :
    Result (Option Request × Option Error) → Option Request × Result Request
deserialize_request (err e) = (none, err (errorf "cannot to read body" []))
deserialize_request (ok (decoded, e)) = (decoded, request_of decoded e)

abbrev pub admit_response : Request → Response
admit_response request = record {
  uid = request.uid;
  allowed = true;
  status = success_status;
  message = success_message;
}

abbrev pub bad_response : String → Error → Response
bad_response uid e = record { uid = uid; allowed = false; status = failure_status; message = e }

module _ {R W K : Type 0} (names : Names R) (config : AdmissionConfig W K)
    -- `json.Unmarshal` into an object of the kind
    (unmarshal : Kind → Bytes → Result Workload) where
  abbrev pub reply_of : Response → Reply
  reply_of ar = Reply.reviewed ar

  -- `handleDeployment`, `handlePod` and `handleReplicaSet`
  abbrev pub handle : Kind → Result Workload → Response → Exec W Reply
  handle kind (err e) ar = pure server_error
  handle kind (ok workload) ar = do
    ar' ← review_workload names config kind workload ar
    pure (reply_of ar')

  -- The loop over `handlers`, whose keys are distinct: a kind that it does not have is not reviewed.
  unfoldable pub dispatch : Option Kind → Request → Exec W Reply
  dispatch none request = pure (reply_of (admit_response request))
  dispatch (some kind) request =
      handle kind (unmarshal kind request.object) (admit_response request)

  unfoldable pub answer : Option Request → Result Request → Exec W Reply
  answer decoded (err e) = pure (bad_request (bad_response (uid_of decoded) e))
  answer decoded (ok request) = dispatch (kind_of request.kind) request

  unfoldable pub review_handler : Result (Option Request × Option Error) → Exec W Reply
  review_handler read = let (decoded, r) = deserialize_request read in answer decoded r
