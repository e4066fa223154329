-- ===== src/Admission/Webhook.antt =====
-- What an allowing reply of the webhook proves, from the request to the signatures.
use kritis.Base.{String, ◌≡◌, refl, ◌⊎◌, inl, inr, true, Option, none, some, List}
use kritis.Base.Result.{Error, Result, ok, err}
use kritis.Base.Ensures.{Ensures, Ensures-pure, Ensures-weaken, Ensures-bind}
use kritis.Names.{Names}
use kritis.Resources.{GenericAttestationPolicy, ImageSecurityPolicy, Workload}
use kritis.Metadata.{Bytes, Client}
use kritis.Admission.{Kind, kind_of}
use kritis.Admission.Review.{Response, AdmissionConfig}
use kritis.Admission.Closed.{AdmissionKept}
use kritis.Admission.Reviewed.{Allowed, review_workload-Ensures}
use kritis.Admission.Handler.{
  Request, Reply, bad_request, server_error, bad_response, uid_of, deserialize_request,
  admit_response, handle, dispatch, answer, review_handler,
}

-- The worlds that follow `w` by the calls of the webhook.
pub data Reached {W K : Type 0} (config : AdmissionConfig W K) (w : W) : W → Type 0 where
  now : Reached config w w
  after_client : (v : W) → Reached config w v → Reached config w (config.fetch_metadata_client v).1
  after_read_only_client :
      (v : W) → Reached config w v → Reached config w (config.fetch_metadata_read_only_client v).1
  after_closed : (v : W) (c : Client W K) → Reached config w v → Reached config w (config.close c v)
  after_gaps :
      (v : W) (ns : String)
      → Reached config w v
      → Reached config w (config.fetch_generic_attestation_policies ns v).1
  after_isps :
      (v : W) (ns : String)
      → Reached config w v
      → Reached config w (config.fetch_image_security_policies ns v).1
  after_workload :
      (v : W) (kind : Kind) (ns name : String)
      → Reached config w v
      → Reached config w (config.get_workload kind ns name v).1
  after_gap_review :
      (v : W) (images : List String) (gs : List GenericAttestationPolicy) (p : Option Workload)
      (c : Client W K)
      → Reached config w v
      → Reached config w (config.reviewer.review_gap images gs p c v).1
  after_isp_review :
      (v : W) (images : List String) (is : List ImageSecurityPolicy) (p : Option Workload)
      (c : Client W K)
      → Reached config w v
      → Reached config w (config.reviewer.review_isp images is p c v).1

pub Reached-AdmissionKept :
    {W K : Type 0} (config : AdmissionConfig W K) (w : W) → AdmissionKept config (Reached config w)
Reached-AdmissionKept config w = record {
  client = λ v r. Reached.after_client v r;
  read_only_client = λ v r. Reached.after_read_only_client v r;
  closed = λ c v r. Reached.after_closed v c r;
  gaps = λ ns v r. Reached.after_gaps v ns r;
  isps = λ ns v r. Reached.after_isps v ns r;
  workload = λ kind ns name v r. Reached.after_workload v kind ns name r;
  gap_review = λ images gs p c v r. Reached.after_gap_review v images gs p c r;
  isp_review = λ images is p c v r. Reached.after_isp_review v images is p c r;
}

module _ {R W K : Type 0} (names : Names R) (config : AdmissionConfig W K)
    (unmarshal : Kind → Bytes → Result Workload) where
  -- Why the webhook allows a request.
  abbrev pub RequestAllowed : W → Request → Type 0
  RequestAllowed w request =
      (kind_of request.kind ≡ none)
      ⊎ ((kind : Kind) × (workload : Workload) × (kind_of request.kind ≡ some kind)
          × (unmarshal kind request.object ≡ ok workload)
          × Allowed names config (Reached config w) kind workload)

  -- The reply allows.
  abbrev pub Allows : Reply → Type 0
  Allows (bad_request ar) = ar.allowed ≡ true
  Allows server_error = ⊥
  Allows (Reply.reviewed ar) = ar.allowed ≡ true

  module _ (w : W) where
    handle-Ensures :
        (request : Request) (kind : Kind) (r : Result Workload) (ar : Response)
        → kind_of request.kind ≡ some kind
        → unmarshal kind request.object ≡ r
        → Ensures
            (Reached config w)
            (λ reply. Allows reply → RequestAllowed w request)
            (handle names config unmarshal kind r ar)
    handle-Ensures request kind (err e) ar known u = Ensures-pure _ server_error (λ h. absurd h)
    handle-Ensures request kind (ok workload) ar known u =
        Ensures-bind _ _ _ _
          (review_workload-Ensures names config (Reached config w) (Reached-AdmissionKept config w)
            kind workload ar)
          λ ar' allowed.
            Ensures-pure _ (Reply.reviewed ar') (λ h. inr (kind, workload, known, u, allowed h))

    dispatch-Ensures :
        (request : Request) (kind : Option Kind)
        → kind_of request.kind ≡ kind
        → Ensures
            (Reached config w)
            (λ reply. Allows reply → RequestAllowed w request)
            (dispatch names config unmarshal kind request)
    unfolding dispatch
    dispatch-Ensures request none known =
        Ensures-pure _ (Reply.reviewed (admit_response request)) (λ h. inl known)
    dispatch-Ensures request (some kind) known =
        handle-Ensures request kind (unmarshal kind request.object) (admit_response request) known
          refl

    answer-Ensures :
        (decoded : Option Request) (r : Result Request)
        → Ensures
            (Reached config w)
            (λ reply.
              Allows reply → (request : Request) × (r ≡ ok request) × RequestAllowed w request)
            (answer names config unmarshal decoded r)
    unfolding answer
    answer-Ensures decoded (err e) =
        Ensures-pure _ (bad_request (bad_response (uid_of decoded) e)) (λ h. absurd (cc h))
    answer-Ensures decoded (ok request) =
        Ensures-weaken _ _ _ (dispatch-Ensures request (kind_of request.kind) refl)
          (λ reply allowed h. (request, refl, allowed h))

  -- When the reply to a body allows, the body was read and decoded without an error to a request,
  -- and the request is of a kind that the webhook does not know, or its object is decoded and is
  -- covered by all its owners, has the breakglass annotation, or is approved by the reviews.
  pub review_handler-RequestAllowed :
      (read : Result (Option Request × Option Error)) (w : W) (reply : Reply)
      → (review_handler names config unmarshal read w).0 ≡ ok reply
      → Allows reply
      → (request : Request) × ((deserialize_request read).1 ≡ ok request) × RequestAllowed w request
  unfolding review_handler
  review_handler-RequestAllowed read w reply =
      (answer-Ensures w (deserialize_request read).0 (deserialize_request read).1).gives w reply
        Reached.now
