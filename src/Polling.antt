-- ===== src/Polling.antt =====
-- pkg/kritis/kubernetes/wait.go: the conditions that are polled for. Polling and watching, the clock
-- and the cluster's client are parameters; durations are in milliseconds.
pub mod Held
use kritis.Base.{
  ℕ, String, Bool, true, false, ◌&&◌, ◌||◌, ◌+◌, not, Option, none, some, List, [], ◌∷◌, any, all,
  is_empty, str_eq, nat_eq, leb, if◌then◌else◌,
}
use kritis.Base.Result.{Error, Result, ok, err, errorf, panicked, wrap, Done}
use kritis.Base.Exec.{Exec, ◌>>=◌, ◌>>◌, pure, raise, lift, attempt, wrapping}

-- `v1.PodPhase`: the constants, and any other text
pub data Phase : Type 0 where
  pending running succeeded failed unknown : Phase
  other_phase : String → Phase

-- `wait.PollImmediate` and `wait.Poll`, with an interval, a timeout and a condition.
pub record Poller (W : Type 0) : Type 0 where
  pub poll_immediate : ℕ → ℕ → Exec W Bool → Exec W Done
  pub poll : ℕ → ℕ → Exec W Bool → Exec W Done

-- The phase of a pod, by its name, and the pods of a namespace with a label.
pub record PodReads (W : Type 0) : Type 0 where
  pub get_phase : String → Exec W Phase
  -- namespace, label selector
  pub list_phases : String → String → Exec W (List Phase)

-- A result read by `if err != nil`: an error gives another result, and a panic passes.
abbrev pub otherwise : {W A B : Type 0} → Exec W A → Exec W B → (A → Exec W B) → Exec W B
otherwise m failed_with next = attempt m >>= λ r. elim r [ ok a ↦ next a | err e ↦ failed_with ]

abbrev pub is_running : Phase → Bool
is_running running = true
is_running _ = false

abbrev pub ready_phase : Phase → Result Bool
ready_phase running = ok true
ready_phase succeeded = err (errorf "pod already in terminal phase: %s" ("Succeeded" ∷ []))
ready_phase failed = err (errorf "pod already in terminal phase: %s" ("Failed" ∷ []))
ready_phase unknown = ok false
ready_phase pending = ok false
ready_phase (other_phase p) = err (errorf "unknown phase: %s" (p ∷ []))

abbrev pub complete_phase : Phase → Result Bool
complete_phase succeeded = ok true
complete_phase running = ok false
complete_phase failed = err (errorf "pod already in terminal phase: %s" ("Failed" ∷ []))
complete_phase unknown = ok false
complete_phase pending = ok false
complete_phase (other_phase p) = err (errorf "unknown phase: %s" (p ∷ []))

abbrev pub all_running : List Phase → Bool
all_running phases = not (is_empty phases) && all is_running phases

module _ {W : Type 0} (poller : Poller W) (reads : PodReads W) where
  abbrev pub scheduled : String → Exec W Bool
  scheduled pod_name = otherwise (reads.get_phase pod_name) (pure false) (λ phase. pure true)

  abbrev pub ready : String → Exec W Bool
  ready pod_name =
      otherwise (reads.get_phase pod_name) (raise (errorf "pod not found: %s" (pod_name ∷ [])))
        (λ phase. lift (ready_phase phase))

  unfoldable pub wait_for_pod_ready : String → Exec W Done
  wait_for_pod_ready pod_name =
      poller.poll_immediate 500 10000 (scheduled pod_name)
      >> poller.poll_immediate 500 300000 (ready pod_name)

  abbrev pub complete : String → Exec W Bool
  complete pod_name =
      otherwise (reads.get_phase pod_name) (pure false) (λ phase. lift (complete_phase phase))

  unfoldable pub wait_for_pod_complete : String → Exec W Done
  wait_for_pod_complete pod_name = poller.poll_immediate 500 300000 (complete pod_name)

  abbrev pub labelled_running : String → String → Exec W Bool
  labelled_running ns label =
      otherwise (reads.list_phases ns label) (pure false) (λ phases. pure (all_running phases))

  unfoldable pub wait_for_pods_with_label_running : String → String → Exec W Done
  wait_for_pods_with_label_running ns label =
      poller.poll_immediate 500 600000 (labelled_running ns label)

-- An object of a watch: a replication controller, a deployment or a replica set. The replicas of its
-- spec may be nil.
pub record Replicated : Type 0 where
  pub name : String
  pub namespace : String
  pub generation : ℕ
  pub observed_generation : ℕ
  pub spec_replicas : Option ℕ
  pub status_replicas : ℕ

-- `watch.Event`, as the code tells events apart: a deletion, and another event with an object of the
-- watched kind or of another
pub data WatchEvent : Type 0 where
  deleted : WatchEvent
  changed : Replicated → WatchEvent
  other_object : WatchEvent

-- The replicas, of which the dereference of nil panics; the log reads them where the test fails.
abbrev pub stable_replicas : Bool → Option ℕ → ℕ → Result Bool
stable_replicas current none status = err panicked
stable_replicas current (some replicas) status = ok (current && nat_eq replicas status)

-- The condition of the three waits until an object is stable.
abbrev pub stabilized : String → String → String → WatchEvent → Result Bool
stabilized resource ns name deleted = err (errorf "not found: %s" (resource ∷ []))
stabilized resource ns name other_object = ok false
stabilized resource ns name (changed rc) =
    stable_replicas
      (str_eq rc.name name && str_eq rc.namespace ns && leb rc.generation rc.observed_generation)
      rc.spec_replicas rc.status_replicas

-- The watch of a kind of objects by namespace and name, and `watch.Until`.
pub record Watching (W V : Type 0) : Type 0 where
  pub watch_objects : String → String → String → Exec W V
  pub until : ℕ → V → (WatchEvent → Result Bool) → Exec W Done

module _ {W V : Type 0} (watching : Watching W V) where
  abbrev pub wait_to_stabilize : String → String → String → ℕ → Exec W Done
  wait_to_stabilize resource ns name timeout = do
    w ← watching.watch_objects resource ns name
    watching.until timeout w (stabilized resource ns name)

  unfoldable pub wait_for_rc_to_stabilize : String → String → ℕ → Exec W Done
  wait_for_rc_to_stabilize ns name timeout =
      wait_to_stabilize "replicationcontrollers" ns name timeout

  unfoldable pub wait_for_deployment_to_stabilize : String → String → ℕ → Exec W Done
  wait_for_deployment_to_stabilize ns name timeout = wait_to_stabilize "deployments" ns name timeout

  unfoldable pub wait_for_replica_set_to_stabilize : String → String → ℕ → Exec W Done
  wait_for_replica_set_to_stabilize ns name timeout =
      wait_to_stabilize "replicasets" ns name timeout

-- The errors of the API, as `apierrs` tells them apart
pub data ApiError : Type 0 where
  not_found request_timeout server_timeout too_many_requests internal_error : ApiError
  other_error : Error → ApiError

abbrev pub is_retryable_api_error : ApiError → Bool
is_retryable_api_error not_found = false
is_retryable_api_error request_timeout = true
is_retryable_api_error server_timeout = true
is_retryable_api_error too_many_requests = true
is_retryable_api_error internal_error = true
is_retryable_api_error (other_error e) = false

-- `v1.Endpoints`: the numbers of the addresses of its subsets
pub record Endpoints : Type 0 where
  pub name : String
  pub subsets : List ℕ

unfoldable pub count_endpoints_num : List ℕ → ℕ
count_endpoints_num [] = 0
count_endpoints_num (addresses ∷ subsets) = addresses + count_endpoints_num subsets

-- The reads of services, where `none` is a service that was found, and of endpoints
pub record ServiceReads (W : Type 0) : Type 0 where
  pub get_service : String → String → W → Option ApiError × W
  pub list_endpoints : String → Exec W (List Endpoints)

-- The switch on the error of the read.
abbrev pub service_state : Bool → Option ApiError → Result Bool
service_state exist none = ok exist
service_state exist (some not_found) = ok (not exist)
service_state exist (some (other_error e)) = err e
service_state exist (some request_timeout) = ok false
service_state exist (some server_timeout) = ok false
service_state exist (some too_many_requests) = ok false
service_state exist (some internal_error) = ok false

abbrev pub has_endpoints : String → ℕ → Endpoints → Bool
has_endpoints service_name expect_num e =
    str_eq e.name service_name && nat_eq (count_endpoints_num e.subsets) expect_num

module _ {W : Type 0} (poller : Poller W) (reads : ServiceReads W) where
  abbrev pub service_seen : String → String → Bool → Exec W Bool
  service_seen namespace name exist w =
      let (found, w') = reads.get_service namespace name w in (service_state exist found, w')

  unfoldable pub wait_for_service : String → String → Bool → ℕ → ℕ → Exec W Done
  wait_for_service namespace name exist interval timeout =
      wrapping
        (wrap "error waiting for service %s/%s %s: %v"
          (namespace ∷ name ∷ (if exist then "to appear" else "to disappear") ∷ []))
        (poller.poll_immediate interval timeout (service_seen namespace name exist))

  abbrev pub endpoints_seen : String → String → ℕ → Exec W Bool
  endpoints_seen namespace service_name expect_num = reads.list_endpoints namespace >>= λ listed.
      pure (any (has_endpoints service_name expect_num) listed)

  unfoldable pub wait_for_service_endpoints_num : String → String → ℕ → ℕ → ℕ → Exec W Done
  wait_for_service_endpoints_num namespace service_name expect_num interval timeout =
      poller.poll interval timeout (endpoints_seen namespace service_name expect_num)
