-- ===== src/Polling/Held.antt =====
-- What a wait (pkg/kritis/kubernetes/wait.go) that returns without an error has seen.
use kritis.Base.{
  ℕ, String, ◌≡◌, refl, ◌↔◌, Bool, true, false, Option, none, some, List, [], ◌∷◌, All, all_iff,
  is_empty, if◌then◌else◌,
}
use kritis.Base.Result.{
  Result, ok, err, wrap, external, errorf, errorf_count, panicked, rejected, ok-injective,
}
use kritis.Base.Exec.{Exec, pure}
use kritis.Base.Returned.{wrapped-ok}
use kritis.Polling.{
  Phase, running, pending, succeeded, failed, unknown, other_phase, Poller, PodReads, is_running,
  otherwise, all_running, labelled_running, wait_for_pods_with_label_running, ApiError, not_found,
  request_timeout, server_timeout, too_many_requests, internal_error, other_error, ServiceReads,
  service_state, service_seen, wait_for_service,
}

-- What the package documents: where `PollImmediate` returns no error, its condition held once.
abbrev pub Polls : {W : Type 0} → Poller W → Type 0
Polls {W} poller =
    (interval timeout : ℕ) (condition : Exec W Bool) (w w' : W)
    → poller.poll_immediate interval timeout condition w ≡ (ok tt, w')
    → (v : W) × ((condition v).0 ≡ ok true)

running_iff : (p : Phase) → (is_running p ≡ true) ↔ (p ≡ running)
running_iff running = (λ h. refl, λ h. refl)
running_iff pending = (λ h. absurd (cc h), λ h. absurd (cc h))
running_iff succeeded = (λ h. absurd (cc h), λ h. absurd (cc h))
running_iff failed = (λ h. absurd (cc h), λ h. absurd (cc h))
running_iff unknown = (λ h. absurd (cc h), λ h. absurd (cc h))
running_iff (other_phase p) = (λ h. absurd (cc h), λ h. absurd (cc h))

module _ {W A : Type 0} (next : A → Exec W Bool) where
  -- A condition that answers false for an error held, so the read gave a value for which it holds.
  held_by :
      (p : Result A × W)
      → (otherwise (λ w. p) (pure false) next p.1).0 ≡ ok true
      → (a : A) × (p.0 ≡ ok a) × ((next a p.1).0 ≡ ok true)
  held_by (ok a, w) h = (a, refl, h)
  held_by (err panicked, w) h = absurd (cc h)
  held_by (err (external s), w) h = absurd (cc h)
  held_by (err (errorf s a), w) h = absurd (cc h)
  held_by (err (wrap s a e), w) h = absurd (cc h)
  held_by (err (errorf_count s n), w) h = absurd (cc h)
  held_by (err (rejected b m), w) h = absurd (cc h)

all_running-split :
    (phases : List Phase)
    → all_running phases ≡ true
    → (is_empty phases ≡ false) × All (λ p. p ≡ running) phases
all_running-split [] h = absurd (cc h)
all_running-split (p ∷ ps) h =
    (refl, (all_iff (λ q. q ≡ running) is_running running_iff (p ∷ ps)).0 h)

service_state-true :
    (exist : Bool) (found : Option ApiError)
    → service_state exist found ≡ ok true
    → found ≡ (if exist then none else some not_found)
service_state-true true none h = refl
service_state-true false none h = absurd (cc h)
service_state-true true (some not_found) h = absurd (cc h)
service_state-true false (some not_found) h = refl
service_state-true exist (some (other_error e)) h = absurd (cc h)
service_state-true exist (some request_timeout) h = absurd (cc h)
service_state-true exist (some server_timeout) h = absurd (cc h)
service_state-true exist (some too_many_requests) h = absurd (cc h)
service_state-true exist (some internal_error) h = absurd (cc h)

module _ {W : Type 0} (poller : Poller W) (polls : Polls poller) where
  -- Where the poller answers without an error only after its condition held, a wait for the pods with
  -- a label that returns without an error listed the pods at some time, and they were at least one
  -- and all running.
  pub wait_for_pods_with_label_running-Held :
      (reads : PodReads W) (ns label : String) (w w' : W)
      → wait_for_pods_with_label_running poller reads ns label w ≡ (ok tt, w')
      → (v : W) × (phases : List Phase) × ((reads.list_phases ns label v).0 ≡ ok phases)
        × (is_empty phases ≡ false)
        × All (λ p. p ≡ running) phases
  unfolding wait_for_pods_with_label_running
  wait_for_pods_with_label_running-Held reads ns label w w' h =
      let (v, held) = polls 500 600000 (labelled_running poller reads ns label) w w' h in
      let (phases, listed, k) =
        held_by (λ phases. pure (all_running phases)) (reads.list_phases ns label v) held in
      let (nonempty, running_all) = all_running-split phases (ok-injective k) in
      (v, phases, listed, nonempty, running_all)

  -- Where the poller answers without an error only after its condition held, a wait for a service that
  -- returns without an error read it at some time: the read found the service if it was to appear,
  -- and was answered with `not found` if it was to disappear.
  pub wait_for_service-Held :
      (reads : ServiceReads W) (namespace name : String) (exist : Bool) (interval timeout : ℕ)
      (w w' : W)
      → wait_for_service poller reads namespace name exist interval timeout w ≡ (ok tt, w')
      → (v : W) × ((reads.get_service namespace name v).0
          ≡ (if exist then none else some not_found))
  unfolding wait_for_service
  wait_for_service-Held reads namespace name exist interval timeout w w' h =
      let returned =
        wrapped-ok
          (wrap "error waiting for service %s/%s %s: %v"
            (namespace ∷ name ∷ (if exist then "to appear" else "to disappear") ∷ []))
          tt w'
          (poller.poll_immediate interval timeout (service_seen poller reads namespace name exist))
          w h in
      let (v, held) =
        polls interval timeout (service_seen poller reads namespace name exist) w w' returned in
      (v, service_state-true exist (reads.get_service namespace name v).0 held)
