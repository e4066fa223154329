-- ===== src/Annotations/Toggled.antt =====
-- The label that the annotation strategy (pkg/kritis/violation/strategy.go) leaves on a pod.
use kritis.Base.{ℕ, String, ◌≡◌, Bool, Option, none, some, List, ◌∷◌, if◌then◌else◌}
use kritis.Base.Result.{ok}
use kritis.Resources.{Workload}
use kritis.Policy.{Violation}
use kritis.Pods.{Cluster}
use kritis.Pods.Labels.{value_of, same_value, Merges, replaced-label}
use kritis.Annotations.{
  invalid_image_sec_policy, invalid_image_sec_policy_label_value, image_attestation,
  attestation_label, attestation_annotation, handle_violation, handle_attestation,
}

-- The label with a value, and none where the pod came with that value.
abbrev pub left_by : Workload → String → String → Option String
left_by pod key value =
    if same_value (value_of pod.meta.labels key) (some value) then none else some value

module _ {W J P : Type 0} (cluster : Cluster W J P)
    (label_at : W → String → String → String → Option String) (merges : Merges cluster label_at)
    (sprintf_d : ℕ → String) (image : String) (pod : Workload) (w w' : W) where
  -- Handling an attestation without an error leaves the label of its state on the pod, except on a pod
  -- that was read with this label: there it leaves none.
  pub handle_attestation-label :
      (is_attested : Bool)
      → handle_attestation cluster sprintf_d image (some pod) is_attested w ≡ (ok tt, w')
      → label_at w' pod.meta.namespace pod.meta.name image_attestation
        ≡ left_by pod image_attestation (attestation_label is_attested)
  unfolding handle_attestation
  handle_attestation-label is_attested h =
      replaced-label cluster label_at merges image_attestation pod (attestation_label is_attested)
        (attestation_annotation is_attested) w w' h

  -- So does handling violations, where there are any.
  pub handle_violation-label :
      (v : Violation) (violations : List Violation)
      → handle_violation cluster sprintf_d image (some pod) (v ∷ violations) w ≡ (ok tt, w')
      → label_at w' pod.meta.namespace pod.meta.name invalid_image_sec_policy
        ≡ left_by pod invalid_image_sec_policy invalid_image_sec_policy_label_value
  unfolding handle_violation
  handle_violation-label v violations h =
      replaced-label cluster label_at merges invalid_image_sec_policy pod
        invalid_image_sec_policy_label_value _ w w' h
