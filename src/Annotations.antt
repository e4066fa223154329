-- ===== src/Annotations.antt =====
-- pkg/kritis/violation/strategy.go: the annotation strategy and the strategy that unit tests use.
pub mod Toggled
use kritis.Base.{
  ℕ, String, ◌+++◌, Bool, true, false, none, some, Option, List, [], ◌∷◌, length, if◌then◌else◌,
}
use kritis.Base.Maps.{insert}
use kritis.Base.Result.{Result, ok, err, panicked, Done}
use kritis.Base.Exec.{Exec, ◌>>=◌, ◌>>◌, pure, raise}
use kritis.Resources.{Workload}
use kritis.Policy.{
  Violation, unqualified_image_violation, fix_unavailable_violation, severity_violation,
}
use kritis.Review.{Strategy}
use kritis.Pods.{Cluster, add_labels_and_annotations, delete_labels_and_annotations}

-- `constants.InvalidImageSecPolicy` and the constants below it
abbrev pub invalid_image_sec_policy : String
invalid_image_sec_policy = "kritis.grafeas.io/invalidImageSecPolicy"

abbrev pub invalid_image_sec_policy_label_value : String
invalid_image_sec_policy_label_value = "invalidImageSecPolicy"

abbrev pub image_attestation : String
image_attestation = "kritis.grafeas.io/attestation"

abbrev pub no_attestations_label_value : String
no_attestations_label_value = "notAttested"

abbrev pub previously_attested_label_value : String
previously_attested_label_value = "attested"

abbrev pub previously_attested_annotation : String
previously_attested_annotation = "Previously attested."

abbrev pub no_attestations_annotation : String
no_attestations_annotation =
    "No valid attestations present. This pod will not be able to restart in future"

-- The loop that adds the reason of the first unqualified image.
unfoldable pub add_unqualified : String → List Violation → String
add_unqualified annotation_value [] = annotation_value
add_unqualified annotation_value (v ∷ violations) =
    let rest = add_unqualified annotation_value violations in
    elim v.v_type [
      | unqualified_image_violation ↦ annotation_value +++ (", " +++ v.reason)
      | fix_unavailable_violation ↦ rest
      | severity_violation ↦ rest
    ]

-- A nil pod is dereferenced.
abbrev pub with_pod : {W : Type 0} → Option Workload → (Workload → Exec W Done) → Exec W Done
with_pod none f = raise panicked
with_pod (some pod) f = f pod

abbrev pub attestation_label : Bool → String
attestation_label is_attested =
    if is_attested then previously_attested_label_value else no_attestations_label_value

abbrev pub attestation_annotation : Bool → String
attestation_annotation is_attested =
    if is_attested then previously_attested_annotation else no_attestations_annotation

-- `sprintf_d` is `fmt.Sprintf("%d", n)`.
module _ {W J P : Type 0} (cluster : Cluster W J P) (sprintf_d : ℕ → String) where
  -- After the deletion.
  abbrev pub annotate_violations : Workload → List Violation → Exec W Done
  annotate_violations pod [] = pure tt
  annotate_violations pod (v ∷ violations) =
      add_labels_and_annotations cluster pod
        ((invalid_image_sec_policy, invalid_image_sec_policy_label_value) ∷ [])
        ((
          invalid_image_sec_policy,
          add_unqualified ("found " +++ (sprintf_d (length (v ∷ violations)) +++ " CVEs"))
              (v ∷ violations),
        )
          ∷ [])

  unfoldable pub handle_violation : String → Option Workload → List Violation → Exec W Done
  handle_violation image pod violations = with_pod pod (λ p.
      delete_labels_and_annotations cluster p (invalid_image_sec_policy ∷ [])
        (invalid_image_sec_policy ∷ [])
      >> annotate_violations p violations)

  unfoldable pub handle_attestation : String → Option Workload → Bool → Exec W Done
  handle_attestation image pod is_attested = with_pod pod (λ p.
      delete_labels_and_annotations cluster p (image_attestation ∷ []) (image_attestation ∷ [])
      >> add_labels_and_annotations cluster p
          ((image_attestation, attestation_label is_attested) ∷ [])
          ((image_attestation, attestation_annotation is_attested) ∷ []))

  unfoldable pub annotation_strategy : Strategy W
  annotation_strategy = record {
    handle_violation = handle_violation;
    handle_attestation = handle_attestation;
  }

-- `MemoryStrategy`, whose maps are the world
pub record Memory : Type 0 where
  pub violations : List (String × Bool)
  pub attestations : List (String × Bool)

unfoldable pub memory_strategy : Strategy Memory
memory_strategy = record {
  handle_violation = λ image pod v memory. (
    ok tt,
    record { violations = insert image true memory.violations; attestations = memory.attestations },
  );
  handle_attestation = λ image pod is_attested memory. (
    ok tt,
    record {
      violations = memory.violations;
      attestations = insert image is_attested memory.attestations;
    },
  );
}
