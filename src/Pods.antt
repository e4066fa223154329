-- ===== src/Pods.antt =====
-- pkg/kritis/pods/pods.go: labels and annotations of running pods, over the client of the cluster.
pub mod Labels
use kritis.Base.{String, Bool, true, false, Option, none, some, List, [], ◌∷◌}
use kritis.Base.Maps.{lookup, insert, delete}
use kritis.Base.Result
use kritis.Base.Result.{Result, ok, err, Done}
use kritis.Base.Exec.{Exec, ◌>>=◌, ◌>>◌, pure, lift}
use kritis.Resources.{Workload, ObjectMeta}

-- A Go map with text keys, which may be nil.
abbrev pub StringMap : Type 0
StringMap = Option (List (String × String))

-- The calls of the cluster's client, of JSON and of the package strategicpatch, with `J` for encoded
-- objects and `P` for patches.
pub record Cluster (W J P : Type 0) : Type 0 where
  pub marshal : Workload → Result J
  -- the original and the modified object
  pub create_two_way_merge_patch : J → J → Result P
  pub get_clientset : Exec W Done
  -- namespace, name and patch
  pub patch : String → String → P → Exec W Done
  pub list_pods : String → Exec W (List Workload)

abbrev pub with_meta : Workload → StringMap → StringMap → Workload
with_meta pod labels annotations = record {
  meta = record {
    name = pod.meta.name;
    namespace = pod.meta.namespace;
    labels = labels;
    annotations = annotations;
    owner_references = pod.meta.owner_references;
  };
  spec = pod.spec;
}

abbrev pub insert_all : List (String × String) → List (String × String) → List (String × String)
insert_all [] m = m
insert_all ((k, v) ∷ entries) m = insert_all entries (insert k v m)

-- A nil map is replaced by the new entries.
abbrev pub add_to : List (String × String) → StringMap → StringMap
add_to entries none = some entries
add_to entries (some m) = some (insert_all entries m)

abbrev pub delete_all : List String → List (String × String) → List (String × String)
delete_all [] m = m
delete_all (k ∷ ks) m = delete_all ks (delete k m)

abbrev pub delete_from : List String → StringMap → StringMap
delete_from ks none = none
delete_from ks (some m) = some (delete_all ks m)

module _ {W J P : Type 0} (cluster : Cluster W J P) where
  unfoldable pub pods : String → Exec W (List Workload)
  pods namespace = cluster.get_clientset >> cluster.list_pods namespace

  unfoldable pub get_patch : Workload → J → Result P
  get_patch modified_pod original_json =
      Result.◌>>=◌ (cluster.marshal modified_pod)
        (λ modified_json. cluster.create_two_way_merge_patch original_json modified_json)

  unfoldable pub apply_patch : Workload → J → Exec W Done
  apply_patch modified_pod original_json = do
    p ← lift (get_patch modified_pod original_json)
    cluster.get_clientset
    cluster.patch modified_pod.meta.namespace modified_pod.meta.name p

  unfoldable pub add_labels_and_annotations :
      Workload → List (String × String) → List (String × String) → Exec W Done
  add_labels_and_annotations pod labels annotations = do
    original_json ← lift (cluster.marshal pod)
    apply_patch
        (with_meta pod (add_to labels pod.meta.labels) (add_to annotations pod.meta.annotations))
        original_json

  unfoldable pub delete_labels_and_annotations : Workload → List String → List String → Exec W Done
  delete_labels_and_annotations pod labels annotations = do
    original_json ← lift (cluster.marshal pod)
    apply_patch
        (with_meta pod (delete_from labels pod.meta.labels)
          (delete_from annotations pod.meta.annotations))
        original_json
