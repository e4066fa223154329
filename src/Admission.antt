-- ===== src/Admission.antt =====
-- pkg/kritis/admission: the webhook. images.go, owners.go, and what admission.go reads of an object.
pub mod Review
pub mod Closed
pub mod Reviewed
pub mod Handler
pub mod Webhook
pub mod Chain
use kritis.Base.{
  String, Bool, true, false, not, ◌&&◌, Option, none, some, List, [], ◌∷◌, ◌++◌, map, if◌then◌else◌,
  all, str_eq,
}
use kritis.Base.Maps.{lookup}
use kritis.Base.Result.{Error, Result, ok, err, errorf}
use kritis.Base.Exec.{Exec, pure, raise, attempt, ◌>>=◌}
use kritis.Names.{Names}
use kritis.Resources.{Container, PodSpec, Workload, ObjectMeta, OwnerReference}
use kritis.Allowlist.{split_globally_allowed_images}
use kritis.Policy.{in_list}
use kritis.Policy.Isp.{fully_qualified_image}

-- `PodImages`, `DeploymentImages` and `ReplicaSetImages`
unfoldable pub workload_images : Workload → List String
workload_images workload =
    map (λ (ic : Container). ic.image) workload.spec.init_containers
    ++ map (λ (c : Container). c.image) workload.spec.containers

abbrev breakglass : String
breakglass = "kritis.grafeas.io/breakglass"

abbrev is_some : {A : Type 0} → Option A → Bool
is_some none = false
is_some (some a) = true

unfoldable pub check_breakglass : ObjectMeta → Bool
check_breakglass meta = elim meta.annotations [
  | none ↦ false
  | some annotations ↦ is_some (lookup breakglass annotations)
]

-- The three kinds of object that the webhook knows.
pub data Kind : Type 0 where
  pod deployment replica_set : Kind

unfoldable pub kind_of : String → Option Kind
kind_of kind =
    if str_eq kind "Pod"
    then some pod
    else if str_eq kind "Deployment"
    then some deployment
    else if str_eq kind "ReplicaSet"
    then some replica_set
    else none

-- `imagesAreValid`
unfoldable pub images_are_valid : {R : Type 0} → Names R → List String → List String → Bool
images_are_valid names dependent_images owner_images =
    all (λ d. fully_qualified_image names d && in_list d owner_images)
      (split_globally_allowed_images names dependent_images).0

module _ {R W : Type 0} (names : Names R)
    -- the clientset's `Get` by kind, namespace and name
    (get_workload : Kind → String → String → Exec W Workload) where
  -- the switch on the kind
  abbrev pub retrieve_by_kind : Option Kind → String → OwnerReference → Exec W (List String)
  retrieve_by_kind none ns ref = raise (errorf "%s is not a supported kind" (ref.kind ∷ []))
  retrieve_by_kind (some kind) ns ref = do
    owner ← get_workload kind ns ref.name
    pure (workload_images owner)

  unfoldable pub retrieve_owners_images : String → OwnerReference → Exec W (List String)
  retrieve_owners_images ns ref = retrieve_by_kind (kind_of ref.kind) ns ref

  abbrev pub owner_is_valid : List String → Result (List String) → Bool
  owner_is_valid dependent_images (ok owner_images) =
      images_are_valid names dependent_images owner_images
  owner_is_valid dependent_images (err e) = false

  -- The loop of `checkOwners`: an error, and an owner that does not have the images, end it.
  unfoldable pub check_each : List String → String → List OwnerReference → Exec W Bool
  check_each dependent_images ns [] = pure true
  check_each dependent_images ns (o ∷ owners) = do
    r ← attempt (retrieve_owners_images ns o)
    if owner_is_valid dependent_images r then check_each dependent_images ns owners else pure false

  abbrev pub check_listed : List String → String → Option (List OwnerReference) → Exec W Bool
  check_listed dependent_images ns none = pure false
  check_listed dependent_images ns (some owners) = check_each dependent_images ns owners

  unfoldable pub check_owners : List String → ObjectMeta → Exec W Bool
  check_owners dependent_images meta =
      check_listed dependent_images meta.namespace meta.owner_references
